-- ===== src/Widget/Size/Safe.antt =====
-- ui/extra/lv_upgrade.c: the widget with all its images set is sized without a wrong read.
use openvela_frameworks_syst.Prelude.{
  else_at, refl, false, ◌==◌, ℕ, zero, suc, ◌≤◌, ◌<◌, ◌≡◌, inl, inr, ap, ◌∙◌, arith, Option, none,
  some, List, [], ◌∷◌, map, length, get_elem?, leb, Bool-cases,
}
use openvela_frameworks_syst.Prelude.Int.{ℤ, pos, negsuc}
use openvela_frameworks_syst.Widget.{
  ImageData, Upgrade, UpgradeType, num, bar, circle, anim, custom_anim, invalid, store_progress,
  same_value, anim_fps, get_value,
}
use openvela_frameworks_syst.Widget.Closest.{Filled, closest_element_index_lem, length-map-some}
use openvela_frameworks_syst.Widget.Size.{
  Area, add_digits, calc_objs_size, size_of, size_at, content_size, calc_number_mode_size,
  calc_bar_mode_size, calc_anim_mode_size, calc_anim_mode_size_lem, set_progress, with_size,
  with_redraw, redraw,
}

pub get_elem?-map-some :
    (ds : List ImageData) (i : ℕ)
    → i < length ds
    → (x : ImageData) × (get_elem? (map some ds) i ≡ some (some x))
get_elem?-map-some [] i h = absurd (omega arith)
get_elem?-map-some (d ∷ ds) zero h = (d, refl)
get_elem?-map-some (d ∷ ds) (suc i) h = get_elem?-map-some ds i (omega arith)

add_digits_total :
    (size : ℕ) (xs : List ImageData) (ds : List ℤ) (area : Area)
    → size ≤ length xs
    → (r : Area) × (add_digits size (map some xs) ds area ≡ some r)
unfolding add_digits
add_digits_total size xs [] area h = (area, refl)
add_digits_total size xs (negsuc d ∷ ds) area h = (area, refl)
add_digits_total size xs (pos d ∷ ds) area h = elim (Bool-cases (leb size d)) [
  | inl e ↦ (area, rw e)
  | inr e ↦
      let (x, found) = get_elem?-map-some xs d (ground (arith, e, h)) in
      let (r, rest) = add_digits_total size xs ds (calc_objs_size (some x.image) area) h in
      (r, rw e (rw found rest))
]

bar_total :
    (u : Upgrade) (area : Area) (value : ℕ) (ds : List ImageData)
    → Filled ds u
    → (r : Area) × (calc_bar_mode_size u area value ≡ some r)
unfolding calc_bar_mode_size
bar_total u area value ds (array, size, two, small) =
    let (t, found, inside, last, closest) =
      closest_element_index_lem value u ds (array, size, two, small) in
    let (x, place) = get_elem?-map-some ds t (omega (arith, size, inside)) in
    let here : get_elem? u.image_array t ≡ some (some x) = rw array place in
    (
      calc_objs_size (some x.image) area,
      ap (size_at u.image_array area) found ∙ ap (size_of area) here,
    )

anim_total :
    (u : Upgrade) (area : Area) (ds : List ImageData)
    → Filled ds u
    → (r : Area) × (calc_anim_mode_size u area ≡ some r)
anim_total u area ds (array, size, two, small) =
    let whole : length u.image_array ≡ length ds = rw array (length-map-some ds) in
    let (r, runs, wide, high, fits) = calc_anim_mode_size_lem u area (omega (arith, size, whole)) in
    (r, runs)

content_total :
    (type : UpgradeType) (u : Upgrade) (area : Area) (value : ℕ) (ds : List ImageData)
    → Filled ds u
    → (r : Area) × (content_size value u type area ≡ some r)
unfolding calc_number_mode_size
content_total num u area value ds (array, size, two, small) =
    rw array (add_digits_total u.image_array_size ds u.progress _ (omega (arith, size)))
content_total bar u area value ds filled = bar_total u area value ds filled
content_total circle u area value ds filled = anim_total u area ds filled
content_total anim u area value ds filled = anim_total u area ds filled
content_total custom_anim u area value ds filled = (_, refl)
content_total invalid u area value ds filled = (_, refl)

store_progress-Filled :
    (value : ℕ) (u : Upgrade) (ds : List ImageData)
    → Filled ds u
    → Filled ds (store_progress value u)
unfolding store_progress
store_progress-Filled value u ds filled = elim (Bool-cases (same_value u.value value)) [
  | inl e ↦ rw e filled
  | inr e ↦ rw e filled
]

-- Setting the progress leaves the frames per second.
pub anim_fps-store_progress :
    (value : ℕ) (u : Upgrade) → anim_fps (store_progress value u) ≡ anim_fps u
unfolding store_progress
anim_fps-store_progress value u = elim (Bool-cases (same_value u.value value)) [
  | inl e ↦ rw e refl
  | inr e ↦ rw e refl
]

redraw_total :
    (type : UpgradeType) (u : Upgrade) (area : Area) (ds : List ImageData)
    → Filled ds u
    → 1 ≤ anim_fps u
    → (r : Area) × (redraw u type area ≡ some r)
redraw_total num u area ds filled fps = content_total num u area 0 ds filled
redraw_total bar u area ds filled fps = bar_total u area (get_value u) ds filled
redraw_total circle u area ds filled fps =
    let given : (anim_fps u == 0) ≡ false = ground (arith, fps) in (area, else_at given _ _)
redraw_total anim u area ds filled fps =
    let given : (anim_fps u == 0) ≡ false = ground (arith, fps) in (area, else_at given _ _)
redraw_total custom_anim u area ds filled fps = (area, refl)
redraw_total invalid u area ds filled fps = (area, refl)

-- For a widget of any type whose array holds 2 to 255 images without a null pointer, and at least
-- one frame per second: setting the progress, to any value, with the redraw of the widget, reads no
-- null pointer and nothing outside the array and does not divide by 0, and it leaves the images as
-- they are.
pub set_progress_safe :
    (value : ℕ) (u : Upgrade) (ds : List ImageData)
    → Filled ds u
    → 1 ≤ anim_fps u
    → (after : Upgrade × Option Area) × (set_progress value u ≡ some after)
      × (after.0 ≡ store_progress value u)
      × Filled ds after.0
unfolding set_progress store_progress
set_progress_safe value u ds filled fps = elim (Bool-cases (same_value u.value value)) [
  | inl e ↦ rw e ((u, none), refl, refl, filled)
  | inr e ↦
      let stored = store_progress value u in
      let kept : Filled ds stored = store_progress-Filled value u ds filled in
      let (area, sized) = content_total u.type stored (record { x2 = 0; y2 = 0 }) value ds kept in
      let rate : 1 ≤ anim_fps stored = omega (arith, fps, anim_fps-store_progress value u) in
      let (drawn, redrawn) = redraw_total stored.type stored area ds kept rate in
      (
        (stored, some area),
        else_at e _ _ ∙ ap (with_size stored) sized ∙ ap (with_redraw stored area) redrawn,
        refl,
        kept,
      )
]
