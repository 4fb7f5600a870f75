-- ===== src/Widget/Size.antt =====
-- ui/extra/lv_upgrade.c: the size of the widget's content, and the images it is computed from.
pub mod Safe
use openvela_frameworks_syst.Prelude.{
  ℕ, zero, suc, ◌+◌, ◌-◌, ◌*◌, ◌≤◌, ◌<◌, ◌≡◌, refl, ap, Bool, true, false, arith, Option, none,
  some, List, [], ◌∷◌, get_elem?, set, length, ltb, leb, ◌==◌, if◌then◌else◌,
}
use openvela_frameworks_syst.Prelude.Int.{ℤ, pos, negsuc}
use openvela_frameworks_syst.Widget.{
  Image, ImageData, Upgrade, UpgradeType, num, bar, circle, anim, custom_anim, invalid,
  store_progress, same_value, anim_fps, get_value,
}
use openvela_frameworks_syst.Widget.Closest.{closest_element_index}
use Prim.Native.Nat.{max}

-- The corner of an lv_area_t whose other corner stays at the origin.
pub record Area : Type 0 where
  pub x2 : ℕ
  pub y2 : ℕ

-- lv_calc_objs_size
unfoldable pub calc_objs_size : Option Image → Area → Area
calc_objs_size none area = area
calc_objs_size (some image) area = record { x2 = area.x2 + image.w; y2 = max area.y2 image.h }

-- The image of an entry; reading past the allocated array is a crash, a null pointer is not.
abbrev pub entry_image : Option ImageData → Option Image
entry_image none = none
entry_image (some x) = some x.image

-- The loop of lv_calc_number_mode_size over the digits left.
unfoldable pub add_digits : ℕ → List (Option ImageData) → List ℤ → Area → Option Area
unfolding calc_objs_size
add_digits size images [] area = some area
add_digits size images (negsuc d ∷ ds) area = some area
add_digits size images (pos d ∷ ds) area =
    if leb size d then some area else elim (get_elem? images d) [
      | none ↦ none
      | some x ↦ add_digits size images ds (calc_objs_size (entry_image x) area)
    ]

-- lv_calc_number_mode_size
unfoldable pub calc_number_mode_size : Upgrade → Area → Option Area
unfolding add_digits calc_objs_size
calc_number_mode_size u area =
    add_digits u.image_array_size u.image_array u.progress
      (calc_objs_size u.image_percent_sign area)

abbrev pub size_of : Area → Option (Option ImageData) → Option Area
size_of area none = none
size_of area (some x) = some (calc_objs_size (entry_image x) area)

abbrev pub size_at : List (Option ImageData) → Area → Option ℕ → Option Area
size_at images area none = none
size_at images area (some i) = size_of area (get_elem? images i)

-- lv_calc_bar_mode_size
pub calc_bar_mode_size : Upgrade → Area → ℕ → Option Area
calc_bar_mode_size u area value = size_at u.image_array area (closest_element_index value u)

abbrev max_size : Area → Option ImageData → Area
max_size area none = area
max_size area (some x) = record { x2 = max area.x2 x.image.w; y2 = max area.y2 x.image.h }

-- The loop of lv_calc_anim_mode_size over the entries left.
pub max_sizes : ℕ → List (Option ImageData) → Area → Option Area
max_sizes zero xs area = some area
max_sizes (suc n) [] area = none
max_sizes (suc n) (x ∷ xs) area = max_sizes n xs (max_size area x)

-- lv_calc_anim_mode_size
pub calc_anim_mode_size : Upgrade → Area → Option Area
unfolding max_sizes
calc_anim_mode_size u area = max_sizes u.image_array_size u.image_array area

-- lv_calc_custom_anim_size, where the arc is built in
pub calc_custom_anim_size : Upgrade → Area → Area
calc_custom_anim_size u area = record { x2 = u.arc_radius; y2 = u.arc_radius }

-- The switch of lv_upgrade_set_progress.
abbrev pub content_size : ℕ → Upgrade → UpgradeType → Area → Option Area
content_size value u num area = calc_number_mode_size u area
content_size value u bar area = calc_bar_mode_size u area value
content_size value u circle area = calc_anim_mode_size u area
content_size value u anim area = calc_anim_mode_size u area
content_size value u custom_anim area = some (calc_custom_anim_size u area)
content_size value u invalid area = some area

-- lv_obj_invalidate and lv_refr_now behind the switch, which call lv_upgrade_event for the widget:
-- none where that crashes, by a read of the array or by a division by the frames per second. The
-- widget is visible and its animation does not run yet. The calls that draw it are those of
-- Widget/Draw; the other objects of the screen are not redrawn here.
abbrev pub redraw : Upgrade → UpgradeType → Area → Option Area
redraw u num area = calc_number_mode_size u area
redraw u bar area = calc_bar_mode_size u area (get_value u)
redraw u circle area = if anim_fps u == 0 then none else some area
redraw u anim area = if anim_fps u == 0 then none else some area
redraw u custom_anim area = some area
redraw u invalid area = some area

abbrev pub with_redraw : Upgrade → Area → Option Area → Option (Upgrade × Option Area)
with_redraw u area none = none
with_redraw u area (some drawn) = some (u, some area)

abbrev pub with_size : Upgrade → Option Area → Option (Upgrade × Option Area)
with_size u none = none
with_size u (some area) = with_redraw u area (redraw u u.type area)

-- lv_upgrade_set_progress: the widget after it and the size it is given, when it is given one; none
-- is a crash.
pub set_progress : ℕ → Upgrade → Option (Upgrade × Option Area)
set_progress value u =
    let stored = store_progress value u in
    if same_value u.value value
    then some (u, none)
    else with_size stored (content_size value stored u.type (record { x2 = 0; y2 = 0 }))

-- An image of that size fits into the area.
abbrev pub Fits : Image → Area → Type 0
Fits image area = (image.w ≤ area.x2) × (image.h ≤ area.y2)

first-Fits :
    (y : ImageData) (area r : Area)
    → max area.x2 y.image.w ≤ r.x2
    → max area.y2 y.image.h ≤ r.y2
    → (x : ImageData) → some y ≡ some x
    → Fits x.image r
first-Fits y area r wide high x e =
    let same : x ≡ y = cc in rw same (omega (arith, wide), omega (arith, high))

later-Fits :
    (n : ℕ) (y : Option ImageData) (xs : List (Option ImageData)) (r : Area)
    → ((x : ImageData) → y ≡ some x → Fits x.image r)
    → ((i : ℕ) (x : ImageData) → i < n → get_elem? xs i ≡ some (some x) → Fits x.image r)
    → (i : ℕ) (x : ImageData) → i < suc n
    → get_elem? (y ∷ xs) i ≡ some (some x)
    → Fits x.image r
later-Fits n y xs r here later zero x below e = here x cc
later-Fits n y xs r here later (suc i) x below e = later i x (omega arith) e

max_sizes-grows :
    (n : ℕ) (xs : List (Option ImageData)) (area : Area)
    → n ≤ length xs
    → (r : Area) × (max_sizes n xs area ≡ some r)
      × (area.x2 ≤ r.x2)
      × (area.y2 ≤ r.y2)
      × ((i : ℕ) (x : ImageData) → i < n → get_elem? xs i ≡ some (some x) → Fits x.image r)
unfolding max_sizes
max_sizes-grows zero xs area h =
    (area, refl, omega arith, omega arith, λ i x below e. absurd (omega arith))
max_sizes-grows (suc n) [] area h = absurd (omega arith)
max_sizes-grows (suc n) (none ∷ xs) area h =
    let (r, runs, wide, high, fits) = max_sizes-grows n xs area (omega arith) in
    (r, runs, wide, high, later-Fits n none xs r (λ x e. absurd (cc)) fits)
max_sizes-grows (suc n) (some y ∷ xs) area h =
    let (r, runs, wide, high, fits) = max_sizes-grows n xs (max_size area (some y)) (omega arith) in
    (
      r,
      runs,
      omega (arith, wide),
      omega (arith, high),
      later-Fits n (some y) xs r (first-Fits y area r wide high) fits,
    )

-- lv_calc_anim_mode_size, for an array as long as its size says: it returns an area into which every
-- image of the array fits, and which is not smaller than the area before.
pub calc_anim_mode_size_lem :
    (u : Upgrade) (area : Area)
    → u.image_array_size ≤ length u.image_array
    → (r : Area) × (calc_anim_mode_size u area ≡ some r)
      × (area.x2 ≤ r.x2)
      × (area.y2 ≤ r.y2)
      × ((i : ℕ) (x : ImageData)
          → i < u.image_array_size
          → get_elem? u.image_array i ≡ some (some x)
          → Fits x.image r)
unfolding calc_anim_mode_size
calc_anim_mode_size_lem u area h = max_sizes-grows u.image_array_size u.image_array area h
