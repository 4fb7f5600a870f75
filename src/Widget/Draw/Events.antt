-- ===== src/Widget/Draw/Events.antt =====
-- What the widget of ui/extra/lv_upgrade.c does with progress, draw tasks and frames in any order.
use openvela_frameworks_syst.Prelude.{
  ℕ, zero, suc, ◌*◌, ◌/◌, ◌%◌, ◌≤◌, ◌<◌, ◌≡◌, inl, inr, refl, ap, sym, ◌∙◌, true, false, arith,
  Option, some, List, [], ◌∷◌, length, get_elem?, map, leb, ◌==◌, Bool-cases, Option-cases, else_at,
}
use openvela_frameworks_syst.Prelude.Int.{ℤ, pos, negsuc}
use openvela_frameworks_syst.Widget.{
  Image, ImageData, Upgrade, UpgradeType, num, bar, circle, anim, custom_anim, invalid, anim_fps,
  get_value, signed,
}
use openvela_frameworks_syst.Widget.Closest.{
  Filled, closest_element_index, closest_element_index_lem,
}
use openvela_frameworks_syst.Widget.Size.Safe.{
  get_elem?-map-some, anim_fps-store_progress, set_progress_safe,
}
use openvela_frameworks_syst.Widget.Draw.{
  Box, Call, draw_image, draw_rect, Drawing, DrawResult, calc_draw_area, after_call, draw_digits,
  render_number_mode_content, draw_bar, draw_bar_at, render_bar_mode_content,
  render_anim_mode_content, turn, with_calls, render, show_entry, show_index, index_change, Event,
  progress, draw, frame, progressed, after_draw, after_frame, handle, go_on, handle_all,
}

elem_at :
    (ds : List ImageData) (i : ℕ) → i < length ds → (x : ImageData) × (get_elem? ds i ≡ some x)
elem_at [] i h = absurd (omega arith)
elem_at (d ∷ ds) zero h = (d, refl)
elem_at (d ∷ ds) (suc i) h = elem_at ds i (omega arith)

map_at :
    (ds : List ImageData) (i : ℕ) (x : ImageData)
    → get_elem? ds i ≡ some x
    → get_elem? (map some ds) i ≡ some (some x)
map_at [] i x e = absurd (cc)
map_at (d ∷ ds) zero x e = ap some e
map_at (d ∷ ds) (suc i) x e = map_at ds i x e

-- An entry of a full array.
entry_at :
    (u : Upgrade) (ds : List ImageData) (i : ℕ)
    → Filled ds u
    → i < u.image_array_size
    → (x : ImageData) × (get_elem? ds i ≡ some x) × (get_elem? u.image_array i ≡ some (some x))
entry_at u ds i (array, size, two, small) inside =
    let (x, here) = elem_at ds i (omega (arith, size, inside)) in
    (x, here, ap (λ l. get_elem? l i) array ∙ map_at ds i x here)

-- For an array of 2 to 255 images: lv_render_bar_mode_content draws a rectangle and the image that
-- lv_get_closest_element_index chooses for the value of the widget, in one area, which lv_area_align
-- makes of the image's own; that image becomes the source.
render_bar_mode_content_lem :
    (align : Box → Box → Box) (u : Upgrade) (ds : List ImageData) (d : Drawing) (task coords : Box)
    → Filled ds u
    → (t : ℕ) × (x : ImageData) × (closest_element_index (get_value u) u ≡ some t)
      × (get_elem? ds t ≡ some x)
      × (let area = align task (calc_draw_area (some x.image) coords).0 in
          render_bar_mode_content align u d task coords
          ≡ some (
            draw_rect area ∷ draw_image (some x.image) area ∷ [],
            record d { src = some x.image },
          ))
unfolding render_bar_mode_content
render_bar_mode_content_lem align u ds d task coords filled =
    let (t, chosen, inside, last, zero_there) =
      closest_element_index_lem (get_value u) u ds filled in
    let (x, here, there) = entry_at u ds t filled inside in
    (
      t,
      x,
      chosen,
      here,
      ap (draw_bar_at align u d task coords) chosen ∙ ap (draw_bar align d task coords) there,
    )

-- For an array of 2 to 255 images and a frame of a number that is not negative: lv_index_change shows
-- the image at the remainder of that number by the size of the array.
index_change_lem :
    (u : Upgrade) (ds : List ImageData) (d : Drawing) (n : ℕ)
    → Filled ds u
    → (x : ImageData) × (get_elem? ds (n % length ds) ≡ some x)
      × (index_change u d (pos n) ≡ some (record d { anim_data = some x.image }))
unfolding index_change
index_change_lem u ds d n (array, size, two, small) =
    let inside : n % u.image_array_size < u.image_array_size = grind (arith, size, two) in
    let (x, here, there) =
      entry_at u ds (n % u.image_array_size) (array, size, two, small) inside in
    let whole : leb u.image_array_size (n % u.image_array_size) ≡ false = ground (arith, inside) in
    let some_size : (u.image_array_size == 0) ≡ false = ground (arith, size, two) in
    (
      x,
      ap (λ k. get_elem? ds (n % k)) (sym size) ∙ here,
      else_at some_size _ _ ∙ else_at whole _ _ ∙ ap (show_entry d) there,
    )

-- A negative remainder changes nothing, and 0 gives the first image.
signed_total :
    (u : Upgrade) (d : Drawing) (r : ℕ)
    → leb u.image_array_size 0 ≡ false
    → (x : ImageData) × (get_elem? u.image_array 0 ≡ some (some x))
    → (d' : Drawing) × (show_index u d (signed true r) ≡ some d')
signed_total u d zero some_entry (x, there) = (_, else_at some_entry _ _ ∙ ap (show_entry d) there)
signed_total u d (suc r) some_entry first = (d, refl)

index_change_total :
    (u : Upgrade) (ds : List ImageData) (d : Drawing) (index : ℤ)
    → Filled ds u
    → (d' : Drawing) × (index_change u d index ≡ some d')
unfolding index_change
index_change_total u ds d (pos n) filled =
    let (x, here, runs) = index_change_lem u ds d n filled in
    (record d { anim_data = some x.image }, runs)
index_change_total u ds d (negsuc n) (array, size, two, small) =
    let some_size : (u.image_array_size == 0) ≡ false = ground (arith, size, two) in
    let some_entry : leb u.image_array_size 0 ≡ false = ground (arith, size, two) in
    let (x, here, there) = entry_at u ds 0 (array, size, two, small) (omega (arith, size, two)) in
    let (d', shown) = signed_total u d (suc n % u.image_array_size) some_entry (x, there) in
    (d', else_at some_size _ _ ∙ shown)

draw_digits_total :
    (src : Option Image) (size : ℕ) (xs : List ImageData) (ds : List ℤ) (coords : Box)
    → size ≤ length xs
    → (calls : List Call) × (draw_digits src size (map some xs) ds coords ≡ some calls)
unfolding draw_digits
draw_digits_total src size xs [] coords whole = ([], refl)
draw_digits_total src size xs (negsuc d ∷ ds) coords whole = ([], refl)
draw_digits_total src size xs (pos d ∷ ds) coords whole = elim (Bool-cases (leb size d)) [
  | inl e ↦ ([], rw e)
  | inr e ↦
      let (x, at) = get_elem?-map-some xs d (ground (arith, e, whole)) in
      let (b, next) = calc_draw_area (some x.image) coords in
      let (calls, runs) = draw_digits_total src size xs ds next whole in
      (draw_image src b ∷ calls, rw e (rw at (ap (after_call (draw_image src b)) runs)))
]

number_total :
    (u : Upgrade) (ds : List ImageData) (d : Drawing) (coords : Box)
    → Filled ds u
    → (calls : List Call) × (render_number_mode_content u d coords ≡ some calls)
unfolding render_number_mode_content
number_total u ds d coords (array, size, two, small) =
    let (b, next) = calc_draw_area u.image_percent_sign coords in
    let (calls, runs) =
      draw_digits_total d.src u.image_array_size ds u.progress next (omega (arith, size)) in
    (
      draw_image d.src b ∷ calls,
      ap
            (λ l.
              after_call (draw_image d.src b)
                (draw_digits d.src u.image_array_size l u.progress next))
            array
          ∙ ap (after_call (draw_image d.src b)) runs,
    )

anim_total :
    (u : Upgrade) (d : Drawing) (coords : Box)
    → 1 ≤ anim_fps u
    → (r : List Call × Drawing) × (render_anim_mode_content u d coords ≡ some r)
unfolding render_anim_mode_content
anim_total u d coords fps =
    let some_fps : (anim_fps u == 0) ≡ false = ground (arith, fps) in
    elim (Option-cases d.running) [
      | inr (time, e) ↦
          ((draw_image d.src (calc_draw_area d.anim_data coords).0 ∷ [], d), rw e refl)
      | inl e ↦ (
        ([], record d { running = some (u.image_array_size * 1000 / anim_fps u) }),
        rw e (else_at some_fps _ _),
      )
    ]

turn_total :
    (u : Upgrade) (drawn : DrawResult)
    → 1 ≤ anim_fps u
    → (r : List Call × Drawing) × (drawn ≡ some r)
    → (r : List Call × Drawing) × (turn u drawn ≡ some r)
turn_total u drawn fps (r, e) =
    let some_fps : (anim_fps u == 0) ≡ false = ground (arith, fps) in
    (_, ap (turn u) e ∙ else_at some_fps _ _)

render_total :
    (align : Box → Box → Box) (u : Upgrade) (type : UpgradeType) (ds : List ImageData) (d : Drawing)
    (task coords : Box)
    → Filled ds u
    → 1 ≤ anim_fps u
    → (r : List Call × Drawing) × (render align u type d task coords ≡ some r)
unfolding render
render_total align u num ds d task coords filled fps =
    let (calls, runs) = number_total u ds d coords filled in ((calls, d), ap (with_calls d) runs)
render_total align u bar ds d task coords filled fps =
    let (t, x, chosen, here, runs) = render_bar_mode_content_lem align u ds d task coords filled in
    (_, runs)
render_total align u circle ds d task coords filled fps =
    turn_total u _ fps (anim_total u _ coords fps)
render_total align u anim ds d task coords filled fps = anim_total u d coords fps
render_total align u custom_anim ds d task coords filled fps = (_, refl)
render_total align u invalid ds d task coords filled fps = (_, refl)

-- What every event leaves alone.
Good : List ImageData → Upgrade → Type 0
Good ds u = Filled ds u × (1 ≤ anim_fps u)

handle-Good :
    (align : Box → Box → Box) (e : Event) (ds : List ImageData) (u : Upgrade) (d : Drawing)
    → Good ds u
    → (u' : Upgrade) × (d' : Drawing) × (handle align e u d ≡ some (u', d')) × Good ds u'
unfolding handle Good
handle-Good align (progress value) ds u d (filled, fps) =
    let ((u', area), runs, stored, kept) = set_progress_safe value u ds filled fps in
    (
      u',
      d,
      ap (progressed d) runs,
      (kept, omega (arith, fps, ap anim_fps stored ∙ anim_fps-store_progress value u)),
    )
handle-Good align (draw task coords) ds u d (filled, fps) =
    let (r, runs) = render_total align u u.type ds d task coords filled fps in
    (u, r.1, ap (after_draw u) runs, (filled, fps))
handle-Good align (frame index) ds u d (filled, fps) =
    let (d', runs) = index_change_total u ds d index filled in
    (u, d', ap (after_frame u) runs, (filled, fps))

-- For a widget of any type whose array holds 2 to 255 images without a null pointer, and at least
-- one frame per second: whatever progress is set, whatever tasks are drawn and whatever frames of
-- the animation come, in any order and number, no callback reads a null pointer, reads outside the
-- array or divides by 0; the images stay as they are.
pub handle_all_safe :
    (align : Box → Box → Box) (es : List Event) (ds : List ImageData) (u : Upgrade) (d : Drawing)
    → Filled ds u
    → 1 ≤ anim_fps u
    → (u' : Upgrade) × (d' : Drawing) × (handle_all align es u d ≡ some (u', d')) × Filled ds u'
unfolding handle_all Good
handle_all_safe align [] ds u d filled fps = (u, d, refl, filled)
handle_all_safe align (e ∷ es) ds u d filled fps =
    let (u₁, d₁, one, (kept, fps')) = handle-Good align e ds u d (filled, fps) in
    let (u', d', rest, left) = handle_all_safe align es ds u₁ d₁ kept fps' in
    (u', d', ap (λ r. go_on r (λ u' d'. handle_all align es u' d')) one ∙ rest, left)
