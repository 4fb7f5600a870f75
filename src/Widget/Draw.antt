-- ===== src/Widget/Draw.antt =====
-- ui/extra/lv_upgrade.c: the drawing callbacks of the widget. What LVGL does with a call is not
-- modelled: a callback gives the calls it makes.
pub mod Number
pub mod Events
use openvela_frameworks_syst.Prelude.{
  ℕ, zero, suc, ◌+◌, ◌-◌, ◌*◌, ◌/◌, ◌%◌, ◌^◌, Bool, true, false, Option, none, some, List, [], ◌∷◌,
  ◌++◌, get_elem?, leb, ◌==◌, if◌then◌else◌,
}
use openvela_frameworks_syst.Prelude.Int.{ℤ, pos, negsuc}
use openvela_frameworks_syst.Prelude.Bytes.{u32}
use openvela_frameworks_syst.Widget.{
  Image, ImageData, Upgrade, UpgradeType, num, bar, circle, anim, custom_anim, invalid, anim_fps,
  get_value, signed,
}
use openvela_frameworks_syst.Widget.Closest.{closest_element_index}
use openvela_frameworks_syst.Widget.Size.{Area, set_progress, entry_image}
use Prim.Native.Nat.{max}

-- An lv_area_t; a coordinate is an int32_t, kept as its 32-bit pattern.
pub record Box : Type 0 where
  pub x1 : ℕ
  pub y1 : ℕ
  pub x2 : ℕ
  pub y2 : ℕ

abbrev pub zero_box : Box
zero_box = record { x1 = 0; y1 = 0; x2 = 0; y2 = 0 }

-- A difference in 32 bits.
abbrev pub minus : ℕ → ℕ → ℕ
minus a b = (a + 2 ^ 32 - b) % 2 ^ 32

-- `a / 2` of an int32_t, towards 0.
abbrev pub half : ℕ → ℕ
half a = if leb (2 ^ 31) a then minus 0 (minus 0 a / 2) else a / 2

-- lv_draw_image with the source of the descriptor, and lv_draw_rect.
pub data Call : Type 0 where
  draw_image : Option Image → Box → Call
  draw_rect : Box → Call

-- The fields of lv_upgrade_t that only the drawing uses, the static `rotation`, and whether LVGL runs
-- the animation, with the time it was given.
pub record Drawing : Type 0 where
  pub src : Option Image
  pub image_rotation : ℕ
  pub pivot : ℕ × ℕ
  pub anim_data : Option Image
  pub running : Option ℕ
  pub rotation : ℕ

-- lv_calc_draw_area: the area, and `coords` after it. The comparison is one of unsigned numbers.
pub calc_draw_area : Option Image → Box → Box × Box
calc_draw_area none coords = (zero_box, coords)
calc_draw_area (some image) coords =
    let tmp_height = minus coords.y2 coords.y1 in
    let x1 = minus coords.x2 image.w in
    let y1 = minus coords.y1 1 in
    let area : Box = record {
      x1 = x1;
      y1 = y1;
      x2 = minus coords.x2 1;
      y2 = max (minus tmp_height 1) (minus (u32 (y1 + image.h)) 1);
    } in
    (area, record area { x2 = x1 })

abbrev pub after_call : Call → Option (List Call) → Option (List Call)
after_call c none = none
after_call c (some cs) = some (c ∷ cs)

-- The loop of lv_render_number_mode_content over the digits left; the source is the one set before.
pub draw_digits : Option Image → ℕ → List (Option ImageData) → List ℤ → Box → Option (List Call)
unfolding calc_draw_area
draw_digits src size images [] coords = some []
draw_digits src size images (negsuc d ∷ ds) coords = some []
draw_digits src size images (pos d ∷ ds) coords =
    if leb size d then some [] else elim (get_elem? images d) [
      | none ↦ none
      | some none ↦ draw_digits src size images ds coords
      | some (some x) ↦
          let (area, coords') = calc_draw_area (some x.image) coords in
          after_call (draw_image src area) (draw_digits src size images ds coords')
    ]

-- lv_render_number_mode_content; `none` is a crash.
pub render_number_mode_content : Upgrade → Drawing → Box → Option (List Call)
unfolding draw_digits calc_draw_area
render_number_mode_content u d coords =
    let (area, coords') = calc_draw_area u.image_percent_sign coords in
    after_call (draw_image d.src area)
      (draw_digits d.src u.image_array_size u.image_array u.progress coords')

-- What a callback leaves: the calls and the drawing fields.
abbrev pub DrawResult : Type 0
DrawResult = Option (List Call × Drawing)

module _ (area_align : Box → Box → Box) where
  -- lv_render_bar_mode_content from the entry on; lv_area_align is a parameter.
  abbrev pub draw_bar : Drawing → Box → Box → Option (Option ImageData) → DrawResult
  draw_bar d task coords none = none
  draw_bar d task coords (some none) = some ([], d)
  draw_bar d task coords (some (some x)) =
      let area = area_align task (calc_draw_area (some x.image) coords).0 in
      let d = record d { src = some x.image } in
      some (draw_rect area ∷ draw_image d.src area ∷ [], d)

  abbrev pub draw_bar_at : Upgrade → Drawing → Box → Box → Option ℕ → DrawResult
  draw_bar_at u d task coords none = none
  draw_bar_at u d task coords (some i) = draw_bar d task coords (get_elem? u.image_array i)

  pub render_bar_mode_content : Upgrade → Drawing → Box → Box → DrawResult
  render_bar_mode_content u d task coords =
      draw_bar_at u d task coords (closest_element_index (get_value u) u)

-- lv_render_anim_mode_content; the division by 0 is a crash.
pub render_anim_mode_content : Upgrade → Drawing → Box → DrawResult
render_anim_mode_content u d coords = elim d.running [
  | some time ↦ some (draw_image d.src (calc_draw_area d.anim_data coords).0 ∷ [], d)
  | none ↦
      if anim_fps u == 0
      then none
      else some ([], record d { running = some (u.image_array_size * 1000 / anim_fps u) })
]

-- lv_render_custom_anim_content, where the arc is built in.
pub render_custom_anim_content : Drawing → Drawing
render_custom_anim_content d = elim d.running [
  | some time ↦ d
  | none ↦ record d { running = some 1500 }
]

-- `rotation += 360 / upgrade->anim_fps`
abbrev pub turn : Upgrade → DrawResult → DrawResult
turn u none = none
turn u (some (calls, d)) =
    if anim_fps u == 0
    then none
    else some (calls, record d { rotation = u32 (d.rotation + 360 / anim_fps u) })

abbrev pub with_calls : Drawing → Option (List Call) → DrawResult
with_calls d none = none
with_calls d (some calls) = some (calls, d)

-- The switch of lv_upgrade_event, for an object at `coords` and a task with that area.
pub render : (Box → Box → Box) → Upgrade → UpgradeType → Drawing → Box → Box → DrawResult
unfolding render_number_mode_content render_bar_mode_content render_anim_mode_content
    render_custom_anim_content
render align u num d task coords = with_calls d (render_number_mode_content u d coords)
render align u bar d task coords = render_bar_mode_content align u d task coords
render align u circle d task coords =
    let pivot : ℕ × ℕ = (half (minus coords.x2 coords.x1), half (minus coords.y2 coords.y1)) in
    turn u
      (render_anim_mode_content u (record d { image_rotation = d.rotation; pivot = pivot }) coords)
render align u anim d task coords = render_anim_mode_content u d coords
render align u custom_anim d task coords = some ([], render_custom_anim_content d)
render align u invalid d task coords = some ([], d)

-- A C remainder has the sign of the dividend.
abbrev pub remainder : ℤ → ℕ → ℤ
remainder (pos n) m = signed false (n % m)
remainder (negsuc n) m = signed true (suc n % m)

abbrev pub show_entry : Drawing → Option (Option ImageData) → Option Drawing
show_entry d none = none
show_entry d (some none) = some d
show_entry d (some (some x)) = some (record d { anim_data = some x.image })

abbrev pub show_index : Upgrade → Drawing → ℤ → Option Drawing
show_index u d (negsuc n) = some d
show_index u d (pos n) =
    if leb u.image_array_size n then some d else show_entry d (get_elem? u.image_array n)

-- lv_index_change; `none` is a division by 0 or a read outside the array. The remainder is below 255.
pub index_change : Upgrade → Drawing → ℤ → Option Drawing
index_change u d index =
    if u.image_array_size == 0 then none else show_index u d (remainder index u.image_array_size)

-- lv_value_change, for a value that is not negative: the value of the arc and its start angle.
pub value_change : ℕ → ℕ × ℕ
value_change value =
    let tmp_val = if leb 720 value then 721 else value in (tmp_val % 360, value * 2 / 3)

-- What happens to a widget: a call of lv_upgrade_set_progress, a task to draw, of that area and for
-- an object at these coordinates, or a frame of the animation.
pub data Event : Type 0 where
  progress : ℕ → Event
  draw : Box → Box → Event
  frame : ℤ → Event

abbrev pub progressed : Drawing → Option (Upgrade × Option Area) → Option (Upgrade × Drawing)
progressed d none = none
progressed d (some (u, area)) = some (u, d)

abbrev pub after_draw : Upgrade → DrawResult → Option (Upgrade × Drawing)
after_draw u none = none
after_draw u (some (calls, d)) = some (u, d)

abbrev pub after_frame : Upgrade → Option Drawing → Option (Upgrade × Drawing)
after_frame u none = none
after_frame u (some d) = some (u, d)

-- lv_upgrade_event for a draw task, and the other two; `none` is a crash.
pub handle : (Box → Box → Box) → Event → Upgrade → Drawing → Option (Upgrade × Drawing)
unfolding render index_change
handle align (progress value) u d = progressed d (set_progress value u)
handle align (draw task coords) u d = after_draw u (render align u u.type d task coords)
handle align (frame index) u d = after_frame u (index_change u d index)

abbrev pub go_on :
    Option (Upgrade × Drawing)
    → (Upgrade → Drawing → Option (Upgrade × Drawing))
    → Option (Upgrade × Drawing)
go_on none rest = none
go_on (some (u, d)) rest = rest u d

pub handle_all : (Box → Box → Box) → List Event → Upgrade → Drawing → Option (Upgrade × Drawing)
unfolding handle
handle_all align [] u d = some (u, d)
handle_all align (e ∷ es) u d = go_on (handle align e u d) (λ u' d'. handle_all align es u' d')
