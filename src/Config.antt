-- ===== src/Config.antt =====
-- ui/ui_config_parse.c: the configuration of the pages.
pub mod Names
pub mod Kept
pub mod Elements
pub mod Check
pub mod Pages
pub mod Load
pub mod Show
pub mod Chain
pub mod Further
pub mod Widget
pub mod Ready
pub mod Bar
pub mod Sample
pub mod Buffer
pub mod Rate
pub mod Null
mod Tests
use text.Mathlib.Text.{◌==◌, starts_with}
use Prim.Native.Nat.{bit_or}
use openvela_frameworks_syst.Prelude.{
  ℕ, zero, suc, ◌+◌, ◌*◌, ◌-◌, ◌≡◌, Bool, true, false, not, ◌&&◌, Option, none, some, String, List,
  [], ◌∷◌, length, ltb, if◌then◌else◌,
}
use openvela_frameworks_syst.Prelude.{◌==◌ as ◌==ℕ◌}
use openvela_frameworks_syst.Prelude.Int.{ℤ}
use openvela_frameworks_syst.Widget.{
  Image, Upgrade, UpgradeType, num, bar, circle, anim, custom_anim, invalid, is_num, set_type,
  set_image_array_size, set_image_data, set_animation_fps, set_animation_radius,
  set_percent_sign_image,
}
use openvela_frameworks_syst.Code.{
  Code, success, succeeds, file_parse_error, page_not_found, file_path_null, file_read_error,
  file_content_invalid,
}
use openvela_frameworks_syst.Lvgl.{
  Lvgl, plain, image, upgrade_widget, arc, Align, default_align, top_left, top_mid, top_right,
  left_mid, center, right_mid, bottom_left, bottom_mid, bottom_right, pos, size, align, bg_color,
  no_style, full_size, bg_cover, no_padding,
}
use openvela_frameworks_syst.Config.Names.{
  Input, string_2_id, number_2_align, hor_align_map, ver_align_map, progress_mode_map, is_invalid,
  is_custom, both,
}

module _ (input : Input) (lv : Lvgl) where
  open input use {Node, number, item, item_exact}
  open lv use {
    Store, Obj, screen, parent, upgrade, set_hidden, set_text, set_image, style, put_upgrade,
    create, clean,
  }

  abbrev pub place : Option Obj → ℤ × ℤ → ℤ × ℤ → Store → Store
  place none xy wh s = s
  place (some p) (x, y) (w, h) s = style (size w h) p (style (pos x y) p s)

  abbrev pub set_area : Option (ℤ × ℤ) → Option (ℤ × ℤ) → Obj → Store → Code × Store
  set_area (some xy) (some wh) o s = (success, place (parent s o) xy wh s)
  set_area (some xy) none o s = (file_content_invalid, s)
  set_area none wh o s = (file_content_invalid, s)

  unfoldable pub json_area_parse : Option Node → Obj → Store → Code × Store
  json_area_parse node o s =
      set_area (both (number (item_exact node "x")) (number (item_exact node "y")))
        (both (number (item_exact node "w")) (number (item_exact node "h"))) o s

  abbrev pub set_offset : Option (ℤ × ℤ) → Obj → Store → Code × Store
  set_offset none o s = (file_content_invalid, s)
  set_offset (some (x, y)) o s = (success, style (pos x y) o s)

  unfoldable pub json_offset_parse : Option Node → Obj → Store → Code × Store
  json_offset_parse node o s =
      set_offset (both (number (item_exact node "x")) (number (item_exact node "y"))) o s

  abbrev pub two_texts : List Node → Option (String × String)
  two_texts (h ∷ v ∷ []) = both (input.text (some h)) (input.text (some v))
  two_texts _ = none

  abbrev pub set_align : Option (String × String) → Obj → Store → Code × Store
  set_align none o s = (file_content_invalid, s)
  set_align (some (h, v)) o s =
      let hor = string_2_id (some h) hor_align_map 0 in
      let ver = string_2_id (some v) ver_align_map 0 in
      (success, style (align (number_2_align hor ver)) o s)

  unfoldable pub json_align_parse : Option Node → Obj → Store → Code × Store
  unfolding string_2_id number_2_align
  json_align_parse node o s =
      if input.is_array node
      then set_align (two_texts (input.children node)) o s
      else (file_content_invalid, s)

  unfoldable pub json_ui_image_set : Obj → String → Store → Code × Store
  json_ui_image_set o path s =
      if input.is_readable path then (success, set_image o path s) else (file_read_error, s)

  unfoldable pub json_ui_obj_parse : Option Node → Obj → Store → Code × Store
  json_ui_obj_parse node o s =
      let (align_ret, s) = json_align_parse (item node "align") o s in
      let (ret, s) = json_area_parse (item node "area") o s in
      if not (succeeds ret)
      then (file_parse_error, s)
      else let (offset_ret, s') = json_offset_parse (item node "offset") o s in (success, s')

  -- lv_upgrade_set_type on a widget of the tree.
  abbrev pub set_type_of : Obj → UpgradeType → Store → Store
  set_type_of o mode s =
      let s' = put_upgrade o (set_type mode (upgrade s o)) s in
      if is_custom mode then (create arc o s').1 else s'

  abbrev pub set_fps : Option ℤ → Upgrade → Upgrade
  set_fps none u = u
  set_fps (some fps) u = set_animation_fps fps u

  abbrev pub set_radius : Option ℤ → Upgrade → Upgrade
  set_radius none u = u
  set_radius (some radius) u = set_animation_radius radius u

  abbrev pub set_percent : Option String → Upgrade → Upgrade
  set_percent none u = u
  set_percent (some path) u = set_percent_sign_image (input.image_file (some path)) u

  -- The loop over the images left, from the index `i` on, for members that have a name: see Null.
  unfoldable pub set_images : UpgradeType → ℕ → List Node → Upgrade → Upgrade
  set_images mode i [] u = u
  set_images mode i (n ∷ ns) u =
      let key = input.decimal (input.name n) in
      let rest =
        set_images mode (i + 1) ns
          (set_image_data key (input.image_file (input.text (some n))) u) in
      if is_num mode && not (key ==ℕ i) then u else rest

  -- json_progress_parse from lv_upgrade_set_type on.
  unfoldable pub configure : Node → UpgradeType → Obj → Store → Code × Store
  configure progress mode o s =
      let s = set_type_of o mode s in
      let u = set_fps (number (item (some progress) "animation_fps")) (upgrade s o) in
      let u = set_radius (number (item (some progress) "animation_radius")) u in
      let u = set_percent (input.text (item (some progress) "percentage_src")) u in
      let images = input.children (item (some progress) "img_src_list") in
      if is_num mode && ltb (length images) 10 then (file_content_invalid, put_upgrade o u s) else (
        success,
        put_upgrade o (set_images mode 0 images (set_image_array_size (length images) u)) s,
      )

  -- json_progress_parse from the mode on.
  unfoldable pub set_mode : Node → Option String → Obj → Store → Code × Store
  set_mode progress none o s = (file_parse_error, s)
  set_mode progress (some key) o s =
      let mode = string_2_id (some key) progress_mode_map invalid in
      if is_invalid mode then (file_content_invalid, s) else configure progress mode o s

  unfoldable pub json_progress_parse : Node → Option Obj → Store → Code × Store
  json_progress_parse progress none s = (page_not_found, s)
  json_progress_parse progress (some page) s =
      let (base, s) = create plain page s in
      let s = style no_style base s in
      let (o, s) = create upgrade_widget base s in
      let (ret, s) = json_ui_obj_parse (some progress) o s in
      if not (succeeds ret)
      then (file_parse_error, s)
      else set_mode progress (input.text (item (some progress) "mode")) o s

  -- json_label_parse from the image on.
  unfoldable pub set_label : Option String → Obj → Store → Code × Store
  set_label none o s = (file_parse_error, s)
  set_label (some path) o s =
      let (ret, s') = json_ui_image_set o path s in
      (if not (succeeds ret) then file_parse_error else success, s')

  unfoldable pub json_label_parse : Node → Obj → Store → Code × Store
  json_label_parse label page s =
      let (base, s) = create plain page s in
      let s = style no_style base s in
      let (o, s) = create image base s in
      let (ret, s) = json_ui_obj_parse (some label) o s in
      if not (succeeds ret)
      then (file_parse_error, s)
      else set_label (input.text (item (some label) "img_src")) o s

  -- `if (ret < 0) return UI_FILE_PARSE_ERROR;`
  abbrev pub or_error : Code × Store → Code × Store
  or_error (ret, s) = (if not (succeeds ret) then file_parse_error else success, s)

  -- For an object that has a name: see Null.
  unfoldable pub json_ui_page_cont_parse : Node → Obj → Store → Code × Store
  json_ui_page_cont_parse n page s =
      if not (input.is_object (some n))
      then (file_content_invalid, s)
      else if starts_with (input.name n) "progress"
      then or_error (json_progress_parse n (some page) s)
      else if starts_with (input.name n) "label"
      then or_error (json_label_parse n page s)
      else (file_content_invalid, s)

  unfoldable pub create_page_obj : ℕ → Store → Obj × Store
  create_page_obj bgcolor s =
      let (o, s) = create plain screen s in
      let s = style no_style o s in
      let s = style (bg_color bgcolor) o s in
      let s = style bg_cover o s in
      let s = style no_padding o s in let s = style full_size o s in (o, set_hidden o true s)

  -- The `break` of a loop, or the rest of it.
  abbrev pub while_fine : Code × Store → (Store → Bool × Store) → Bool × Store
  while_fine (ret, s) rest = if not (succeeds ret) then (false, s) else rest s

  -- The loop of json_ui_page_parse over the elements left: whether it came to the end.
  unfoldable pub parse_elements : List Node → Obj → Store → Bool × Store
  parse_elements [] page s = (true, s)
  parse_elements (n ∷ ns) page s =
      while_fine (json_ui_page_cont_parse n page s) (λ s'. parse_elements ns page s')

  -- json_ui_page_parse behind the loop.
  abbrev pub finish_page : Obj → Bool × Store → Option Obj × Store
  finish_page page (all, s) = if all then (some page, s) else (none, clean screen s)

  unfoldable pub json_ui_page_parse : Node → ℕ → Store → Option Obj × Store
  json_ui_page_parse page bgcolor s =
      let (o, s) = create_page_obj bgcolor s in
      let s = set_text o (input.name page) s in
      finish_page o (parse_elements (input.children (some page)) o s)

  abbrev pub while_found : Option Obj × Store → (Store → Store) → Store
  while_found (none, s) rest = s
  while_found (some o, s) rest = rest s

  -- The loop of ui_page_config_init over the members left, where they have a name: see Null.
  unfoldable pub parse_pages : List Node → ℕ → Store → Store
  parse_pages [] bgcolor s = s
  parse_pages (n ∷ ns) bgcolor s =
      let rest : Store → Store = λ s'. parse_pages ns bgcolor s' in
      if input.name n == "bg_color"
      then rest s
      else while_found (json_ui_page_parse n bgcolor s) rest

  -- The colour; cJSON_HasObjectItem is whether cJSON_GetObjectItem is not null.
  abbrev pub color_of : Option String → ℕ
  color_of none = 0
  color_of (some t) = input.hexadecimal t

  unfoldable pub ui_page_config_init : Option Node → Store → Code × Store
  ui_page_config_init none s = (file_parse_error, s)
  ui_page_config_init (some root) s = (
    success,
    parse_pages (input.children (some root)) (color_of (input.text (item (some root) "bg_color")))
        s,
  )

  -- ui_config_init behind cJSON_Parse.
  unfoldable pub init_parsed : Option Node → Store → Code × Store
  init_parsed none s = (file_parse_error, s)
  init_parsed (some root) s = or_error (ui_page_config_init (some root) s)

  -- ui_config_init behind the read of the file.
  unfoldable pub init_read : Option String → Store → Code × Store
  init_read none s = (file_read_error, s)
  init_read (some content) s = init_parsed (input.parse content) s

  unfoldable pub ui_config_init : Option String → Store → Code × Store
  ui_config_init none s = (file_path_null, s)
  ui_config_init (some path) s = init_read (input.read_file path) s

  unfoldable pub ui_config_destroy : Store → Store
  ui_config_destroy s = clean screen s

  -- ui_config_parse of ui/ui_display.c
  unfoldable pub ui_config_parse : Option String → Store → Code × Store
  ui_config_parse path s = or_error (ui_config_init path s)
