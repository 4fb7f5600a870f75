-- ===== src/Config/Check.antt =====
-- Which configurations ui/ui_config_parse.c takes, said without the display.
use text.Mathlib.Text.{starts_with, ◌==◌}
use openvela_frameworks_syst.Prelude.{
  ◌≡◌, inl, inr, refl, sym, ◌∙◌, Bool, true, false, not, ◌&&◌, ◌||◌, Option, none, some, String,
  List, [], ◌∷◌, length, ltb, Bool-cases, if◌then◌else◌,
}
use openvela_frameworks_syst.Prelude.Int.{ℤ}
use openvela_frameworks_syst.Widget.{
  UpgradeType, num, bar, circle, anim, custom_anim, invalid, is_num,
}
use openvela_frameworks_syst.Code.{Code, succeeds, file_parse_error, file_content_invalid}
use openvela_frameworks_syst.Lvgl.{Lvgl, plain, image, upgrade_widget, no_style}
use openvela_frameworks_syst.Display.{is_found}
use openvela_frameworks_syst.Config.Names.{Input, both, is_invalid, string_2_id}
use openvela_frameworks_syst.Config.{
  set_area, json_area_parse, json_ui_image_set, json_align_parse, json_ui_obj_parse, configure,
  set_mode, json_progress_parse, set_label, json_label_parse, or_error, json_ui_page_cont_parse,
  parse_elements,
}

-- The names of the modes other than "number".
abbrev pub is_image_mode : String → Bool
is_image_mode key =
    "bar" == key || ("circle" == key || ("animation" == key || "custom_anim" == key))

module _ (input : Input) where
  open input use {Node, number, item, item_exact}

  -- The four numbers of an area are there.
  abbrev pub has_area : Node → Bool
  has_area n =
      let area = item (some n) "area" in
      is_found (both (number (item_exact area "x")) (number (item_exact area "y")))
      && is_found (both (number (item_exact area "w")) (number (item_exact area "h")))

  -- The mode is known, and digits have ten images.
  abbrev pub has_mode : Node → Option String → Bool
  has_mode n none = false
  has_mode n (some key) =
      if "number" == key
      then not (ltb (length (input.children (item (some n) "img_src_list"))) 10)
      else is_image_mode key

  abbrev pub has_image : Option String → Bool
  has_image none = false
  has_image (some path) = input.is_readable path

  abbrev pub element_ok : Node → Bool
  element_ok n =
      input.is_object (some n)
      && (if starts_with (input.name n) "progress"
          then has_area n && has_mode n (input.text (item (some n) "mode"))
          else starts_with (input.name n) "label"
            && (has_area n && has_image (input.text (item (some n) "img_src"))))

  -- An element is an object whose name starts with "progress" or "label", with an area of four
  -- numbers and, in turn, a known mode with its ten images or an image that can be opened.
  unfoldable pub elements_ok : List Node → Bool
  elements_ok [] = true
  elements_ok (n ∷ ns) = element_ok n && elements_ok ns

  abbrev pub page_ok : Node → Bool
  page_ok page = elements_ok (input.children (some page))

  module _ (lv : Lvgl) where
    open lv use {Store, Obj, create, style}

    succeeds-set_area :
        (xy wh : Option (ℤ × ℤ)) (o : Obj) (s : Store)
        → succeeds (set_area input lv xy wh o s).0 ≡ (is_found xy && is_found wh)
    succeeds-set_area (some xy) (some wh) o s = refl
    succeeds-set_area (some xy) none o s = refl
    succeeds-set_area none wh o s = refl

    pub succeeds-json_ui_obj_parse :
        (n : Node) (o : Obj) (s : Store)
        → succeeds (json_ui_obj_parse input lv (some n) o s).0 ≡ has_area n
    unfolding json_ui_obj_parse json_area_parse
    succeeds-json_ui_obj_parse n o s =
        let area = item (some n) "area" in
        let xy = both (number (item_exact area "x")) (number (item_exact area "y")) in
        let wh = both (number (item_exact area "w")) (number (item_exact area "h")) in
        let s₁ = (json_align_parse input lv (item (some n) "align") o s).1 in
        let same = succeeds-set_area xy wh o s₁ in
        elim (Bool-cases (is_found xy && is_found wh)) [
          | inl e ↦ rw (same ∙ e) (sym e)
          | inr e ↦ rw (same ∙ e) (sym e)
        ]

    -- What follows the area decides, where there is one.
    element_code :
        (n : Node) (o : Obj) (s : Store) (rest : Store → Code × Store) (ok : Bool)
        → ((t : Store) → succeeds (rest t).0 ≡ ok)
        → let read = json_ui_obj_parse input lv (some n) o s in
          succeeds (if not (succeeds read.0) then (file_parse_error, read.1) else rest read.1).0
          ≡ (has_area n && ok)
    element_code n o s rest ok follows =
        let same = succeeds-json_ui_obj_parse n o s in
        elim (Bool-cases (has_area n)) [
          | inl e ↦ rw (same ∙ e) (rw e (follows (json_ui_obj_parse input lv (some n) o s).1))
          | inr e ↦ rw (same ∙ e) (rw e refl)
        ]

    configure_code :
        (n : Node) (mode : UpgradeType) (o : Obj) (s : Store)
        → succeeds (configure input lv n mode o s).0
          ≡ not (is_num mode && ltb (length (input.children (item (some n) "img_src_list"))) 10)
    unfolding configure
    configure_code n mode o s =
        elim (Bool-cases
          (is_num mode && ltb (length (input.children (item (some n) "img_src_list"))) 10)) [
            | inl e ↦ rw e refl
            | inr e ↦ rw e refl
          ]

    -- The answers of the five comparisons with the names of the modes.
    mode_code :
        (a b c d e : Bool) (n : Node) (o : Obj) (s : Store)
        → let mode =
            if a
            then num
            else if b
            then bar
            else if c
            then circle
            else if d
            then anim
            else if e
            then custom_anim
            else invalid in
          succeeds
            (if is_invalid mode then (file_content_invalid, s) else configure input lv n mode o s).0
          ≡ (if a
              then not (ltb (length (input.children (item (some n) "img_src_list"))) 10)
              else b || (c || (d || e)))
    mode_code true b c d e n o s = configure_code n num o s
    mode_code false true c d e n o s = configure_code n bar o s
    mode_code false false true d e n o s = configure_code n circle o s
    mode_code false false false true e n o s = configure_code n anim o s
    mode_code false false false false true n o s = configure_code n custom_anim o s
    mode_code false false false false false n o s = refl

    succeeds-set_mode :
        (n : Node) (key : Option String) (o : Obj) (s : Store)
        → succeeds (set_mode input lv n key o s).0 ≡ has_mode n key
    unfolding set_mode string_2_id
    succeeds-set_mode n none o s = refl
    succeeds-set_mode n (some key) o s =
        mode_code ("number" == key) ("bar" == key) ("circle" == key) ("animation" == key)
          ("custom_anim" == key) n o s

    succeeds-set_label :
        (path : Option String) (o : Obj) (s : Store)
        → succeeds (set_label input lv path o s).0 ≡ has_image path
    unfolding set_label json_ui_image_set
    succeeds-set_label none o s = refl
    succeeds-set_label (some path) o s = elim (Bool-cases (input.is_readable path)) [
      | inl e ↦ rw e refl
      | inr e ↦ rw e refl
    ]

    succeeds-or_error : (r : Code × Store) → succeeds (or_error input lv r).0 ≡ succeeds r.0
    succeeds-or_error (code, s) = elim (Bool-cases (succeeds code)) [
      | inl e ↦ rw e refl
      | inr e ↦ rw e refl
    ]

    json_progress_parse_code :
        (n : Node) (page : Obj) (s : Store)
        → succeeds (json_progress_parse input lv n (some page) s).0
          ≡ (has_area n && has_mode n (input.text (item (some n) "mode")))
    unfolding json_progress_parse
    json_progress_parse_code n page s =
        let base = (create plain page s).0 in
        let r = create upgrade_widget base (style no_style base (create plain page s).1) in
        element_code n r.0 r.1 (set_mode input lv n (input.text (item (some n) "mode")) r.0) _
          (succeeds-set_mode n (input.text (item (some n) "mode")) r.0)

    json_label_parse_code :
        (n : Node) (page : Obj) (s : Store)
        → succeeds (json_label_parse input lv n page s).0
          ≡ (has_area n && has_image (input.text (item (some n) "img_src")))
    unfolding json_label_parse
    json_label_parse_code n page s =
        let base = (create plain page s).0 in
        let r = create image base (style no_style base (create plain page s).1) in
        element_code n r.0 r.1 (set_label input lv (input.text (item (some n) "img_src")) r.0) _
          (succeeds-set_label (input.text (item (some n) "img_src")) r.0)

    pub succeeds-json_ui_page_cont_parse :
        (n : Node) (page : Obj) (s : Store)
        → succeeds (json_ui_page_cont_parse input lv n page s).0 ≡ element_ok n
    unfolding json_ui_page_cont_parse
    succeeds-json_ui_page_cont_parse n page s = elim (Bool-cases (input.is_object (some n))) [
      | inr e ↦ rw e refl
      | inl e ↦ elim (Bool-cases (starts_with (input.name n) "progress")) [
        | inl p ↦ rw e (
            rw p (
              succeeds-or_error (json_progress_parse input lv n (some page) s)
              ∙ json_progress_parse_code n page s))
        | inr p ↦ elim (Bool-cases (starts_with (input.name n) "label")) [
          | inl l ↦ rw e (
              rw p (
                rw l (
                  succeeds-or_error (json_label_parse input lv n page s)
                  ∙ json_label_parse_code n page s)))
          | inr l ↦ rw e (rw p (rw l refl))
        ]
      ]
    ]

    -- The loop over the elements comes to its end just where each is well formed.
    pub parse_elements_code :
        (ns : List Node) (page : Obj) (s : Store)
        → (parse_elements input lv ns page s).0 ≡ elements_ok ns
    unfolding parse_elements elements_ok
    parse_elements_code [] page s = refl
    parse_elements_code (n ∷ ns) page s =
        let r = json_ui_page_cont_parse input lv n page s in
        let same = succeeds-json_ui_page_cont_parse n page s in
        elim (Bool-cases (element_ok n)) [
          | inl e ↦ rw (same ∙ e) (rw e (parse_elements_code ns page r.1))
          | inr e ↦ rw (same ∙ e) (rw e refl)
        ]
