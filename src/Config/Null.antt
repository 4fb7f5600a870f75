-- ===== src/Config/Null.antt =====
-- Where ui/ui_config_parse.c compares or converts the name of a member that has none: cJSON leaves
-- `string` a null pointer in the members of an array, and strcmp, strncmp and strtol crash on it.
use text.Mathlib.Text.{◌==◌, starts_with}
use openvela_frameworks_syst.Prelude.{
  ℕ, ◌+◌, ◌≡◌, Bool, false, not, ◌&&◌, ◌||◌, Option, none, some, String, List, [], ◌∷◌, length, ltb,
  ap, ◌∙◌, if◌then◌else◌,
}
use openvela_frameworks_syst.Prelude.{◌==◌ as ◌==ℕ◌}
use openvela_frameworks_syst.Code.{Code}
use openvela_frameworks_syst.Widget.{UpgradeType, invalid, is_num}
use openvela_frameworks_syst.Lvgl.{Lvgl}
use openvela_frameworks_syst.Config.Names.{Input, string_2_id, progress_mode_map, is_invalid}
use openvela_frameworks_syst.Config.{ui_config_init}
use openvela_frameworks_syst.Config.Check.{has_area, element_ok, page_ok}

module _ (input : Input) where
  open input use {Node, item}

  -- The loop over the images left, from the index `i` on, which calls strtol.
  unfoldable pub null_in_images : UpgradeType → ℕ → List Node → Bool
  null_in_images mode i [] = false
  null_in_images mode i (n ∷ ns) =
      let rest = null_in_images mode (i + 1) ns in
      not (input.has_name n)
      || (if is_num mode && not (input.decimal (input.name n) ==ℕ i) then false else rest)

  -- json_progress_parse from lv_upgrade_set_type on.
  abbrev pub null_in_list : Node → UpgradeType → Bool
  null_in_list n mode =
      let images = input.children (item (some n) "img_src_list") in
      if is_num mode && ltb (length images) 10 then false else null_in_images mode 0 images

  abbrev pub null_in_mode : Node → Option String → Bool
  null_in_mode n none = false
  null_in_mode n (some key) =
      let mode = string_2_id (some key) progress_mode_map invalid in
      if is_invalid mode then false else null_in_list n mode

  abbrev pub null_in_progress : Node → Bool
  null_in_progress n =
      if has_area input n then null_in_mode n (input.text (item (some n) "mode")) else false

  -- json_ui_page_cont_parse, which calls strncmp for an object.
  abbrev pub null_in_element : Node → Bool
  null_in_element n =
      if not (input.is_object (some n))
      then false
      else not (input.has_name n)
        || (if starts_with (input.name n) "progress" then null_in_progress n else false)

  -- The loop of json_ui_page_parse, which an element that is not well formed ends.
  unfoldable pub null_in_elements : List Node → Bool
  unfolding null_in_images string_2_id
  null_in_elements [] = false
  null_in_elements (n ∷ ns) =
      let rest = null_in_elements ns in
      null_in_element n || (if element_ok input n then rest else false)

  -- The loop of ui_page_config_init, which calls strcmp and which a page that is not well formed
  -- ends.
  unfoldable pub null_in_pages : List Node → Bool
  null_in_pages [] = false
  null_in_pages (n ∷ ns) =
      let rest = null_in_pages ns in
      let elements = null_in_elements (input.children (some n)) in
      not (input.has_name n)
      || (if input.name n == "bg_color"
          then rest
          else elements || (if page_ok input n then rest else false))

  abbrev pub null_in_root : Option Node → Bool
  null_in_root none = false
  null_in_root (some root) = null_in_pages (input.children (some root))

  abbrev pub null_in_content : Option String → Bool
  null_in_content none = false
  null_in_content (some content) = null_in_root (input.parse content)

  abbrev pub null_in_file : Option String → Bool
  null_in_file none = false
  null_in_file (some path) = null_in_content (input.read_file path)

  pub null_in_file_lem :
      (path content : String) (root : Node)
      → input.read_file path ≡ some content
      → input.parse content ≡ some root
      → null_in_file (some path) ≡ null_in_pages (input.children (some root))
  null_in_file_lem path content root can_read can_parse =
      ap null_in_content can_read ∙ ap null_in_root can_parse

module _ (input : Input) (lv : Lvgl) where
  open lv use {Store}

  -- ui_config_init, with its crash as `none`.
  unfoldable pub ui_config_load : Option String → Store → Option (Code × Store)
  unfolding null_in_pages null_in_elements
  ui_config_load path s =
      if null_in_file input path then none else some (ui_config_init input lv path s)
