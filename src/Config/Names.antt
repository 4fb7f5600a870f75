-- ===== src/Config/Names.antt =====
-- The name tables of ui/ui_config_parse.c, and what its reader calls.
use text.Mathlib.Text.{◌==◌}
use Prim.Native.Nat.{bit_or}
use openvela_frameworks_syst.Prelude.{
  ℕ, ◌*◌, Bool, true, false, Option, none, some, String, List, [], ◌∷◌, if◌then◌else◌,
}
use openvela_frameworks_syst.Prelude.{◌==◌ as ◌==ℕ◌}
use openvela_frameworks_syst.Prelude.Int.{ℤ}
use openvela_frameworks_syst.Widget.{
  Image, UpgradeType, num, bar, circle, anim, custom_anim, invalid,
}
use openvela_frameworks_syst.Lvgl.{
  Align, default_align, top_left, top_mid, top_right, left_mid, center, right_mid, bottom_left,
  bottom_mid, bottom_right,
}

-- cJSON, the C library and the file system, as the reader calls them; `none` is a null pointer, for
-- which cJSON answers false, NULL or 0. `number` is cJSON_IsNumber and then valueint, `text` is
-- cJSON_IsString and then valuestring, `item` is cJSON_GetObjectItem and `item_exact` its case-
-- sensitive variant. `children` is what cJSON_GetArraySize counts and cJSON_GetArrayItem and
-- cJSON_ArrayForEach give. `name` is `string` where `has_name` says that it is no null pointer,
-- which it is in the members of an array. `decimal` and `hexadecimal` are strtol and strtoul, for a
-- number that is not negative. `image_file` is the header that lv_upgrade.c gets from an image
-- file, zeros if there is none, and `is_readable` says whether `open` succeeds. `read_file` is
-- read_all_from_file, and `parse` is cJSON_Parse.
pub record Input : Type 1 where
  pub Node : Type 0
  pub number : Option Node → Option ℤ
  pub text : Option Node → Option String
  pub is_array : Option Node → Bool
  pub is_object : Option Node → Bool
  pub name : Node → String
  pub has_name : Node → Bool
  pub item : Option Node → String → Option Node
  pub item_exact : Option Node → String → Option Node
  pub children : Option Node → List Node
  pub decimal : String → ℕ
  pub hexadecimal : String → ℕ
  pub image_file : Option String → Image
  pub is_readable : String → Bool
  pub read_file : String → Option String
  pub parse : String → Option Node

-- The entries of a string_map_t array that are left; a key of `none` is a null pointer.
unfoldable pub string_2_id {ℓ} : {A : Type ℓ} → Option String → List (String × A) → A → A
string_2_id none map default = default
string_2_id (some key) [] default = default
string_2_id (some key) ((k, v) ∷ map) default =
    let rest = string_2_id (some key) map default in if k == key then v else rest

unfoldable pub number_2_align : ℕ → ℕ → Align
number_2_align hor ver =
    let n = bit_or hor (ver * 4) in
    if n ==ℕ 0
    then top_left
    else if n ==ℕ 1
    then top_mid
    else if n ==ℕ 2
    then top_right
    else if n ==ℕ 4
    then left_mid
    else if n ==ℕ 5
    then center
    else if n ==ℕ 6
    then right_mid
    else if n ==ℕ 8
    then bottom_left
    else if n ==ℕ 9
    then bottom_mid
    else if n ==ℕ 10
    then bottom_right
    else default_align

abbrev pub hor_align_map : List (String × ℕ)
hor_align_map = ("left", 0) ∷ ("center", 1) ∷ ("right", 2) ∷ []

abbrev pub ver_align_map : List (String × ℕ)
ver_align_map = ("top", 0) ∷ ("center", 1) ∷ ("bottom", 2) ∷ []

abbrev pub progress_mode_map : List (String × UpgradeType)
progress_mode_map =
    ("number", num)
    ∷ ("bar", bar)
    ∷ ("circle", circle)
    ∷ ("animation", anim)
    ∷ ("custom_anim", custom_anim)
    ∷ []

abbrev pub is_invalid : UpgradeType → Bool
is_invalid invalid = true
is_invalid _ = false

abbrev pub is_custom : UpgradeType → Bool
is_custom custom_anim = true
is_custom _ = false

-- Two or four values, where all are there.
abbrev pub both : {A : Type 0} → Option A → Option A → Option (A × A)
both (some a) (some b) = some (a, b)
both (some a) none = none
both none b = none
