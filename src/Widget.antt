-- ===== src/Widget.antt =====
-- ui/extra/lv_upgrade.c: the progress widget, without its drawing.
pub mod Digits
pub mod Closest
pub mod Size
pub mod Slots
pub mod Draw
pub mod Rate
pub mod Free
pub mod Files
pub mod Tests
use openvela_frameworks_syst.Prelude.{
  ℕ, zero, suc, ◌+◌, ◌-◌, ◌*◌, ◌/◌, ◌^◌, ◌%◌, Bool, true, false, ◌&&◌, ◌||◌, not, leb, ltb, ◌==◌,
  Option, none, some, List, [], ◌∷◌, length, get_elem?, set, replicate, if◌then◌else◌,
}
use openvela_frameworks_syst.Prelude.Int.{ℤ, pos, negsuc, is_neg}
use openvela_frameworks_syst.Prelude.Bytes.{u32}

-- lv_upgrade_type_e, in its order.
pub data UpgradeType : Type 0 where
  num bar circle anim custom_anim invalid : UpgradeType

-- What the widget reads of an image: the width and the height of its header.
pub record Image : Type 0 where
  pub w : ℕ
  pub h : ℕ

-- image_data_t; the key is a number of at least 0.
pub record ImageData : Type 0 where
  pub key : ℕ
  pub image : Image

-- lv_upgrade_t without what LVGL keeps in it. `arc_radius` is a union with anim_fps, so that the
-- field is both. `image_array` is the allocated array with its null pointers; `progress` has three
-- entries, and `value` is an int8_t.
pub record Upgrade : Type 0 where
  pub type : UpgradeType
  pub image_percent_sign : Option Image
  pub image_array_size : ℕ
  pub image_array : List (Option ImageData)
  pub progress : List ℤ
  pub value : ℤ
  pub arc_radius : ℕ

-- lv_upgrade_set_type, where the arc is built in: LV_DEFAULT_CUSTOM_ANIM_WIDTH is 80.
pub set_type : UpgradeType → Upgrade → Upgrade
set_type custom_anim u = record u { type = custom_anim; arc_radius = 80 }
set_type type u = record u { type = type }

-- An int stored in a uint16_t.
abbrev pub to_uint16 : ℤ → ℕ
to_uint16 (pos n) = n % 65536
to_uint16 (negsuc n) = 65535 - n % 65536

-- The other member of the union.
abbrev pub anim_fps : Upgrade → ℕ
anim_fps u = u.arc_radius

unfoldable pub set_animation_fps : ℤ → Upgrade → Upgrade
set_animation_fps fps u = record u { arc_radius = to_uint16 fps }

-- lv_upgrade_set_animation_radius, where the arc is built in.
unfoldable pub set_animation_radius : ℤ → Upgrade → Upgrade
set_animation_radius radius u = record u { arc_radius = to_uint16 radius }

-- lv_upgrade_set_percent_sign_image, with the image that the file gives.
unfoldable pub set_percent_sign_image : Image → Upgrade → Upgrade
set_percent_sign_image image u = record u { image_percent_sign = some image }

-- lv_upgrade_constructor, which sets anim_fps to LV_DEFAULT_ANIM_FPS, on an object that LVGL has
-- set to zeros but for its type.
pub constructed : UpgradeType → Upgrade
constructed type = record {
  type = type;
  image_percent_sign = none;
  image_array_size = 0;
  image_array = [];
  progress = negsuc 0 ∷ negsuc 0 ∷ negsuc 0 ∷ [];
  value = negsuc 0;
  arc_radius = 30;
}

-- lv_upgrade_set_image_array_size, for a size that is not negative: the field is a uint8_t, the array
-- has the whole size.
pub set_image_array_size : ℕ → Upgrade → Upgrade
set_image_array_size size u =
    if ltb 0 u.image_array_size || size == 0
    then u
    else record u { image_array_size = size % 256; image_array = replicate size none }

-- The index of the first null pointer below the size, or the size.
pub first_null : ℕ → List (Option ImageData) → ℕ
first_null zero xs = 0
first_null (suc n) [] = 0
first_null (suc n) (none ∷ xs) = 0
first_null (suc n) (some x ∷ xs) = suc (first_null n xs)

abbrev pub is_num : UpgradeType → Bool
is_num num = true
is_num _ = false

-- lv_upgrade_set_image_data, with the image that the file gives.
pub set_image_data : ℕ → Image → Upgrade → Upgrade
set_image_data key image u =
    let i = if is_num u.type then key else first_null u.image_array_size u.image_array in
    if leb u.image_array_size i
    then u
    else record u { image_array = set u.image_array i (some (record { key = key; image = image })) }

-- A digit of a C `int`: the remainder has the sign of the number.
abbrev pub signed : Bool → ℕ → ℤ
signed false d = pos d
signed true zero = pos 0
signed true (suc d) = negsuc d

-- The loop of lv_upgrade_set_progress over the entries left, for a number of that sign and size.
pub fill_digits : Bool → ℕ → ℕ → List ℤ
fill_digits negative zero m = []
fill_digits negative (suc n) m =
    let rest = fill_digits negative n (m / 10) in
    signed negative (m % 10) ∷ (if m / 10 == 0 then replicate n (negsuc 0) else rest)

-- `tmp_value = value;` stores a uint32_t in an `int`.
pub digits : ℕ → List ℤ
unfolding fill_digits
digits value =
    if ltb value (2 ^ 31) then fill_digits false 3 value else fill_digits true 3 (2 ^ 32 - value)

-- A value stored in an int8_t.
abbrev pub to_int8 : ℕ → ℤ
to_int8 n = if ltb (n % 256) 128 then pos (n % 256) else negsuc (255 - n % 256)

-- The loop of lv_upgrade_get_value from an entry on; no entry is above 9, so nothing wraps.
pub sum_digits : List ℤ → ℕ → ℕ
sum_digits [] inc_value = 0
sum_digits (negsuc d ∷ ds) inc_value = 0
sum_digits (pos d ∷ ds) inc_value = d * inc_value + sum_digits ds (inc_value * 10)

pub get_value : Upgrade → ℕ
unfolding sum_digits
get_value u = sum_digits u.progress 1

abbrev pub same_value : ℤ → ℕ → Bool
same_value (pos n) value = n == value
same_value (negsuc n) value = false

-- The part of lv_upgrade_set_progress that keeps the value.
unfoldable pub store_progress : ℕ → Upgrade → Upgrade
store_progress value u =
    if same_value u.value value
    then u
    else record u { progress = digits value; value = to_int8 value }
