-- ===== src/Avb/Values.antt =====
-- verify/avb_verify.c: the other operations that libavb is given, over the property store (kvdb.h),
-- which is not part of the repository, and over the answers of ioctl and stat. The configuration
-- options of these operations are taken to be set.
pub mod Names
mod Tests
use openvela_frameworks_syst.Prelude.{
  ℕ, zero, suc, ◌+◌, ◌-◌, ◌≤◌, ◌<◌, ◌≡◌, ◌≢◌, ◌⊎◌, inl, inr, refl, ap, sym, ◌∙◌, Bool, true, false,
  not, ◌==◌, arith, Option, none, some, List, [], ◌∷◌, ◌++◌, length, take, drop, replicate, ltb,
  Bool-cases, then_at, else_at, if◌then◌else◌,
}
use openvela_frameworks_syst.Prelude.Int.{ℤ, is_neg}
use openvela_frameworks_syst.Avb.{
  AvbIoResult, ok, error_no_such_partition, error_no_such_value, error_invalid_value_size,
  error_insufficient_space,
}

-- What property_get_buffer answers: the bytes, -E2BIG, or another error.
pub data Stored : Type 0 where
  found : List ℕ → Stored
  too_big missing : Stored

-- property_get_buffer, property_set_buffer and property_get_bool; a name is its bytes.
pub record Properties : Type 1 where
  pub Store : Type 0
  pub get_buffer : Store → List ℕ → ℕ → Stored
  pub set_buffer : List ℕ → List ℕ → Store → ℤ × Store
  pub get_bool : Store → List ℕ → Bool → Bool

-- What a buffer of `size` bytes gets of a value.
abbrev pub fitting : List ℕ → ℕ → Stored
fitting value size = if ltb size (length value) then too_big else found value

-- A write that succeeds changes its own property, and one that fails changes none.
pub record PropertiesLaws (props : Properties) : Type 0 where
  pub get-set :
      (key value : List ℕ) (size : ℕ) (s : props.Store)
      → 1 ≤ length value
      → is_neg (props.set_buffer key value s).0 ≡ false
      → props.get_buffer (props.set_buffer key value s).1 key size ≡ fitting value size
  pub get-set_other :
      (key other value : List ℕ) (size : ℕ) (s : props.Store)
      → other ≢ key
      → props.get_buffer (props.set_buffer key value s).1 other size ≡ props.get_buffer s other size
  pub get-set_failed :
      (key other value : List ℕ) (size : ℕ) (s : props.Store)
      → is_neg (props.set_buffer key value s).0 ≡ true
      → props.get_buffer (props.set_buffer key value s).1 other size ≡ props.get_buffer s other size

-- "persist."
abbrev pub persist : List ℕ
persist = 112 ∷ 101 ∷ 114 ∷ 115 ∷ 105 ∷ 115 ∷ 116 ∷ 46 ∷ []

-- "persist.avb.unlocked"
abbrev pub device_unlocked : List ℕ
device_unlocked =
    persist ++ (97 ∷ 118 ∷ 98 ∷ 46 ∷ 117 ∷ 110 ∷ 108 ∷ 111 ∷ 99 ∷ 107 ∷ 101 ∷ 100 ∷ [])

-- get_preloaded_partition: whether `open` succeeds and what BIOC_XIPBASE gives; the result, and the
-- pointer and the bytes preloaded where they are set. The address 0 is the null pointer.
pub get_preloaded_partition : Bool → Option ℕ → ℕ → AvbIoResult × Option (ℕ × ℕ)
get_preloaded_partition opens xip num_bytes =
    if not opens then (error_no_such_partition, none) else elim xip [
      | none ↦ (ok, some (0, 0))
      | some pointer ↦ (ok, some (pointer, if pointer == 0 then 0 else num_bytes))
    ]

-- get_unique_guid_for_partition: the buffer after it.
pub get_unique_guid_for_partition : List ℕ → ℕ → List ℕ
get_unique_guid_for_partition partition guid_buf_size =
    let piece = take (guid_buf_size - 1) partition in
    piece ++ replicate (guid_buf_size - length piece) 0

-- get_size_of_partition, for the size that `stat` gives.
abbrev pub get_size_of_partition : Option ℕ → AvbIoResult × Option ℕ
get_size_of_partition none = (error_no_such_partition, none)
get_size_of_partition (some st_size) = (ok, some st_size)

-- What read_persistent_value makes of property_get_buffer: the result, `*out_num_bytes_read` where it
-- is set, and the bytes in the buffer. `value_max` is PROP_VALUE_MAX.
abbrev pub read_value : ℕ → Stored → AvbIoResult × Option ℕ × List ℕ
read_value value_max (found bytes) = (ok, some (length bytes), bytes)
read_value value_max too_big = (error_insufficient_space, some value_max, [])
read_value value_max missing = (error_no_such_value, none, [])

module _ (props : Properties) (name_max value_max : ℕ) where
  open props use {Store, get_buffer, set_buffer, get_bool}

  -- read_is_device_unlocked.
  abbrev pub read_is_device_unlocked : Store → AvbIoResult × Bool
  read_is_device_unlocked s = (ok, get_bool s device_unlocked false)

  -- The `snprintf` of both functions into a buffer of PROP_NAME_MAX bytes.
  abbrev pub value_key : List ℕ → List ℕ
  value_key name = take (name_max - 1) (persist ++ name)

  pub read_persistent_value : List ℕ → ℕ → Store → AvbIoResult × Option ℕ × List ℕ
  read_persistent_value name buffer_size s =
      read_value value_max (get_buffer s (value_key name) buffer_size)

  pub write_persistent_value : List ℕ → List ℕ → Store → AvbIoResult × Store
  write_persistent_value name value s =
      let (ret, s') = set_buffer (value_key name) value s in
      (if is_neg ret then error_invalid_value_size else ok, s')
