-- ===== src/Avb/Key.antt =====
-- validate_public_key_for_partition of verify/avb_verify.c: which keys are trusted.
use mathlib.Core.Option
use openvela_frameworks_syst.Prelude.{
  ℕ, zero, suc, ◌-◌, ◌≤◌, ◌≡◌, ap, sym, ◌∙◌, Bool, true, arith, Option, some, List, [], ◌∷◌, ◌++◌,
  take, length, replicate,
}
use openvela_frameworks_syst.Prelude.Int.{pos}
use openvela_frameworks_syst.Avb.{
  AvbIoResult, ok, error_oom, error_io, error_no_such_partition, error_range_outside_partition,
  error_no_such_value, error_invalid_value_size, error_insufficient_space, Answer, Device,
  key_result, padded, validate_public_key,
}
use openvela_frameworks_syst.Avb.Partition.{replies, read_from_partition_lem}

padded_lem :
    (n : ℕ) (buffer : List ℕ)
    → length buffer ≤ n
    → padded n buffer ≡ buffer ++ replicate (n - length buffer) 0
padded_lem n [] h = let whole : n - 0 ≡ n = omega arith in rw whole
padded_lem zero (x ∷ xs) h = absurd (omega arith)
padded_lem (suc n) (x ∷ xs) h =
    let less : suc n - suc (length xs) ≡ n - length xs = omega arith in
    rw less (ap (λ l. x ∷ l) (padded_lem n xs (omega arith)))

-- A key that is trusted: a front of the file, and zeros.
abbrev FrontOf : List ℕ → List ℕ → Type 0
FrontOf bytes key_data =
    (n : ℕ) × (n ≤ length key_data) × (key_data ≡ take n bytes ++ replicate (length key_data - n) 0)

key_result-FrontOf :
    (same : List ℕ → List ℕ → Bool) (result : AvbIoResult) (buffer bytes key_data : List ℕ)
    → ((a b : List ℕ) → same a b ≡ true → a ≡ b)
    → buffer ≡ take (length buffer) bytes
    → length buffer ≤ length key_data
    → (key_result same key_data (result, buffer)).1 ≡ some true
    → FrontOf bytes key_data
key_result-FrontOf same ok buffer bytes key_data exact front fits e =
    let trusted : same (padded (length key_data) buffer) key_data ≡ true = cc in
    let key : padded (length key_data) buffer ≡ key_data = exact _ _ trusted in
    (
      length buffer,
      fits,
      sym key
          ∙ padded_lem (length key_data) buffer fits
          ∙ ap (λ l. l ++ replicate (length key_data - length buffer) 0) front,
    )
key_result-FrontOf same error_oom buffer bytes key_data exact front fits e = absurd (cc)
key_result-FrontOf same error_io buffer bytes key_data exact front fits e = absurd (cc)
key_result-FrontOf same error_no_such_partition buffer bytes key_data exact front fits e =
    absurd (cc)
key_result-FrontOf same error_range_outside_partition buffer bytes key_data exact front fits e =
    absurd (cc)
key_result-FrontOf same error_no_such_value buffer bytes key_data exact front fits e = absurd (cc)
key_result-FrontOf same error_invalid_value_size buffer bytes key_data exact front fits e =
    absurd (cc)
key_result-FrontOf same error_insufficient_space buffer bytes key_data exact front fits e =
    absurd (cc)

-- For a memcmp that finds two buffers the same only if they are, a key file that opens, and enough
-- answers to `read` that are no interruption: the check ends. When it trusts a key, the key is a
-- front of the key file followed by zeros: a key file that is shorter than the key is filled up
-- with zeros.
pub validate_public_key_lem :
    (same : List ℕ → List ℕ → Bool) (device : Device) (answers : List Answer) (key_data : List ℕ)
    → ((a b : List ℕ) → same a b ≡ true → a ≡ b)
    → device.opens ≡ true
    → device.seek (pos 0) ≡ some 0
    → length key_data ≤ replies answers
    → (result : AvbIoResult) × (trusted : Option Bool) × (validate_public_key true same device
          answers key_data
        ≡ some (result, trusted))
      × (trusted ≡ some true
          → (n : ℕ) × (n ≤ length key_data)
            × (key_data ≡ take n device.bytes ++ replicate (length key_data - n) 0))
unfolding validate_public_key
validate_public_key_lem same device answers key_data exact opens start enough =
    let (result, buffer, runs, front, fits, kind) =
      read_from_partition_lem device answers (pos 0) 0 (length key_data) opens start enough in
    let r = key_result same key_data (result, buffer) in
    (
      r.0,
      r.1,
      ap (Option.map (key_result same key_data)) runs,
      key_result-FrontOf same result buffer device.bytes key_data exact front fits,
    )
