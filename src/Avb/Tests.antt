-- ===== src/Avb/Tests.antt =====
-- The theorems on avb_verify at a small partition and a store of two rollback indexes.
use openvela_frameworks_syst.Prelude.{
  ap, ℕ, zero, suc, ◌+◌, ◌-◌, ◌≤◌, ◌≡◌, ◌≢◌, ◌⊎◌, inr, refl, Bool, true, false, arith, Option, some,
  none, String, List, [], ◌∷◌, ◌++◌, take, drop, length, replicate, get_elem?, if◌then◌else◌, ◌==◌,
}
use openvela_frameworks_syst.Prelude.Int.{ℤ, pos, negsuc}
use openvela_frameworks_syst.Avb.Command.{info, Flags, no_flags, main}
use openvela_frameworks_syst.Avb.{
  AvbIoResult, ok, error_io, Answer, moved, interrupted, failed, Device, read_from_partition,
  write_loop, write_to_partition, validate_public_key,
}
use openvela_frameworks_syst.Avb.Partition.{read_from_partition_lem, write_to_partition_lem}
use openvela_frameworks_syst.Avb.Key.{validate_public_key_lem}
use openvela_frameworks_syst.Avb.Rollback.{Props, PropsLaws, avb_verify, avb_verify_lem}

abbrev seek_any : ℤ → Option ℕ
seek_any (pos n) = some n
seek_any (negsuc n) = none

abbrev partition : Device
partition = record { opens = true; seek = seek_any; bytes = 1 ∷ 2 ∷ 3 ∷ 4 ∷ 5 ∷ [] }

abbrev answers : List Answer
answers = moved 1 ∷ interrupted ∷ moved 2 ∷ moved 0 ∷ failed ∷ []

abbrev three : ℕ
three = 3

read_from_partition_lem_example :
    (result : AvbIoResult) × (buffer : List ℕ) × (read_from_partition partition answers (pos 1) 3
      ≡ some (result, buffer))
    × (buffer ≡ take (length buffer) (drop 1 partition.bytes))
    × (length buffer ≤ 3)
    × ((result ≡ error_io) ⊎ ((result ≡ ok) × ((three ≡ 0) ⊎ (1 ≤ length buffer))))
read_from_partition_lem_example =
    read_from_partition_lem partition answers (pos 1) 1 3 refl refl (omega arith)

-- From behind the end of the partition.
write_to_partition_lem_example :
    (result : AvbIoResult) × (after : Device) × (n : ℕ) × (write_to_partition partition answers
        (pos 8)
        (7 ∷ 8 ∷ [])
      ≡ some (result, after))
    × (after.bytes
        ≡ take 8 partition.bytes
          ++ (replicate (if n == 0 then 0 else 8 - length partition.bytes) 0
              ++ (take n (7 ∷ 8 ∷ []) ++ drop (8 + n) partition.bytes)))
    × (n ≤ 2)
    × (result ≡ ok → n ≡ 2)
write_to_partition_lem_example =
    write_to_partition_lem partition answers (pos 8) 8 (7 ∷ 8 ∷ []) refl refl (omega arith)

written_past :
    write_to_partition partition answers (pos 8) (7 ∷ [])
    ≡ some (ok, record partition { bytes = 1 ∷ 2 ∷ 3 ∷ 4 ∷ 5 ∷ 0 ∷ 0 ∷ 0 ∷ 7 ∷ [] })
unfolding write_to_partition write_loop
written_past = refl

abbrev same : List ℕ → List ℕ → Bool
same [] [] = true
same [] (y ∷ ys) = false
same (x ∷ xs) [] = false
same (x ∷ xs) (y ∷ ys) = let rest = same xs ys in if x == y then rest else false

same-exact : (a b : List ℕ) → same a b ≡ true → a ≡ b
same-exact [] [] e = refl
same-exact [] (y ∷ ys) e = absurd (cc)
same-exact (x ∷ xs) [] e = absurd (cc)
same-exact (x ∷ xs) (y ∷ ys) e =
    let heads : x ≡ y = ground (arith, e) in
    let tails : same xs ys ≡ true = ground (arith, e) in
    rw heads (ap (λ l. y ∷ l) (same-exact xs ys tails))

validate_public_key_lem_example :
    (result : AvbIoResult) × (trusted : Option Bool) × (validate_public_key true same partition
        answers
        (1 ∷ 2 ∷ 3 ∷ [])
      ≡ some (result, trusted))
    × (trusted ≡ some true
        → (n : ℕ) × (n ≤ 3) × ((1 ∷ 2 ∷ 3 ∷ []) ≡ take n partition.bytes ++ replicate (3 - n) 0))
validate_public_key_lem_example =
    validate_public_key_lem same partition answers (1 ∷ 2 ∷ 3 ∷ []) same-exact refl refl
      (omega arith)

abbrev memory : Props
memory = record {
  Store = ℕ → ℕ;
  get_int64 = λ s n. s n;
  set_int64 = λ n v s. (pos 0, λ j. if j == n then v else s j);
}

memory-laws : PropsLaws memory
memory-laws = record {
  get-set = λ n v s fine. ground arith;
  get-set_other = λ n j v s other. ground (arith, other);
  get-set_failed = λ n j v s bad. absurd (cc);
}

abbrev stored : ℕ → ℕ
stored n = if n == 0 then 4 else 0

rising : (i v : ℕ) → get_elem? (4 ∷ 2 ∷ []) i ≡ some v → v ≢ 0 → stored i ≤ v
rising zero v e used = let four : 4 ≡ v = cc in omega (arith, four)
rising (suc i) v e used = ground arith

avb_verify_lem_example :
    ((j : ℕ) → stored j ≤ (avb_verify memory (pos 0) (some (4 ∷ 2 ∷ [])) true stored).1 j)
    × ((avb_verify memory (pos 0) (some (4 ∷ 2 ∷ [])) true stored).0 ≡ inr ok
        → (i v : ℕ) → get_elem? (4 ∷ 2 ∷ []) i ≡ some v
        → v ≢ 0
        → (avb_verify memory (pos 0) (some (4 ∷ 2 ∷ [])) true stored).1 i ≡ v)
avb_verify_lem_example = avb_verify_lem memory memory-laws (4 ∷ 2 ∷ []) stored rising

abbrev answer : Option String → Option String → Option String → Flags → ℤ
answer image key suffix flags = if flags.not_update_rollback_index then pos 0 else pos 3

abbrev argv : List String
argv = "avb_verify" ∷ "-c" ∷ "image" ∷ "key" ∷ []

-- The form of -I that the usage gives, with one operand, ends with the usage.
info_refused :
    main answer (λ image. pos 0) ((info, 2) ∷ []) 2 ("avb_verify" ∷ "-I" ∷ "image" ∷ []) no_flags
    ≡ pos 100
unfolding main
info_refused = refl
