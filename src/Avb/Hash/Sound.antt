-- ===== src/Avb/Hash/Sound.antt =====
-- What avb_hash_desc of verify/avb_verify.c leaves in its result, and what avb_hash_desc_dump prints.
use mathlib.Core.Option
use openvela_frameworks_syst.Prelude.{
  ℕ, zero, suc, ◌+◌, ◌≤◌, ◌≡◌, ◌≢◌, ◌⊎◌, inl, inr, refl, ap, ◌∙◌, Bool, false, not, arith, Option,
  none, some, List, [], ◌∷◌, ◌++◌, length, length-append, length-take, length-drop, take, drop, ltb,
  Bool-cases, then_at, else_at,
}
use openvela_frameworks_syst.Avb
use openvela_frameworks_syst.Avb.{
  AvbIoResult, ok, error_io, error_no_such_partition, error_range_outside_partition,
  error_no_such_value, error_invalid_value_size, error_insufficient_space, Answer, Device,
  read_from_partition, read_result,
}
use openvela_frameworks_syst.Avb.Partition.{replies, read_from_partition_total}
use openvela_frameworks_syst.Avb.Hash.{
  HashDesc, AvbHashDescriptor, Footer, Tag, hash, other, Libavb, HashResult, io, error_oom,
  error_invalid_metadata, error_invalid_argument, until_nul, strlcpy, with_fields, tag_case,
  first_descriptor, after_read, after_footer, avb_hash_desc, dump_digest, avb_hash_desc_dump,
  to_int64,
}

-- libavb takes a hash descriptor only if its fields lie within the descriptor.
pub record LibavbLaws (libavb : Libavb) : Type 0 where
  pub within :
      (descriptor : List ℕ) (fields : AvbHashDescriptor)
      → libavb.validate_hash descriptor ≡ some fields
      → libavb.header_size + fields.partition_name_len + fields.salt_len + fields.digest_len
        ≤ length descriptor

-- The loop of the dump over an array that is long enough.
dump_digest_lem :
    (n : ℕ) (digest : List ℕ) → n ≤ length digest → dump_digest n digest ≡ some (take n digest)
dump_digest_lem zero digest h = refl
dump_digest_lem (suc n) [] h = absurd (omega arith)
dump_digest_lem (suc n) (x ∷ digest) h =
    ap (Option.map (λ xs. x ∷ xs)) (dump_digest_lem n digest (omega arith))

-- The digest of a hash descriptor.
abbrev pub digest_of : Libavb → List ℕ → AvbHashDescriptor → List ℕ
digest_of libavb descriptor fields =
    take fields.digest_len
      (drop (libavb.header_size + fields.partition_name_len + fields.salt_len) descriptor)

-- What a success leaves in `desc`.
abbrev pub Described : (List ℕ → Type 0) → Libavb → HashDesc → HashDesc → Type 0
Described from libavb desc desc' =
    (vbmeta : List ℕ) × (descriptor : List ℕ) × (descriptors : List (List ℕ))
    × (fields : AvbHashDescriptor) × from vbmeta
    × (libavb.get_all vbmeta ≡ descriptor ∷ descriptors)
    × (libavb.validate_hash descriptor ≡ some fields)
    × (desc'.hash_algorithm ≡ strlcpy desc.hash_algorithm fields.hash_algorithm)
    × (desc'.digest_len ≤ length desc.digest)
    × (length desc'.digest ≡ length desc.digest)
    × (avb_hash_desc_dump desc'
        ≡ some (
          fields.image_size,
          until_nul desc'.hash_algorithm,
          fields.digest_len,
          digest_of libavb descriptor fields,
        ))

abbrev pub Answered :
    (List ℕ → Type 0) → Libavb → HashDesc → Option (HashResult × HashDesc) → Type 0
Answered from libavb desc r =
    (result : HashResult) × (desc' : HashDesc) × (r ≡ some (result, desc'))
    × (((result ≢ io ok) × (desc' ≡ desc)) ⊎ ((result ≡ io ok) × Described from libavb desc desc'))

length-copied :
    (n : ℕ) (xs ys : List ℕ)
    → n ≤ length xs
    → n ≤ length ys
    → length (take n xs ++ drop n ys) ≡ length ys
length-copied n xs ys h k =
    omega (arith, length-append (take n xs) (drop n ys), length-take n xs, length-drop n ys)

take-copied : (n : ℕ) (xs ys : List ℕ) → n ≤ length xs → take n (take n xs ++ ys) ≡ take n xs
take-copied zero xs ys h = refl
take-copied (suc n) [] ys h = absurd (omega arith)
take-copied (suc n) (x ∷ xs) ys h = ap (λ l. x ∷ l) (take-copied n xs ys (omega arith))

with_fields_lem :
    (from : List ℕ → Type 0) (libavb : Libavb) (desc : HashDesc) (vbmeta descriptor : List ℕ)
    (descriptors : List (List ℕ)) (found : Option AvbHashDescriptor)
    → LibavbLaws libavb
    → from vbmeta
    → libavb.get_all vbmeta ≡ descriptor ∷ descriptors
    → libavb.validate_hash descriptor ≡ found
    → Answered from libavb desc (with_fields libavb found descriptor desc)
unfolding avb_hash_desc_dump
with_fields_lem from libavb desc vbmeta descriptor descriptors none laws origin all taken =
    (error_invalid_metadata, desc, refl, inl ((λ e. cc (e)), refl))
with_fields_lem from libavb desc vbmeta descriptor descriptors (some fields) laws origin all taken =
    elim (Bool-cases (ltb (length desc.digest) fields.digest_len)) [
      | inl long ↦ rw long (error_invalid_argument, desc, refl, inl ((λ e. cc (e)), refl))
      | inr fits ↦
          let src =
            drop (libavb.header_size + fields.partition_name_len + fields.salt_len) descriptor in
          let n = fields.digest_len in
          let room : n ≤ length desc.digest = ground (arith, fits) in
          let there : n ≤ length src = omega (
            arith,
            laws.within descriptor fields taken,
            length-drop (libavb.header_size + fields.partition_name_len + fields.salt_len)
                descriptor,
          ) in
          let inside : ltb (length src) n ≡ false = ground (arith, there) in
          let size = length-copied n src desc.digest there room in
          let algorithm = strlcpy desc.hash_algorithm fields.hash_algorithm in
          let after : HashDesc = record {
            image_size = fields.image_size;
            hash_algorithm = algorithm;
            digest_len = n;
            digest = take n src ++ drop n desc.digest;
          } in
          let dumped =
            dump_digest_lem n (take n src ++ drop n desc.digest) (omega (arith, room, size))
            ∙ ap some (take-copied n src (drop n desc.digest) there) in
          (
            io ok,
            after,
            else_at fits _ _ ∙ else_at inside _ _,
            inr (
              refl,
              (
                vbmeta,
                descriptor,
                descriptors,
                fields,
                origin,
                all,
                taken,
                refl,
                room,
                size,
                ap (Option.map (λ (xs : List ℕ). (fields.image_size, until_nul algorithm, n, xs)))
                    dumped,
              ),
            ),
          )
    ]

-- An error of the footer or of the read.
failed_result :
    (libavb : Libavb) (desc : HashDesc) (result : AvbIoResult) (vbmeta : List ℕ)
    → (result ≡ ok)
      ⊎ ((io result ≢ io ok)
          × (after_read libavb (some (result, vbmeta)) desc ≡ some (io result, desc))
          × ((footer : Footer) (allocated : Bool) (device : Device) (answers : List Answer)
              → after_footer libavb (result, footer) allocated device answers desc
                ≡ some (io result, desc)))
failed_result libavb desc ok vbmeta = inl refl
failed_result libavb desc Avb.error_oom vbmeta = inr ((λ e. cc (e)), refl, λ f a d l. refl)
failed_result libavb desc error_io vbmeta = inr ((λ e. cc (e)), refl, λ f a d l. refl)
failed_result libavb desc error_no_such_partition vbmeta =
    inr ((λ e. cc (e)), refl, λ f a d l. refl)
failed_result libavb desc error_range_outside_partition vbmeta =
    inr ((λ e. cc (e)), refl, λ f a d l. refl)
failed_result libavb desc error_no_such_value vbmeta = inr ((λ e. cc (e)), refl, λ f a d l. refl)
failed_result libavb desc error_invalid_value_size vbmeta =
    inr ((λ e. cc (e)), refl, λ f a d l. refl)
failed_result libavb desc error_insufficient_space vbmeta =
    inr ((λ e. cc (e)), refl, λ f a d l. refl)

tag_case_lem :
    (from : List ℕ → Type 0) (libavb : Libavb) (desc : HashDesc) (vbmeta descriptor : List ℕ)
    (descriptors : List (List ℕ)) (tag : Option Tag)
    → LibavbLaws libavb
    → from vbmeta
    → libavb.get_all vbmeta ≡ descriptor ∷ descriptors
    → Answered from libavb desc (tag_case libavb tag descriptor desc)
tag_case_lem from libavb desc vbmeta descriptor descriptors (some hash) laws origin all =
    with_fields_lem from libavb desc vbmeta descriptor descriptors (libavb.validate_hash descriptor)
      laws origin all refl
tag_case_lem from libavb desc vbmeta descriptor descriptors (some other) laws origin all =
    (error_invalid_metadata, desc, refl, inl ((λ e. cc (e)), refl))
tag_case_lem from libavb desc vbmeta descriptor descriptors none laws origin all =
    (error_invalid_metadata, desc, refl, inl ((λ e. cc (e)), refl))

-- The read of a descriptor where there is none, or an outcome.
abbrev pub Finished :
    (List ℕ → Type 0) → Libavb → HashDesc → Option (HashResult × HashDesc) → Type 0
Finished from libavb desc r =
    ((r ≡ none) × (vbmeta : List ℕ) × from vbmeta × (libavb.get_all vbmeta ≡ []))
    ⊎ Answered from libavb desc r

-- An equal result has the same ending.
same_finish :
    (from : List ℕ → Type 0) (libavb : Libavb) (desc : HashDesc)
    {r r' : Option (HashResult × HashDesc)}
    → r ≡ r'
    → Finished from libavb desc r'
    → Finished from libavb desc r
same_finish from libavb desc e (inl (crash, vbmeta, origin, empty)) =
    inl (e ∙ crash, vbmeta, origin, empty)
same_finish from libavb desc e (inr (result, desc', runs, kind)) =
    inr (result, desc', e ∙ runs, kind)

first_descriptor_lem :
    (from : List ℕ → Type 0) (libavb : Libavb) (desc : HashDesc) (vbmeta : List ℕ)
    (descriptors : List (List ℕ))
    → LibavbLaws libavb
    → from vbmeta
    → libavb.get_all vbmeta ≡ descriptors
    → Finished from libavb desc (first_descriptor libavb descriptors desc)
first_descriptor_lem from libavb desc vbmeta [] laws origin all = inl (refl, vbmeta, origin, all)
first_descriptor_lem from libavb desc vbmeta (descriptor ∷ descriptors) laws origin all = inr (
    tag_case_lem from libavb desc vbmeta descriptor descriptors (libavb.validate descriptor) laws
      origin all)

after_read_lem :
    (from : List ℕ → Type 0) (libavb : Libavb) (desc : HashDesc) (result : AvbIoResult)
    (vbmeta : List ℕ)
    → LibavbLaws libavb
    → (result ≡ ok → from vbmeta)
    → Finished from libavb desc (after_read libavb (some (result, vbmeta)) desc)
after_read_lem from libavb desc result vbmeta laws origin =
    elim (failed_result libavb desc result vbmeta) [
      | inr (bad, runs, stops) ↦ inr (io result, desc, runs, inl (bad, refl))
      | inl good ↦
          same_finish from libavb desc (ap (λ c. after_read libavb (some (c, vbmeta)) desc) good) (
            first_descriptor_lem from libavb desc vbmeta (libavb.get_all vbmeta) laws (origin good)
              refl)
    ]

-- The vbmeta that was read.
abbrev pub WasRead : Footer → Device → List Answer → List ℕ → Type 0
WasRead footer device answers vbmeta =
    read_from_partition device answers (to_int64 footer.vbmeta_offset) footer.vbmeta_size
    ≡ some (ok, vbmeta)

after_footer_lem :
    (libavb : Libavb) (desc : HashDesc) (result : AvbIoResult) (footer : Footer) (allocated : Bool)
    (device : Device) (answers : List Answer)
    → LibavbLaws libavb
    → footer.vbmeta_size ≤ replies answers
    → Finished
        (WasRead footer device answers)
        libavb
        desc
        (after_footer libavb (result, footer) allocated device answers desc)
after_footer_lem libavb desc result footer allocated device answers laws enough =
    elim (failed_result libavb desc result []) [
      | inr (bad, runs, stops) ↦
          inr (io result, desc, stops footer allocated device answers, inl (bad, refl))
      | inl good ↦
          let first =
            ap (λ c. after_footer libavb (c, footer) allocated device answers desc) good in
          elim (Bool-cases allocated) [
            | inr full ↦
                inr (error_oom, desc, first ∙ then_at (ap not full) _ _, inl ((λ e. cc (e)), refl))
            | inl room ↦
                let ((code, vbmeta), runs) =
                  read_from_partition_total device answers (to_int64 footer.vbmeta_offset)
                    footer.vbmeta_size enough in
                same_finish (WasRead footer device answers) libavb desc
                  (first ∙ else_at (ap not room) _ _ ∙ ap (λ r. after_read libavb r desc) runs)
                  (after_read_lem (WasRead footer device answers) libavb desc code vbmeta laws
                    (λ fine. runs ∙ ap (λ c. some (c, vbmeta)) fine))
          ]
    ]

-- For a libavb that takes a hash descriptor only if its fields lie within it, and enough answers to
-- `read` that are no interruption: on whatever device and with whatever footer, avb_hash_desc has
-- read a vbmeta without a descriptor and takes its first one, which is a crash; or it fails and
-- leaves `desc` as it was; or it gives `ok`. Then the length of the digest is at most that of the
-- array, and avb_hash_desc_dump reads nothing behind the array and prints the size of the image,
-- the name of the algorithm as strlcpy has copied it, and exactly the digest of the first
-- descriptor of the vbmeta that was read.
pub avb_hash_desc_lem :
    (libavb : Libavb) (allocated : Bool) (device : Device) (answers : List Answer) (desc : HashDesc)
    → LibavbLaws libavb
    → libavb.footer.1.vbmeta_size ≤ replies answers
    → let run = avb_hash_desc libavb allocated device answers desc in
      ((run ≡ none)
        × (vbmeta : List ℕ) × WasRead libavb.footer.1 device answers vbmeta
        × (libavb.get_all vbmeta ≡ []))
      ⊎ ((result : HashResult) × (desc' : HashDesc) × (run ≡ some (result, desc'))
          × (((result ≢ io ok) × (desc' ≡ desc))
              ⊎ ((result ≡ io ok)
                  × Described (WasRead libavb.footer.1 device answers) libavb desc desc')))
unfolding avb_hash_desc
avb_hash_desc_lem libavb allocated device answers desc laws enough =
    after_footer_lem libavb desc libavb.footer.0 libavb.footer.1 allocated device answers laws
      enough
