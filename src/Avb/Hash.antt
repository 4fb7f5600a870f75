-- ===== src/Avb/Hash.antt =====
-- avb_hash_desc and avb_hash_desc_dump of verify/avb_verify.c. libavb is not part of the
-- repository: its functions are the parameter `libavb`. The header of vbmeta, which avb_hash_desc
-- converts and does not use, is left out.
pub mod Sound
mod Tests
use mathlib.Core.Option
use openvela_frameworks_syst.Prelude.{
  ℕ, zero, suc, ◌+◌, ◌-◌, ◌^◌, ◌≤◌, ◌<◌, ◌≡◌, ◌≢◌, ◌⊎◌, inl, inr, refl, ap, sym, ◌∙◌, Bool, true,
  false, not, arith, Option, none, some, List, [], ◌∷◌, ◌++◌, length, take, drop, ltb, ◌==◌,
  Bool-cases, then_at, else_at, if◌then◌else◌,
}
use openvela_frameworks_syst.Prelude.Int.{ℤ, pos, negsuc}
use openvela_frameworks_syst.Avb.{AvbIoResult, ok, Answer, Device, read_from_partition}

-- struct avb_hash_desc_t; `hash_algorithm` has 32 bytes and `digest` 64.
pub record HashDesc : Type 0 where
  pub image_size : ℕ
  pub hash_algorithm : List ℕ
  pub digest_len : ℕ
  pub digest : List ℕ

-- The fields of an AvbHashDescriptor that the code reads, in host byte order.
pub record AvbHashDescriptor : Type 0 where
  pub image_size : ℕ
  pub hash_algorithm : List ℕ
  pub partition_name_len : ℕ
  pub salt_len : ℕ
  pub digest_len : ℕ

-- The fields of an AvbFooter that the code reads.
pub record Footer : Type 0 where
  pub vbmeta_offset : ℕ
  pub vbmeta_size : ℕ

-- Whether a descriptor's tag is AVB_DESCRIPTOR_TAG_HASH.
pub data Tag : Type 0 where
  hash other : Tag

-- avb_footer on the partition, avb_descriptor_get_all, avb_descriptor_validate_and_byteswap,
-- avb_hash_descriptor_validate_and_byteswap and sizeof(AvbHashDescriptor). A descriptor is the
-- bytes of the buffer from its start on; a null pointer for the descriptors is the empty list.
pub record Libavb : Type 0 where
  pub footer : AvbIoResult × Footer
  pub get_all : List ℕ → List (List ℕ)
  pub validate : List ℕ → Option Tag
  pub validate_hash : List ℕ → Option AvbHashDescriptor
  pub header_size : ℕ

-- The codes that the function returns: those of AvbIOResult, and of AvbSlotVerifyResult.
pub data HashResult : Type 0 where
  io : AvbIoResult → HashResult
  error_oom error_invalid_metadata error_invalid_argument : HashResult

-- A uint64_t taken for an int64_t.
abbrev pub to_int64 : ℕ → ℤ
to_int64 n = if ltb n (2 ^ 63) then pos n else negsuc (2 ^ 64 - 1 - n)

abbrev pub until_nul : List ℕ → List ℕ
until_nul [] = []
until_nul (zero ∷ cs) = []
until_nul (suc c ∷ cs) = suc c ∷ until_nul cs

-- strlcpy over the bytes that the destination held.
abbrev pub strlcpy : List ℕ → List ℕ → List ℕ
strlcpy old src =
    let piece = take (length old - 1) (until_nul src) in
    piece ++ (0 ∷ drop (suc (length piece)) old)

module _ (libavb : Libavb) where
  -- The case AVB_DESCRIPTOR_TAG_HASH behind the validation; `none` is a read behind the end of the
  -- buffer.
  abbrev pub with_fields :
      Option AvbHashDescriptor → List ℕ → HashDesc → Option (HashResult × HashDesc)
  with_fields none descriptor desc = some (error_invalid_metadata, desc)
  with_fields (some fields) descriptor desc =
      let desc_digest =
        drop (libavb.header_size + fields.partition_name_len + fields.salt_len) descriptor in
      if ltb (length desc.digest) fields.digest_len
      then some (error_invalid_argument, desc)
      else if ltb (length desc_digest) fields.digest_len
      then none
      else some (
        io ok,
        record {
          image_size = fields.image_size;
          hash_algorithm = strlcpy desc.hash_algorithm fields.hash_algorithm;
          digest_len = fields.digest_len;
          digest = take fields.digest_len desc_digest ++ drop fields.digest_len desc.digest;
        },
      )

  -- The switch.
  abbrev pub tag_case : Option Tag → List ℕ → HashDesc → Option (HashResult × HashDesc)
  tag_case (some hash) descriptor desc =
      with_fields (libavb.validate_hash descriptor) descriptor desc
  tag_case (some other) descriptor desc = some (error_invalid_metadata, desc)
  tag_case none descriptor desc = some (error_invalid_metadata, desc)

  -- What follows avb_descriptor_get_all; `none` is the read of `descriptors[0]` where there is none.
  abbrev pub first_descriptor : List (List ℕ) → HashDesc → Option (HashResult × HashDesc)
  first_descriptor [] desc = none
  first_descriptor (descriptor ∷ descriptors) desc =
      tag_case (libavb.validate descriptor) descriptor desc

  -- What follows the read of vbmeta.
  abbrev pub after_read : Option (AvbIoResult × List ℕ) → HashDesc → Option (HashResult × HashDesc)
  after_read none desc = none
  after_read (some (ok, vbmeta_buf)) desc = first_descriptor (libavb.get_all vbmeta_buf) desc
  after_read (some (result, vbmeta_buf)) desc = some (io result, desc)

  -- What follows avb_footer: `allocated` for avb_malloc.
  abbrev pub after_footer :
      AvbIoResult × Footer → Bool → Device → List Answer → HashDesc → Option (HashResult × HashDesc)
  after_footer (ok, footer) allocated device answers desc =
      if not allocated
      then some (error_oom, desc)
      else after_read
          (read_from_partition device answers (to_int64 footer.vbmeta_offset) footer.vbmeta_size)
          desc
  after_footer (result, footer) allocated device answers desc = some (io result, desc)

  -- avb_hash_desc: the result, and `*desc` after it.
  pub avb_hash_desc : Bool → Device → List Answer → HashDesc → Option (HashResult × HashDesc)
  avb_hash_desc allocated device answers desc =
      after_footer libavb.footer allocated device answers desc

-- The loop of avb_hash_desc_dump; `none` is a read behind the array.
abbrev pub dump_digest : ℕ → List ℕ → Option (List ℕ)
dump_digest zero digest = some []
dump_digest (suc n) [] = none
dump_digest (suc n) (x ∷ digest) = Option.map (λ xs. x ∷ xs) (dump_digest n digest)

-- avb_hash_desc_dump: what it prints, in its order.
pub avb_hash_desc_dump : HashDesc → Option (ℕ × List ℕ × ℕ × List ℕ)
avb_hash_desc_dump desc =
    Option.map (λ xs. (desc.image_size, until_nul desc.hash_algorithm, desc.digest_len, xs))
      (dump_digest desc.digest_len desc.digest)
