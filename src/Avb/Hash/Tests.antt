-- ===== src/Avb/Hash/Tests.antt =====
-- The theorem on avb_hash_desc at a partition whose vbmeta is one hash descriptor.
use mathlib.Core.Path.{subst}
use openvela_frameworks_syst.Prelude.{
  ℕ, ◌+◌, ◌≤◌, ◌≡◌, ◌≢◌, ◌⊎◌, sym, ◌∙◌, else_at, true, arith, Option, none, some, List, [], ◌∷◌,
  length, replicate, ltb, Bool-cases, inl, inr, if◌then◌else◌,
}
use openvela_frameworks_syst.Prelude.Int.{ℤ, pos, negsuc}
use openvela_frameworks_syst.Avb.{ok, Answer, moved, interrupted, Device}
use openvela_frameworks_syst.Avb.Hash.{
  HashDesc, AvbHashDescriptor, hash, Libavb, HashResult, io, avb_hash_desc,
}
use openvela_frameworks_syst.Avb.Hash.Sound.{LibavbLaws, WasRead, Described, avb_hash_desc_lem}

-- A descriptor of one byte of header, two of name, none of salt and two of digest.
abbrev fields : AvbHashDescriptor
fields = record {
  image_size = 9;
  hash_algorithm = 115 ∷ 0 ∷ [];
  partition_name_len = 2;
  salt_len = 0;
  digest_len = 2;
}

abbrev small_libavb : Libavb
small_libavb = record {
  footer = (ok, record { vbmeta_offset = 1; vbmeta_size = 5 });
  get_all = λ vbmeta. vbmeta ∷ [];
  validate = λ descriptor. some hash;
  validate_hash = λ descriptor. if ltb (length descriptor) 5 then none else some fields;
  header_size = 1;
}

small_libavb-laws : LibavbLaws small_libavb
small_libavb-laws = record {
  within = λ descriptor found e. elim (Bool-cases (ltb (length descriptor) 5)) [
    | inl short ↦ absurd (cc)
    | inr long ↦
        let given : some fields ≡ some found = sym (else_at long none (some fields)) ∙ e in
        let exact : fields ≡ found = cc (given) in
        subst
          (λ (f : AvbHashDescriptor).
            1 + f.partition_name_len + f.salt_len + f.digest_len ≤ length descriptor)
          exact (ground (arith, long))
  ];
}

abbrev seek_any : ℤ → Option ℕ
seek_any (pos n) = some n
seek_any (negsuc n) = none

abbrev image : Device
image = record { opens = true; seek = seek_any; bytes = 0 ∷ 1 ∷ 2 ∷ 3 ∷ 4 ∷ 5 ∷ [] }

abbrev pieces : List Answer
pieces = moved 2 ∷ interrupted ∷ moved 3 ∷ moved 0 ∷ moved 0 ∷ moved 0 ∷ []

abbrev blank : HashDesc
blank = record {
  image_size = 0;
  hash_algorithm = replicate 32 0;
  digest_len = 0;
  digest = replicate 64 0;
}

avb_hash_desc_lem_example :
    let run = avb_hash_desc small_libavb true image pieces blank in
    ((run ≡ none)
      × (vbmeta : List ℕ) × WasRead small_libavb.footer.1 image pieces vbmeta
      × (small_libavb.get_all vbmeta ≡ []))
    ⊎ ((result : HashResult) × (desc' : HashDesc) × (run ≡ some (result, desc'))
        × (((result ≢ io ok) × (desc' ≡ blank))
            ⊎ ((result ≡ io ok)
                × Described (WasRead small_libavb.footer.1 image pieces) small_libavb blank desc')))
avb_hash_desc_lem_example =
    avb_hash_desc_lem small_libavb true image pieces blank small_libavb-laws (omega arith)
