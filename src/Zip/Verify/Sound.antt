-- ===== src/Zip/Verify/Sound.antt =====
-- What a zero return of verify/zip_verify.c means, and when it means nothing.
use openvela_frameworks_syst.Prelude.{
  ℕ, ◌^◌, ◌<◌, ◌≡◌, ◌≢◌, ◌⊎◌, refl, inl, inr, Option-cases, true, Option, none, some, List, [],
  arith, length, take, if◌then◌else◌,
}
use openvela_frameworks_syst.Prelude.Int.{ℤ, pos, negsuc}
use openvela_frameworks_syst.Prelude.Bytes.{u32}
use openvela_frameworks_syst.Zip.{DataBlock, contents, SignatureBlock}
use openvela_frameworks_syst.Zip.Archive.{AppBlock, parse_app_block}
use openvela_frameworks_syst.Zip.Digest.{read_at}
use openvela_frameworks_syst.Zip.Verify.{
  System, verify_signature, archive_digest, compare_eocd, verify_digest, read_signature,
  parse_signature, check_cert, check_info, check_block, verify_app,
}

module _ (sys : System) where
  open sys use {
    sha, rsa_verify, memcmp, archive, signature_allocated, app_opens, cert_stat, cert,
    block_allocated, parse_opens,
  }

  -- The end record was read whole and the digests agree, or the read returned a multiple of 2^32.
  pub DigestPasses : AppBlock → DataBlock (List ℕ) → Type 0
  DigestPasses app digest =
      (buf : List ℕ) × (read_at archive app.eocd_block.start app.eocd_block.len ≡ some buf)
      × (((length buf ≡ app.eocd_block.len)
            × (memcmp (take 32 digest.start) (archive_digest sys app buf) ≡ pos 0))
          ⊎ ((length buf ≢ app.eocd_block.len) × (u32 (length buf) ≡ 0)))

  compare_eocd-zero :
      (app : AppBlock) (digest : DataBlock (List ℕ)) (read : Option (List ℕ))
      → read_at archive app.eocd_block.start app.eocd_block.len ≡ read
      → compare_eocd sys app digest read ≡ pos 0
      → DigestPasses app digest
  unfolding compare_eocd DigestPasses
  compare_eocd-zero app digest none e h = absurd (cc)
  compare_eocd-zero app digest (some buf) e h = (buf, e, ground arith)

  verify_digest-zero :
      (app : AppBlock) (digest : DataBlock (List ℕ))
      → app.eocd_block.start < 2 ^ 31
      → verify_digest sys app digest ≡ pos 0
      → DigestPasses app digest
  unfolding verify_digest
  verify_digest-zero app digest small h = compare_eocd-zero app digest _ refl (ground arith)

  -- What the signature check of a parsed signing block comes to.
  pub SignaturePasses : SignatureBlock → Option (List ℕ) → Type 0
  SignaturePasses info key =
      (info.digests_signatures_algorithm_id ≡ info.signatures_algorithm_id)
      × (rsa_verify key (contents info.signatures_content)
            (sha.final (sha.update sha.init (contents info.signed_data)))
          ≡ true)

  check_cert-zero :
      (app : AppBlock) (info : SignatureBlock) (key : Option (List ℕ))
      → check_cert sys app info (some key) ≡ pos 0
      → (rsa_verify key
            (contents info.signatures_content)
            (sha.final (sha.update sha.init (contents info.signed_data)))
          ≡ true)
        × (verify_digest sys app info.one_digest ≡ pos 0)
  unfolding check_cert verify_signature
  check_cert-zero app info key h = ground arith

  check_info-zero :
      (app : AppBlock) (info : SignatureBlock) (key : Option (List ℕ))
      → cert ≡ some key
      → check_info sys app info ≡ pos 0
      → (info.digests_signatures_algorithm_id ≡ info.signatures_algorithm_id)
        × (check_cert sys app info (some key) ≡ pos 0)
  unfolding check_info
  check_info-zero app info key e h = ground arith

  check_block-some :
      (app : AppBlock) (res : ℤ)
      → check_block sys (some app) ≡ some res
      → res ≢ negsuc 0
      → (info : SignatureBlock) × (parse_signature sys (read_signature sys app) ≡ some info)
        × (check_info sys app info ≡ res)
  unfolding check_block
  check_block-some app res h ne =
      elim (Option-cases (parse_signature sys (read_signature sys app))) [
        | inl bad ↦ absurd (ground arith)
        | inr (info, e) ↦ (info, e, ground arith)
      ]

  -- When the archive's parts are found, with the end record below 2^31, the key file can be opened
  -- and verify_app returns 0: the signing block was parsed, its two algorithm numbers agree, the
  -- RSA check of the signed data against what the read of the key gave passed, and either the end
  -- record was read whole and memcmp finds the archive's digest equal to the signed one, or the
  -- read of the end record returned another length that is a multiple of 2^32.
  pub verify_app_sound :
      (comment_len : ℕ) (app : AppBlock) (key : Option (List ℕ))
      → parse_app_block block_allocated
          (if parse_opens then some archive.bytes else none)
          comment_len
        ≡ some app
      → app.eocd_block.start < 2 ^ 31
      → cert ≡ some key
      → verify_app sys comment_len ≡ some (pos 0)
      → (info : SignatureBlock) × (parse_signature sys (read_signature sys app) ≡ some info)
        × SignaturePasses info key
        × DigestPasses app info.one_digest
  unfolding verify_app SignaturePasses
  verify_app_sound comment_len app key found small opened h =
      let (info, parsed, checked) = check_block-some app (pos 0) (rw found at h) (λ e. cc) in
      let (same, passed) = check_info-zero app info key opened checked in
      let (signed, digest) = check_cert-zero app info key passed in
      (info, parsed, (same, signed), verify_digest-zero app info.one_digest small digest)

  -- When the key file's `stat` returns 0 but the file cannot be opened, verify_app returns 0 for
  -- every archive whose parts and signing block are found and whose two algorithm numbers agree:
  -- neither the signature nor the digest is checked.
  pub verify_app_no_key :
      (comment_len : ℕ) (app : AppBlock) (info : SignatureBlock)
      → parse_app_block block_allocated
          (if parse_opens then some archive.bytes else none)
          comment_len
        ≡ some app
      → signature_allocated ≡ true
      → app_opens ≡ true
      → parse_signature sys (read_signature sys app) ≡ some info
      → info.digests_signatures_algorithm_id ≡ info.signatures_algorithm_id
      → cert_stat ≡ pos 0
      → cert ≡ none
      → verify_app sys comment_len ≡ some (pos 0)
  unfolding verify_app check_block check_info check_cert
  verify_app_no_key comment_len app info found m o parsed same st closed = ground arith

  -- When the allocations and opens of verify_digest succeed, the end record lies below 2^31 and the
  -- read of it, which wants some bytes, delivers none, verify_digest returns 0 whatever the digest.
  pub verify_digest_no_read :
      (app : AppBlock) (digest : DataBlock (List ℕ))
      → sys.digest_opens ≡ true
      → sys.buffer_allocated ≡ true
      → sys.buffer_grown ≡ true
      → app.eocd_block.start < 2 ^ 31
      → 0 < app.eocd_block.len
      → read_at archive app.eocd_block.start app.eocd_block.len ≡ some []
      → verify_digest sys app digest ≡ pos 0
  unfolding verify_digest compare_eocd
  verify_digest_no_read app digest a b c small want e = ground arith
