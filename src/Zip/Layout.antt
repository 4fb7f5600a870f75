-- ===== src/Zip/Layout.antt =====
-- The signature block as a signing tool lays it out, and what verify/zip_verify.c reads from it.
use mathlib.Core.List.{append_assoc}
use openvela_frameworks_syst.Prelude.{
  ℕ, ◌+◌, ◌^◌, ◌<◌, ◌≡◌, refl, some, List, ◌++◌, arith, length, length-append, drop,
  take-length_append, drop-length_append,
}
use openvela_frameworks_syst.Prelude.Bytes.{read32, le32, read32-le32}
use openvela_frameworks_syst.Zip.{contents, parse_block, SignatureBlock, get_signature_info}

-- A block: its length in four bytes, then its bytes.
unfoldable pub block : List ℕ → List ℕ
block xs = le32 (length xs) ++ xs

pub parse_block-block :
    (xs rest : List ℕ)
    → length xs < 2 ^ 32
    → parse_block (block xs ++ rest) ≡ some (record { start = xs ++ rest; len = length xs }, rest)
unfolding parse_block block
parse_block-block xs rest h =
    rw (append_assoc (le32 (length xs)) xs rest)
      (rw (read32-le32 (length xs) (xs ++ rest) h) (rw (drop-length_append xs rest)))

-- One signer, with one digest, one certificate and one signature.
pub record Signer : Type 0 where
  pub digest_algorithm : ℕ
  pub digest : List ℕ
  pub certificate : List ℕ
  pub attributes : List ℕ
  pub signature_algorithm : ℕ
  pub signature : List ℕ
  pub public_key : List ℕ

-- The bytes that are signed.
unfoldable pub signed_bytes : Signer → List ℕ
signed_bytes s =
    block (block (le32 s.digest_algorithm ++ block s.digest))
    ++ (block (block s.certificate) ++ s.attributes)

unfoldable pub signer_bytes : Signer → List ℕ
signer_bytes s = block (
    block (signed_bytes s)
    ++ (block (block (le32 s.signature_algorithm ++ block s.signature)) ++ block s.public_key))

length-block : (xs : List ℕ) → length (block xs) ≡ 4 + length xs
unfolding block le32
length-block xs = omega arith

length-le32 : (n : ℕ) → length (le32 n) ≡ 4
unfolding le32
length-le32 n = omega arith

parse_block_at :
    (p xs rest : List ℕ)
    → p ≡ block xs ++ rest
    → length xs < 2 ^ 32
    → parse_block p ≡ some (record { start = xs ++ rest; len = length xs }, rest)
parse_block_at p xs rest e h = rw e (parse_block-block xs rest h)

read32_at :
    (p : List ℕ) (n : ℕ) (rest : List ℕ)
    → p ≡ le32 n ++ rest
    → n < 2 ^ 32
    → read32 p ≡ some (n, rest)
read32_at p n rest e h = rw e (read32-le32 n rest h)

-- Past the length of a block, and past the algorithm that follows it.
skip_length : (xs rest : List ℕ) → drop 4 (block xs ++ rest) ≡ xs ++ rest
unfolding block le32
skip_length xs rest = refl

skip_algorithm : (n : ℕ) (rest : List ℕ) → drop 4 (le32 n ++ rest) ≡ rest
unfolding le32
skip_algorithm n rest = refl

skip_both : (n : ℕ) (xs rest : List ℕ) → drop 8 (block (le32 n ++ xs) ++ rest) ≡ xs ++ rest
unfolding block le32
skip_both n xs rest = refl

module _ (s : Signer) (rest : List ℕ) where
  abbrev digest_entry : List ℕ
  digest_entry = le32 s.digest_algorithm ++ block s.digest

  abbrev signature_entry : List ℕ
  signature_entry = le32 s.signature_algorithm ++ block s.signature

  abbrev after_signed : List ℕ
  after_signed = block (block signature_entry) ++ (block s.public_key ++ rest)

  abbrev after_digests : List ℕ
  after_digests = block (block s.certificate) ++ (s.attributes ++ after_signed)

  abbrev after_certificate : List ℕ
  after_certificate = s.attributes ++ after_signed

  -- What is read: the blocks with the bytes from them on.
  parsed : SignatureBlock
  parsed = record {
    one_sign_block = record {
      start = block (signed_bytes s) ++ after_signed;
      len =
          length (block (signed_bytes s) ++ (block (block signature_entry) ++ block s.public_key));
    };
    signed_data = record {
      start = block (block digest_entry) ++ after_digests;
      len = length (signed_bytes s);
    };
    signatures = record {
      start = block signature_entry ++ (block s.public_key ++ rest);
      len = length (block signature_entry);
    };
    public_key = record { start = s.public_key ++ rest; len = length s.public_key };
    digests = record {
      start = block digest_entry ++ after_digests;
      len = length (block digest_entry);
    };
    digests_signatures_algorithm_id = s.digest_algorithm;
    one_digest = record { start = s.digest ++ after_digests; len = length s.digest };
    certificate = record { start = s.certificate ++ after_certificate; len = length s.certificate };
    signatures_algorithm_id = s.signature_algorithm;
    signatures_content = record {
      start = s.signature ++ (block s.public_key ++ rest);
      len = length s.signature;
    };
  }

  -- The lengths of the parts, from that of the whole.
  sizes :
      length (signer_bytes s) < 2 ^ 32
      → (length (signed_bytes s) < 2 ^ 32)
        × (length (block signature_entry) < 2 ^ 32)
        × (length signature_entry < 2 ^ 32)
        × (length s.public_key < 2 ^ 32)
        × (length (block digest_entry) < 2 ^ 32)
        × (length digest_entry < 2 ^ 32)
        × (length s.digest < 2 ^ 32)
        × (length (block s.certificate) < 2 ^ 32)
        × (length s.certificate < 2 ^ 32)
        × (length s.signature < 2 ^ 32)
        × (length (block (signed_bytes s) ++ (block (block signature_entry) ++ block s.public_key))
            < 2 ^ 32)
  unfolding signer_bytes signed_bytes
  sizes h = omega (arith, length-append {0}, length-block, length-le32)

  get_signature_info-parsed :
      s.digest_algorithm < 2 ^ 32
      → s.signature_algorithm < 2 ^ 32
      → length (signer_bytes s) < 2 ^ 32
      → get_signature_info (signer_bytes s ++ rest) ≡ some (parsed, rest)
  unfolding get_signature_info signer_bytes signed_bytes parsed
  get_signature_info-parsed ha hb h =
      let z = sizes h in
      let behind = block s.public_key ++ rest in
      rw (parse_block-block _ rest z.10) (
        rw
          (append_assoc (block (signed_bytes s))
            (block (block signature_entry) ++ block s.public_key) rest)
          (rw (append_assoc (block (block signature_entry)) (block s.public_key) rest) (
            rw (parse_block-block (signed_bytes s) after_signed z.0) (
              rw (parse_block-block (block signature_entry) behind z.1) (
                rw (parse_block-block s.public_key rest z.3) (
                  rw
                    (append_assoc (block (block digest_entry))
                      (block (block s.certificate) ++ s.attributes) after_signed)
                    (rw (append_assoc (block (block s.certificate)) s.attributes after_signed) (
                      rw (parse_block-block (block digest_entry) after_digests z.4) (
                        rw (skip_length digest_entry after_digests) (
                          rw (append_assoc (le32 s.digest_algorithm) (block s.digest) after_digests)
                            (rw
                              (read32-le32 s.digest_algorithm (block s.digest ++ after_digests) ha)
                              (rw (skip_both s.digest_algorithm (block s.digest) after_digests) (
                                rw (parse_block-block s.digest after_digests z.6) (
                                  rw (parse_block-block (block s.certificate) after_certificate z.7)
                                    (rw (parse_block-block s.certificate after_certificate z.8) (
                                      rw (parse_block-block signature_entry behind z.2) (
                                        rw
                                          (append_assoc (le32 s.signature_algorithm)
                                            (block s.signature) behind)
                                          (rw
                                            (read32-le32 s.signature_algorithm
                                              (block s.signature ++ behind) hb)
                                            (rw
                                              (skip_algorithm s.signature_algorithm
                                                (block s.signature ++ behind))
                                              (rw (
                                                parse_block-block s.signature behind
                                                  z.9)))))))))))))))))))))

  signed_start : block (block digest_entry) ++ after_digests ≡ signed_bytes s ++ after_signed
  unfolding signed_bytes
  signed_start = simp append_assoc

  -- Of the bytes of one signer, with numbers and lengths that fit 32 bits, get_signature_info finds
  -- the bytes that are signed, the digest, the certificate, the signature, the public key and both
  -- algorithm numbers as they were laid out, and returns the pointer behind them, whatever follows.
  pub get_signature_info_lem :
      s.digest_algorithm < 2 ^ 32
      → s.signature_algorithm < 2 ^ 32
      → length (signer_bytes s) < 2 ^ 32
      → (info : SignatureBlock) × (get_signature_info (signer_bytes s ++ rest) ≡ some (info, rest))
        × (contents info.signed_data ≡ signed_bytes s)
        × (contents info.one_digest ≡ s.digest)
        × (contents info.certificate ≡ s.certificate)
        × (contents info.signatures_content ≡ s.signature)
        × (contents info.public_key ≡ s.public_key)
        × (info.digests_signatures_algorithm_id ≡ s.digest_algorithm)
        × (info.signatures_algorithm_id ≡ s.signature_algorithm)
  unfolding parsed
  get_signature_info_lem ha hb h = (
    parsed,
    get_signature_info-parsed ha hb h,
    rw signed_start (take-length_append (signed_bytes s) after_signed),
    take-length_append s.digest after_digests,
    take-length_append s.certificate after_certificate,
    take-length_append s.signature (block s.public_key ++ rest),
    take-length_append s.public_key rest,
    refl,
    refl,
  )
