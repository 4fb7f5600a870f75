-- ===== src/Zip.antt =====
-- verify/zip_verify.c: the blocks of a signed archive.
-- A pointer into a buffer that is only read is the list of the bytes from there on; a read past the
-- end of the buffer, which is undefined in C, is `none`.
pub mod Layout
pub mod Archive
pub mod Digest
pub mod Verify
mod Tests
use openvela_frameworks_syst.Prelude.{
  ℕ, ◌+◌, ◌-◌, ◌*◌, Option, none, some, List, ◌++◌, length, take, drop,
}
use openvela_frameworks_syst.Prelude.Bytes.{read32, read64}

-- struct data_block_s; `P` is the type of `data`: a pointer here, an offset in a file elsewhere.
pub record DataBlock (P : Type 0) : Type 0 where
  pub start : P
  pub len : ℕ

-- The bytes of a block in memory.
abbrev pub contents : DataBlock (List ℕ) → List ℕ
contents block = take block.len block.start

infixl 5 ◌>>=◌
abbrev pub ◌>>=◌ : {A B : Type 0} → Option A → (A → Option B) → Option B
none >>= f = none
some a >>= f = f a

-- The block, and the pointer that is returned.
unfoldable pub parse_block : List ℕ → Option (DataBlock (List ℕ) × List ℕ)
parse_block p = do (n, q) ← read32 p; some (record { start = q; len = n }, drop n q)

-- The key's low four bytes, which are the ones that are written, the value, and the pointer returned.
unfoldable pub parse_kv_block : List ℕ → Option (ℕ × List ℕ × List ℕ)
parse_kv_block p = do
  (n, q) ← read64 p
  (key, value) ← read32 q
  some (key, value, drop (n - 4) value)

-- struct signature_block_s
pub record SignatureBlock : Type 0 where
  pub one_sign_block : DataBlock (List ℕ)
  pub signed_data : DataBlock (List ℕ)
  pub signatures : DataBlock (List ℕ)
  pub public_key : DataBlock (List ℕ)
  pub digests : DataBlock (List ℕ)
  pub digests_signatures_algorithm_id : ℕ
  pub one_digest : DataBlock (List ℕ)
  pub certificate : DataBlock (List ℕ)
  pub signatures_algorithm_id : ℕ
  pub signatures_content : DataBlock (List ℕ)

-- The second value is the pointer that is returned.
unfoldable pub get_signature_info : List ℕ → Option (SignatureBlock × List ℕ)
get_signature_info p = do
  (one_sign_block, ret) ← parse_block p
  (signed_data, offset) ← parse_block one_sign_block.start
  (signatures, offset) ← parse_block offset
  (public_key, offset) ← parse_block offset
  (digests, offset) ← parse_block signed_data.start
  (digests_algorithm, offset) ← read32 (drop 4 digests.start)
  (one_digest, offset) ← parse_block (drop 8 digests.start)
  (certificates, offset) ← parse_block offset
  (certificate, offset) ← parse_block certificates.start
  (signature, offset) ← parse_block signatures.start
  (signatures_algorithm, offset) ← read32 signature.start
  (signatures_content, offset) ← parse_block (drop 4 signature.start)
  some (
    record {
      one_sign_block = one_sign_block;
      signed_data = signed_data;
      signatures = signatures;
      public_key = public_key;
      digests = digests;
      digests_signatures_algorithm_id = digests_algorithm;
      one_digest = one_digest;
      certificate = certificate;
      signatures_algorithm_id = signatures_algorithm;
      signatures_content = signatures_content;
    },
    ret,
  )
