-- ===== src/Zip/Verify.antt =====
-- The checks of verify/zip_verify.c and their return codes. The system, libavb and the unzip library
-- are the parameter `sys`. A function's result is `none` where the code reads past a buffer.
pub mod Sound
use mathlib.Core.Option
use openvela_frameworks_syst.Prelude.{
  ℕ, suc, ◌+◌, ◌-◌, ◌^◌, ◌≡◌, ◌↔◌, Bool, true, false, not, Option, none, some, List, [], ◌∷◌, ◌++◌,
  length, take, drop, leb, ltb, ◌==◌, if◌then◌else◌,
}
use openvela_frameworks_syst.Prelude.Int.{ℤ, pos, negsuc, is_neg}
use openvela_frameworks_syst.Prelude.Bytes.{u32, le32}
use openvela_frameworks_syst.Zip.{
  DataBlock, contents, parse_block, parse_kv_block, get_signature_info, SignatureBlock, ◌>>=◌,
}
use openvela_frameworks_syst.Zip.Archive.{AppBlock, parse_app_block}
use openvela_frameworks_syst.Zip.Digest.{Sha256, File, read_at, calc_chunk_count, md_file_block}

-- What a run meets: whether each allocation and each open of the archive succeeds, the archive, the
-- certificate's `stat`, what its `read` gives if it can be opened, and the libraries. A key of
-- `none` is one whose read has failed: the buffer is then passed as malloc left it, with the length
-- 2^32 - 1, to which the -1 is converted. `fresh` is what malloc leaves in the buffer of the
-- signing block.
pub record System : Type 1 where
  pub sha : Sha256
  pub algorithm_known : Bool
  pub rsa_verify : Option (List ℕ) → List ℕ → List ℕ → Bool
  pub memcmp : List ℕ → List ℕ → ℤ
  pub archive : File
  pub bufsize : ℕ
  pub block_allocated : Bool
  pub parse_opens : Bool
  pub signature_allocated : Bool
  pub fresh : List ℕ
  pub app_opens : Bool
  pub cert_stat : ℤ
  pub cert : Option (Option (List ℕ))
  pub digest_opens : Bool
  pub buffer_allocated : Bool
  pub buffer_grown : Bool

-- A value stored in an `int`: the low 32 bits, signed.
abbrev pub to_int : ℕ → ℤ
to_int n = if ltb (u32 n) (2 ^ 31) then pos (u32 n) else negsuc (2 ^ 32 - 1 - u32 n)

abbrev pub is_zero : ℤ → Bool
is_zero (pos n) = n == 0
is_zero (negsuc n) = false

abbrev pub same_int : ℤ → ℤ → Bool
same_int (pos m) (pos n) = m == n
same_int (negsuc m) (negsuc n) = m == n
same_int _ _ = false

module _ (sys : System) where
  open sys use {
    sha, algorithm_known, rsa_verify, memcmp, archive, bufsize, block_allocated, parse_opens,
    signature_allocated, fresh, app_opens, cert_stat, cert, digest_opens, buffer_allocated,
    buffer_grown,
  }

  -- The bytes of the public key file, of the signed data and of the signature.
  unfoldable pub verify_signature : Option (List ℕ) → List ℕ → List ℕ → ℤ
  verify_signature pubkey raw_data signature =
      if not algorithm_known
      then negsuc 0
      else if rsa_verify pubkey signature (sha.final (sha.update sha.init raw_data))
      then pos 0
      else pos 1

  -- `chunk_count` of verify_digest, an `int` that is hashed in four bytes.
  unfoldable pub chunk_total : AppBlock → ℕ
  chunk_total app = u32 (
      calc_chunk_count app.data_block.len
      + calc_chunk_count app.central_directory_block.len
      + calc_chunk_count app.eocd_block.len)

  -- The context after the entries and the central directory: neither return code is looked at.
  unfoldable pub hash_blocks : AppBlock → sha.Ctx
  hash_blocks app =
      let ctx = sha.update (sha.update sha.init (0x5a ∷ [])) (le32 (chunk_total app)) in
      let (ignored, ctx₁) = md_file_block sha archive bufsize ctx app.data_block in
      (md_file_block sha archive bufsize ctx₁ app.central_directory_block).1

  -- The digest of the end record, with the offset of the signing block put into it.
  unfoldable pub eocd_digest : AppBlock → List ℕ → List ℕ
  eocd_digest app buf =
      let patched = take 16 buf ++ (le32 app.data_block.len ++ drop 20 buf) in
      let ctx = sha.update (sha.update sha.init (0xa5 ∷ [])) (le32 app.eocd_block.len) in
      sha.final (sha.update ctx patched)

  unfoldable pub archive_digest : AppBlock → List ℕ → List ℕ
  archive_digest app buf = sha.final (sha.update (hash_blocks app) (eocd_digest app buf))

  -- What the read of the end record returns is compared with the length wanted, and is the return
  -- code if the two differ; else memcmp compares the digests.
  unfoldable pub compare_eocd : AppBlock → DataBlock (List ℕ) → Option (List ℕ) → ℤ
  compare_eocd app digest none = negsuc 0
  compare_eocd app digest (some buf) =
      if length buf == app.eocd_block.len
      then memcmp (take 32 digest.start) (archive_digest app buf)
      else to_int (length buf)

  -- `res` is an `int`, and `intptr_t` has 64 bits.
  unfoldable pub verify_digest : AppBlock → DataBlock (List ℕ) → ℤ
  verify_digest app digest =
      if not digest_opens
      then negsuc 0
      else if not buffer_allocated
      then negsuc 0
      else if not buffer_grown
      then negsuc 0
      else if not (same_int (to_int app.eocd_block.start) (pos app.eocd_block.start))
      then to_int app.eocd_block.start
      else compare_eocd app digest (read_at archive app.eocd_block.start app.eocd_block.len)

  -- A buffer of that size, whose front has been read.
  abbrev pub read_over : ℕ → List ℕ → List ℕ
  read_over size read = read ++ drop (length read) (take size fresh)

  -- The signing block in memory: the return of this read is not looked at, and the bytes that it does
  -- not deliver are those that malloc left.
  unfoldable pub read_signature : AppBlock → List ℕ
  read_signature app =
      read_over app.signature_block.len
        (Option.get_or (read_at archive app.signature_block.start app.signature_block.len) [])

  unfoldable pub parse_signature : List ℕ → Option SignatureBlock
  parse_signature buf = do
    (id, value, end) ← parse_kv_block buf
    (signature_data, end) ← parse_block value
    (info, end) ← get_signature_info signature_data.start
    some info

  -- verify_app behind `open(cert_path)`: when it fails, `res` is still what `stat` returned.
  unfoldable pub check_cert : AppBlock → SignatureBlock → Option (Option (List ℕ)) → ℤ
  check_cert app info none = cert_stat
  check_cert app info (some key) =
      let res =
        verify_signature key (contents info.signed_data) (contents info.signatures_content) in
      if not (is_zero res) then res else verify_digest app info.one_digest

  -- verify_app from the comparison of the algorithms on.
  unfoldable pub check_info : AppBlock → SignatureBlock → ℤ
  check_info app info =
      if not (info.digests_signatures_algorithm_id == info.signatures_algorithm_id)
      then negsuc 0
      else if not (is_zero cert_stat)
      then cert_stat
      else check_cert app info cert

  unfoldable pub check_block : Option AppBlock → Option ℤ
  check_block none = some (negsuc 0)
  check_block (some app) =
      if not signature_allocated
      then some (negsuc 0)
      else if not app_opens
      then some (negsuc 0)
      else (do info ← parse_signature (read_signature app); some (check_info app info))

  unfoldable pub verify_app : ℕ → Option ℤ
  verify_app comment_len = check_block (
      parse_app_block block_allocated (if parse_opens then some archive.bytes else none)
        comment_len)

-- The unzip library's answers, and what `access` returns for the two arguments.
pub record Front : Type 0 where
  pub argument_count : ℕ
  pub file_access : ℤ
  pub cert_access : ℤ
  pub unz_opens : Bool
  pub unz_info : ℤ
  pub size_comment : ℕ
  pub unz_close : ℤ

module _ (sys : System) (front : Front) where
  open front use {
    argument_count, file_access, cert_access, unz_opens, unz_info, size_comment, unz_close,
  }

  unfoldable pub verify : Option ℤ
  verify =
      if not unz_opens
      then some (negsuc 0)
      else if not (is_zero unz_info)
      then some unz_info
      else if not (is_zero unz_close)
      then some unz_close
      else verify_app sys size_comment

  -- The exit status; -22 is -EINVAL.
  unfoldable pub main : Option ℤ
  main =
      if not (argument_count == 3)
      then some (negsuc 21)
      else if not (is_zero file_access)
      then some file_access
      else if not (is_zero cert_access)
      then some cert_access
      else verify
