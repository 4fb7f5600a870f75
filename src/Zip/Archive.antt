-- ===== src/Zip/Archive.antt =====
-- parse_app_block of verify/zip_verify.c: where the parts of a signed archive stand in its file.
pub mod Parts
use openvela_frameworks_syst.Prelude.{
  ℕ, ◌+◌, ◌-◌, ◌^◌, ◌%◌, Option, none, some, List, [], ◌∷◌, length, take, drop, leb, ◌==◌,
  if◌then◌else◌, Bool, true, false, ◌&&◌,
}
use openvela_frameworks_syst.Prelude.Bytes.{u32, read32, read64}
use openvela_frameworks_syst.Zip.{DataBlock, ◌>>=◌}

-- struct app_block_s: here `data` is an offset in the file.
pub record AppBlock : Type 0 where
  pub data_block : DataBlock ℕ
  pub signature_block : DataBlock ℕ
  pub central_directory_block : DataBlock ℕ
  pub eocd_block : DataBlock ℕ

-- "APK Sig Block 42"
abbrev pub magic : List ℕ
magic =
    b'A' ∷ b'P' ∷ b'K' ∷ b' ' ∷ b'S' ∷ b'i' ∷ b'g' ∷ b' ' ∷ b'B' ∷ b'l' ∷ b'o' ∷ b'c' ∷ b'k' ∷ b' '
    ∷ b'4' ∷ b'2' ∷ []

-- memcmp of two buffers of one length.
unfoldable pub same_bytes : List ℕ → List ℕ → Bool
same_bytes [] [] = true
same_bytes (x ∷ xs) (y ∷ ys) = x == y && same_bytes xs ys
same_bytes _ _ = false

-- lseek(fd, -back, SEEK_END): before the start of the file it fails and the position stays.
unfoldable pub seek_end : List ℕ → ℕ → ℕ → ℕ
seek_end file back position = if leb back (length file) then length file - back else position

-- uint32_t a - b
unfoldable pub sub32 : ℕ → ℕ → ℕ
sub32 a b = (a + 2 ^ 32 - u32 b) % 2 ^ 32

-- The body behind `open`: the file's bytes, and the length of the archive's comment. A read that gets
-- fewer bytes than asked is `none`, the null pointer that is returned. `off_t` has 64 bits, so a
-- uint32_t that wrapped is a position past the end of the file.
unfoldable pub parse_file : List ℕ → ℕ → Option AppBlock
parse_file file comment_len = do
  (central_directory_offset, rest) ← read32 (drop (seek_end file (comment_len + 6) 0) file)
  let magic_buf = take 16 (drop (sub32 central_directory_offset 16) file)
  checked ← (if same_bytes magic magic_buf then some tt else none)
  let len_offset = sub32 central_directory_offset 24
  (signature_block_length, rest) ← read64 (drop len_offset file)
  let signature_len = u32 signature_block_length
  let signature_start = sub32 central_directory_offset signature_len
  let eocd_start = seek_end file (comment_len + 22) (len_offset + 8)
  some (record {
    data_block = record { start = 0; len = sub32 signature_start 8 };
    signature_block = record { start = signature_start; len = signature_len };
    central_directory_block = record {
      start = central_directory_offset;
      len = sub32 (u32 eocd_start) central_directory_offset;
    };
    eocd_block = record { start = eocd_start; len = u32 (comment_len + 22) };
  })

-- `allocated` is whether malloc returned memory, and `file` is `none` if `open` failed.
unfoldable pub parse_app_block : Bool → Option (List ℕ) → ℕ → Option AppBlock
parse_app_block allocated file comment_len = do
  ready ← (if allocated then some tt else none)
  bytes ← file
  parse_file bytes comment_len
