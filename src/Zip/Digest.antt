-- ===== src/Zip/Digest.antt =====
-- The digest of an archive in verify/zip_verify.c: chunks of one mebibyte, read in pieces of a
-- buffer. SHA-256 (libavb) and the reads of the file are parameters.
pub mod Chunk
pub mod Blocks
use openvela_frameworks_syst.Prelude.{
  ℕ, zero, suc, ◌+◌, ◌-◌, ◌*◌, ◌/◌, ◌%◌, ◌^◌, ◌<◌, ◌≡◌, Bool, true, false, Option, none, some, List,
  [], ◌∷◌, ◌++◌, length, take, drop, ltb, if◌then◌else◌,
}
use openvela_frameworks_syst.Prelude.Int.{ℤ, pos, negsuc}
use openvela_frameworks_syst.Prelude.Bytes.{u32, le32}
use openvela_frameworks_syst.Zip.{DataBlock, ◌>>=◌}

-- AvbSHA256Ctx with avb_sha256_init, avb_sha256_update and avb_sha256_final.
pub record Sha256 : Type 1 where
  pub Ctx : Type 0
  pub init : Ctx
  pub update : Ctx → List ℕ → Ctx
  pub final : Ctx → List ℕ

-- DIGESTED_CHUNK_MAX_SIZE
abbrev pub chunk_max : ℕ
chunk_max = 1048576

-- An open file: its bytes, and for each position how many bytes the system gives to a read there at
-- most; `none` is a read that fails.
pub record File : Type 0 where
  pub bytes : List ℕ
  pub grant : ℕ → Option ℕ

abbrev pub at_most : ℕ → ℕ → ℕ
at_most a b = if ltb a b then a else b

-- read(fd, buf, want) at a position: `none` is -1, else the bytes that are delivered.
unfoldable pub read_at : File → ℕ → ℕ → Option (List ℕ)
read_at file position want = do
  k ← file.grant position
  some (take (at_most k want) (drop position file.bytes))

-- uint32_t arithmetic: the sum can wrap.
unfoldable pub calc_chunk_count : ℕ → ℕ
calc_chunk_count len = u32 (len + (chunk_max - 1)) / chunk_max

-- `assert_res(read_len > 0)`, and what follows it.
abbrev pub on_read : {A : Type 0} → Option (List ℕ) → (List ℕ → Option A) → Option A
on_read none k = none
on_read (some []) k = none
on_read (some (x ∷ xs)) k = k (x ∷ xs)

-- `assert_res(res == 0)` behind md_one_chunk, with what is returned, and what follows it.
abbrev pub on_digest : {A : Type 0} → Option (List ℕ) → A → (List ℕ → A) → A
on_digest none failed k = failed
on_digest (some md) failed k = k md

-- `block->data + i * DIGESTED_CHUNK_MAX_SIZE`: the product is an `int`. From i = 2048 on it
-- overflows, which is undefined in C; here it wraps, and is added with its sign to an address of 64
-- bits.
unfoldable pub chunk_start : ℕ → ℕ → ℕ
chunk_start start i =
    let product = u32 (i * chunk_max) in
    if ltb product (2 ^ 31) then start + product else (start + product + 2 ^ 64 - 2 ^ 32) % 2 ^ 64

module _ (sha : Sha256) (file : File) (buflen : ℕ) where
  -- The loop of md_one_chunk with `left` for `block->length - sum`. Every read that goes on takes at
  -- least one byte, so a fuel above `left` is enough. `none` is the return of -1.
  unfoldable pub read_chunk : ℕ → sha.Ctx → ℕ → ℕ → Option sha.Ctx
  read_chunk zero ctx position left = none
  read_chunk (suc fuel) ctx position zero = some ctx
  read_chunk (suc fuel) ctx position (suc left) =
      on_read (read_at file position (at_most (suc left) buflen))
        λ xs. read_chunk fuel (sha.update ctx xs) (position + length xs) (suc left - length xs)

  -- The digest that goes to `output`, or `none` for -1.
  unfoldable pub md_one_chunk : DataBlock ℕ → Option (List ℕ)
  md_one_chunk block = do
    let ctx = sha.update (sha.update sha.init (0xa5 ∷ [])) (le32 block.len)
    ctx' ← read_chunk (suc block.len) ctx block.start block.len
    some (sha.final ctx')

  -- The loop of md_file_block with `rounds` for `cnt - i`: the return code, and the context, which
  -- keeps what was hashed before a failure.
  unfoldable pub md_chunks : ℕ → ℕ → ℕ → ℕ → sha.Ctx → ℤ × sha.Ctx
  md_chunks zero i length start ctx = (pos 0, ctx)
  md_chunks (suc rounds) i length start ctx =
      let chunk : DataBlock ℕ = record {
        start = chunk_start start i;
        len = if ltb chunk_max length then chunk_max else length;
      } in
      let length' = if ltb chunk_max length then length - chunk_max else length in
      let rest = λ (md : List ℕ). md_chunks rounds (i + 1) length' start (sha.update ctx md) in
      on_digest (md_one_chunk chunk) (negsuc 0, ctx) rest

  unfoldable pub md_file_block : sha.Ctx → DataBlock ℕ → ℤ × sha.Ctx
  md_file_block ctx block = md_chunks (calc_chunk_count block.len) 0 block.len block.start ctx
