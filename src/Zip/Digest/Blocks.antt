-- ===== src/Zip/Digest/Blocks.antt =====
-- md_file_block of verify/zip_verify.c: a block of the file as chunks of at most one mebibyte.
use openvela_frameworks_syst.Prelude.{
  ℕ, zero, suc, ◌+◌, ◌-◌, ◌*◌, ◌^◌, ◌≤◌, ◌<◌, ◌≡◌, refl, ap, ◌∙◌, false, List, [], ◌∷◌, ◌++◌, arith,
  length, take, drop, ltb, lt→ltb, ◌⊎◌, length-take, length-drop, drop-add, take-all, take-take_le,
  drop-take, take-append-drop,
}
use openvela_frameworks_syst.Prelude.Int.{pos}
use openvela_frameworks_syst.Zip.Digest.{
  Sha256, File, chunk_max, calc_chunk_count, chunk_start, md_chunks, md_file_block,
}
use openvela_frameworks_syst.Zip.Digest.Chunk.{
  Sha256Laws, Delivers, slice, chunk_digest, md_one_chunk_lem,
}

-- The first `n` pieces of a list, one mebibyte each as long as there is one.
pub pieces : ℕ → List ℕ → List (List ℕ)
pieces zero xs = []
pieces (suc n) xs = take chunk_max xs ∷ pieces n (drop chunk_max xs)

pub join : List (List ℕ) → List ℕ
join [] = []
join (p ∷ ps) = p ++ join ps

-- The digests of the pieces, hashed one after the other.
pub hash_pieces : (sha : Sha256) → sha.Ctx → List (List ℕ) → sha.Ctx
hash_pieces sha ctx [] = ctx
hash_pieces sha ctx (p ∷ ps) = hash_pieces sha (sha.update ctx (chunk_digest sha p)) ps

join-pieces : (n : ℕ) (xs : List ℕ) → length xs ≤ n * chunk_max → join (pieces n xs) ≡ xs
unfolding join pieces
join-pieces zero [] h = refl
join-pieces zero (x ∷ xs) h = absurd (omega arith)
join-pieces (suc n) xs h =
    rw (join-pieces n (drop chunk_max xs) (omega (arith, length-drop chunk_max xs)))
      (take-append-drop chunk_max xs)

abbrev pub AllShort : List (List ℕ) → Type 0
AllShort [] = Unit {0}
AllShort (p ∷ ps) = (length p ≤ chunk_max) × AllShort ps

pieces-AllShort : (n : ℕ) (xs : List ℕ) → AllShort (pieces n xs)
unfolding pieces
pieces-AllShort zero xs = tt
pieces-AllShort (suc n) xs =
    (omega (arith, length-take chunk_max xs), pieces-AllShort n (drop chunk_max xs))

calc_chunk_count_lem :
    (len : ℕ)
    → len + chunk_max ≤ 2 ^ 32
    → (len ≤ calc_chunk_count len * chunk_max)
      × (calc_chunk_count len * chunk_max < len + chunk_max)
unfolding calc_chunk_count
calc_chunk_count_lem len small = (omega arith, omega arith)

-- For a length below 2^32: up to 2^32 - 2^20 the count of chunks covers the length with less than one
-- chunk to spare; above that the sum wraps and the count is 0.
pub calc_chunk_count_range :
    (len : ℕ)
    → len < 2 ^ 32
    → ((len + chunk_max ≤ 2 ^ 32)
        × (len ≤ calc_chunk_count len * chunk_max)
        × (calc_chunk_count len * chunk_max < len + chunk_max))
      ⊎ ((2 ^ 32 < len + chunk_max) × (calc_chunk_count len ≡ 0))
unfolding calc_chunk_count
calc_chunk_count_range len h = ground arith

-- Parts of a slice.
slice_front :
    (file : File) (start m len : ℕ) → m ≤ len → take m (slice file start len) ≡ slice file start m
slice_front file start m len h = take-take_le m len (drop start file.bytes) h

slice_back :
    (file : File) (start m start' k len : ℕ)
    → start + m ≡ start'
    → m + k ≡ len
    → drop m (slice file start len) ≡ slice file start' k
slice_back file start m start' k len e e' =
    drop-take m k len (drop start file.bytes) e'
    ∙ ap (λ l. take k l) (drop-add start m start' file.bytes e)

slice_all :
    (file : File) (start len m : ℕ)
    → len ≤ m
    → start + len ≤ length file.bytes
    → take m (slice file start len) ≡ slice file start len
slice_all file start len m h fits =
    take-all m (slice file start len) (omega (arith, length-take len (drop start file.bytes)))

-- Below 2048 chunks the product does not overflow.
chunk_start_lem : (start i : ℕ) → i < 2048 → chunk_start start i ≡ start + i * chunk_max
unfolding chunk_start
chunk_start_lem start i h = ground arith

le→not_ltb : (a b : ℕ) → b ≤ a → ltb a b ≡ false
le→not_ltb a b h = ground arith

module _ (sha : Sha256) (laws : Sha256Laws sha) (file : File) (buflen : ℕ) (room : 0 < buflen)
    (delivers : Delivers file) where
  md_chunks_lem :
      (n i len start : ℕ) (ctx : sha.Ctx)
      → start + i * chunk_max + len ≤ length file.bytes
      → len ≤ n * chunk_max
      → n * chunk_max < len + chunk_max
      → i + n ≤ 2048
      → md_chunks sha file buflen n i len start ctx
        ≡ (pos 0, hash_pieces sha ctx (pieces n (slice file (start + i * chunk_max) len)))
  unfolding md_chunks hash_pieces pieces
  md_chunks_lem zero i len start ctx fits hi lo few = refl
  md_chunks_lem (suc zero) i len start ctx fits hi lo few =
      rw (chunk_start_lem start i (omega arith), le→not_ltb chunk_max len (omega arith))
        (rw (md_one_chunk_lem sha laws file buflen room delivers (start + i * chunk_max) len fits)
          (rw (slice_all file (start + i * chunk_max) len chunk_max (omega arith) fits)))
  md_chunks_lem (suc (suc n)) i len start ctx fits hi lo few =
      rw (chunk_start_lem start i (omega arith), lt→ltb chunk_max len (omega arith))
        (rw
          (md_one_chunk_lem sha laws file buflen room delivers (start + i * chunk_max) chunk_max
            (omega arith))
          (md_chunks_lem (suc n) (i + 1) (len - chunk_max) start _ (omega arith) (omega arith)
              (omega arith) (omega arith)
            ∙ rw (
              slice_front file (start + i * chunk_max) chunk_max len (omega arith),
              slice_back file (start + i * chunk_max) chunk_max (start + (i + 1) * chunk_max)
                  (len - chunk_max) len (omega arith) (omega arith),
            )))

  -- When every read gets at least a byte, the buffer is not empty, the block lies in the file and its
  -- length is at most 2^31: md_file_block returns 0, and hashes the digests of pieces of at
  -- most one mebibyte, in order, which together are the block's bytes.
  pub md_file_block_lem :
      (ctx : sha.Ctx) (start len : ℕ)
      → start + len ≤ length file.bytes
      → len ≤ 2 ^ 31
      → (ps : List (List ℕ)) × (md_file_block sha file buflen ctx
            (record { start = start; len = len })
          ≡ (pos 0, hash_pieces sha ctx ps))
        × (join ps ≡ slice file start len)
        × AllShort ps
  unfolding md_file_block
  md_file_block_lem ctx start len fits small =
      let n = calc_chunk_count len in
      let bounds = calc_chunk_count_lem len (omega (arith, small)) in
      let base : start + 0 * chunk_max ≡ start = omega arith in
      (
        pieces n (slice file start len),
        md_chunks_lem n 0 len start ctx (omega arith) bounds.0 bounds.1
              (omega (arith, small, bounds.1))
            ∙ ap (λ s. (pos 0, hash_pieces sha ctx (pieces n (slice file s len)))) base,
        join-pieces n (slice file start len)
            (omega (arith, bounds.0, length-take len (drop start file.bytes))),
        pieces-AllShort n (slice file start len),
      )
