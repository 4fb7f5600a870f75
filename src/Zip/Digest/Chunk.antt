-- ===== src/Zip/Digest/Chunk.antt =====
-- md_one_chunk of verify/zip_verify.c against the digest of the chunk's bytes.
use openvela_frameworks_syst.Prelude.{
  ℕ, zero, suc, ◌+◌, ◌-◌, ◌≤◌, ◌<◌, ◌≡◌, refl, sym, ap, ◌∙◌, inl, inr, none, some, List, [], ◌∷◌,
  ◌++◌, arith, length, take, drop, length-take, length-drop, take-add, drop-add, List-cases,
  Option-cases,
}
use openvela_frameworks_syst.Prelude.Bytes.{le32}
use openvela_frameworks_syst.Zip.Digest.{Sha256, File, at_most, read_at, read_chunk, md_one_chunk}

-- Hashing in parts is hashing the whole.
pub record Sha256Laws (sha : Sha256) : Type 0 where
  pub update-nil : (c : sha.Ctx) → sha.update c [] ≡ c
  pub update-update :
      (c : sha.Ctx) (xs ys : List ℕ) → sha.update (sha.update c xs) ys ≡ sha.update c (xs ++ ys)

-- Every read gets at least a byte, if there is one.
abbrev pub Delivers : File → Type 0
Delivers file = (position : ℕ) → (k : ℕ) × (file.grant position ≡ some (suc k))

-- The bytes of a block of the file.
abbrev pub slice : File → ℕ → ℕ → List ℕ
slice file start len = take len (drop start file.bytes)

-- The digest of a chunk: 0xa5, the length in four bytes, the bytes.
pub chunk_digest : Sha256 → List ℕ → List ℕ
chunk_digest sha xs = sha.final (sha.update sha.init (0xa5 ∷ (le32 (length xs) ++ xs)))

module _ (sha : Sha256) (laws : Sha256Laws sha) (file : File) (buflen : ℕ) (room : 0 < buflen) where
  length-slice :
      (start len : ℕ) → start + len ≤ length file.bytes → length (slice file start len) ≡ len
  length-slice start len h =
      omega (arith, length-take len (drop start file.bytes), length-drop start file.bytes)

  -- Two reads in a row hash what one would.
  read_on :
      (ctx : sha.Ctx) (position n total : ℕ) (xs : List ℕ)
      → slice file position n ≡ xs
      → length xs ≡ n
      → n ≤ total
      → sha.update (sha.update ctx xs) (slice file (position + length xs) (total - length xs))
        ≡ sha.update ctx (slice file position total)
  read_on ctx position n total xs bytes size h =
      rw (size, ← bytes)
        (laws.update-update ctx (slice file position n) (slice file (position + n) (total - n))
          ∙ ap (λ l. sha.update ctx l)
              (rw (← drop-add position n (position + n) file.bytes refl)
                (take-add n (total - n) total (drop position file.bytes) (omega arith))))

  module _ (delivers : Delivers file) where
    -- The bytes that a read gets, if as many are left.
    read_at_lem :
        (position left : ℕ)
        → 0 < left
        → position + left ≤ length file.bytes
        → (n : ℕ) × (0 < n)
          × (n ≤ left)
          × (read_at file position (at_most left buflen) ≡ some (slice file position n))
    unfolding read_at
    read_at_lem position left h fits =
        let (k, e) = delivers position in
        (at_most (suc k) (at_most left buflen), ground arith, ground arith, rw e)

    read_chunk_lem :
        (fuel : ℕ) (ctx : sha.Ctx) (position left : ℕ)
        → left < fuel
        → position + left ≤ length file.bytes
        → read_chunk sha file buflen fuel ctx position left
          ≡ some (sha.update ctx (slice file position left))
    unfolding read_chunk
    read_chunk_lem zero ctx position left h fits = absurd (omega arith)
    read_chunk_lem (suc fuel) ctx position zero h fits = rw (laws.update-nil ctx)
    read_chunk_lem (suc fuel) ctx position (suc left) h fits =
        let (n, some_read, not_more, e) = read_at_lem position (suc left) (omega arith) fits in
        elim (List-cases (slice file position n)) [
          | inl nothing ↦
              absurd (omega (arith, length-slice position n (omega arith), ap length nothing))
          | inr (x, xs, bytes) ↦
              let size : length (x ∷ xs) ≡ n =
                ap length (sym bytes) ∙ length-slice position n (omega arith) in
              rw (e ∙ ap (λ l. some l) bytes) (
                read_chunk_lem fuel (sha.update ctx (x ∷ xs)) (position + length (x ∷ xs))
                  (suc left - length (x ∷ xs)) (omega arith) (omega arith)
                ∙ ap (λ c. some c) (read_on ctx position n (suc left) (x ∷ xs) bytes size not_more))
        ]

    -- When every read gets at least a byte, the buffer is not empty and the chunk lies in the file,
    -- md_one_chunk returns the digest of 0xa5, the length and the chunk's bytes, however the reads
    -- are split; the fuel of the loop is enough.
    pub md_one_chunk_lem :
        (start len : ℕ)
        → start + len ≤ length file.bytes
        → md_one_chunk sha file buflen (record { start = start; len = len })
          ≡ some (chunk_digest sha (slice file start len))
    unfolding md_one_chunk chunk_digest
    md_one_chunk_lem start len fits = rw (read_chunk_lem (suc len) _ start len (omega arith) fits) (
        ap (λ c. some (sha.final c))
          (ap (λ c. sha.update c (slice file start len))
              (laws.update-update sha.init (0xa5 ∷ []) (le32 len))
            ∙ laws.update-update sha.init (0xa5 ∷ le32 len) (slice file start len)
            ∙ rw (length-slice start len fits)))

granted_length :
    (file : File) (position want k : ℕ) (xs : List ℕ)
    → file.grant position ≡ some k
    → read_at file position want ≡ some xs
    → xs ≡ take (at_most k want) (drop position file.bytes)
unfolding read_at
granted_length file position want k xs g e = cc

-- What a read delivers is asked for and lies in the file.
read_at_bounds :
    (file : File) (position want : ℕ) (xs : List ℕ)
    → position ≤ length file.bytes
    → read_at file position want ≡ some xs
    → (length xs ≤ want) × (position + length xs ≤ length file.bytes)
unfolding read_at
read_at_bounds file position want xs h e = elim (Option-cases (file.grant position)) [
  | inl failed ↦ absurd (cc (sym (rw failed at e)))
  | inr (k, g) ↦ rw (granted_length file position want k xs g e) (
      ground (
        arith,
        length-take (at_most k want) (drop position file.bytes),
        length-drop position file.bytes,
      ))
]

-- A chunk that reaches past the end of the file is an error, whatever the reads deliver.
read_chunk_short :
    (sha : Sha256) (file : File) (buflen fuel : ℕ) (ctx : sha.Ctx) (position left : ℕ)
    → length file.bytes < position + left
    → position ≤ length file.bytes
    → read_chunk sha file buflen fuel ctx position left ≡ none
unfolding read_chunk
read_chunk_short sha file buflen zero ctx position left short h = refl
read_chunk_short sha file buflen (suc fuel) ctx position zero short h = absurd (omega arith)
read_chunk_short sha file buflen (suc fuel) ctx position (suc left) short h =
    elim (Option-cases (read_at file position (at_most (suc left) buflen))) [
      | inl failed ↦ rw failed
      | inr (xs, e) ↦ elim (List-cases xs) [
        | inl nothing ↦ rw (e ∙ ap (λ l. some l) nothing)
        | inr (y, ys, got) ↦
            let bounds =
              read_at_bounds file position (at_most (suc left) buflen) (y ∷ ys) h
                (e ∙ ap (λ l. some l) got) in
            rw (e ∙ ap (λ l. some l) got) (
              read_chunk_short sha file buflen fuel (sha.update ctx (y ∷ ys))
                (position + length (y ∷ ys)) (suc left - length (y ∷ ys)) (ground arith) bounds.1)
      ]
    ]

-- For a chunk that starts in the file and reaches past its end, md_one_chunk returns the error,
-- whatever the reads deliver.
md_one_chunk_short :
    (sha : Sha256) (file : File) (buflen start len : ℕ)
    → start ≤ length file.bytes
    → length file.bytes < start + len
    → md_one_chunk sha file buflen (record { start = start; len = len }) ≡ none
unfolding md_one_chunk
md_one_chunk_short sha file buflen start len h short = rw (
    read_chunk_short sha file buflen (suc len)
      (sha.update (sha.update sha.init (0xa5 ∷ [])) (le32 len)) start len short h)
