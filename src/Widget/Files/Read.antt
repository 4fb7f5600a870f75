-- ===== src/Widget/Files/Read.antt =====
-- What lv_upgrade.c gets from an image file.
use openvela_frameworks_syst.Prelude.{
  ℕ, zero, suc, ◌-◌, ◌≤◌, ◌<◌, ◌≡◌, ◌⊎◌, inl, inr, refl, ap, sym, ◌∙◌, Bool, true, false, arith,
  none, some, List, [], ◌∷◌, ◌++◌, length, length-append, length-take, length-drop, take, take-all,
  drop, take-append-drop, replicate, ltb, Bool-cases,
}
use openvela_frameworks_syst.Widget.Files.{
  ImageFile, over, read_data_from_file, get_image_data_from_file,
}

-- A file that can be read: the answers are those for its bytes.
pub record IsRegular (file : ImageFile) (content : List ℕ) : Type 0 where
  pub size : file.size ≡ length content
  pub seeks : (n : ℕ) → file.seeks n ≡ true
  pub read : (position n : ℕ) → file.read position n ≡ some (take n (drop position content))

drop-all : (n : ℕ) (xs : List ℕ) → length xs ≤ n → drop n xs ≡ []
drop-all zero [] h = refl
drop-all zero (x ∷ xs) h = absurd (omega arith)
drop-all (suc n) [] h = refl
drop-all (suc n) (x ∷ xs) h = drop-all n xs (omega arith)

append_nil : (xs : List ℕ) → xs ++ [] ≡ xs
append_nil [] = refl
append_nil (x ∷ xs) = ap (λ l. x ∷ l) (append_nil xs)

length-replicate : (n : ℕ) → length {A = ℕ} (replicate n 0) ≡ n
length-replicate zero = refl
length-replicate (suc n) = omega (arith, length-replicate n)

-- Bytes that are as many as the old ones.
over_all : (new old : List ℕ) → length old ≤ length new → over new old ≡ new
over_all new old h = ap (λ l. new ++ l) (drop-all (length new) old h) ∙ append_nil new

length-over : (new old : List ℕ) → length new ≤ length old → length (over new old) ≡ length old
length-over new old h =
    omega (arith, length-append new (drop (length new) old), length-drop (length new) old)

module _ (header_size : ℕ) (allocates : ℕ → Bool) where
  read_whole :
      (file : ImageFile) (content : List ℕ)
      → IsRegular file content
      → ((n : ℕ) → allocates n ≡ true)
      → ltb (length content) header_size ≡ false
      → get_image_data_from_file header_size allocates (some file) ≡ record {
        header = over (take header_size content) (replicate header_size 0);
        pixels = some (record {
          size = length content - header_size;
          bytes = take (length content - header_size) (drop header_size content);
        });
      }
  unfolding get_image_data_from_file read_data_from_file
  read_whole file content regular room long = rw regular.size (
      rw long (
        rw (regular.seeks 0) (
          rw (regular.read 0 header_size) (
            rw (regular.seeks header_size) (
              rw (regular.read header_size (length content - header_size))
                (rw (room (length content - header_size)) refl))))))

  -- For a file that can be read, and memory enough: a file that is shorter than a header gives a
  -- header of zeros and no pixels; any other file gives its first bytes as the header and all the
  -- others as the pixels, so that the two put together are the file.
  pub get_image_data_from_file_lem :
      (file : ImageFile) (content : List ℕ)
      → IsRegular file content
      → ((n : ℕ) → allocates n ≡ true)
      → let dsct = get_image_data_from_file header_size allocates (some file) in
        ((length content < header_size)
          × (dsct ≡ record { header = replicate header_size 0; pixels = none }))
        ⊎ ((length dsct.header ≡ header_size)
            × (bytes : List ℕ) × (dsct.pixels
                ≡ some (record { size = length bytes; bytes = bytes }))
            × (dsct.header ++ bytes ≡ content))
  unfolding get_image_data_from_file read_data_from_file
  get_image_data_from_file_lem file content regular room =
      elim (Bool-cases (ltb (length content) header_size)) [
        | inl short ↦ inl (ground (arith, short), rw regular.size (rw short refl))
        | inr long ↦
            let whole = read_whole file content regular room long in
            let fits : header_size ≤ length content = ground (arith, long) in
            let bytes = drop header_size content in
            let size : length bytes ≡ length content - header_size =
              length-drop header_size content in
            let exact : take (length content - header_size) bytes ≡ bytes =
              take-all (length content - header_size) bytes (omega (arith, size)) in
            let front : over (take header_size content) (replicate header_size 0)
                ≡ take header_size content =
              over_all (take header_size content) (replicate header_size 0)
                (omega (arith, length-replicate header_size, length-take header_size content)) in
            inr (
              ap (λ d. length d.header) whole
                  ∙ ap length front
                  ∙ omega (arith, length-take header_size content),
              bytes,
              ap (λ d. d.pixels) whole
                  ∙ ap (λ l. some (record { size = length content - header_size; bytes = l })) exact
                  ∙ ap (λ n. some (record { size = n; bytes = bytes })) (sym size),
              ap (λ d. d.header ++ bytes) whole
                  ∙ ap (λ l. l ++ bytes) front
                  ∙ take-append-drop header_size content,
            )
      ]
