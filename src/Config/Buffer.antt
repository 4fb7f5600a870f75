-- ===== src/Config/Buffer.antt =====
-- ui/ui_config_parse.c: the buffer of a file, and what get_image_data_from_file writes into it.
-- lv_image_dsc_t of LVGL is not part of the repository: it begins with its header, `data_size` and
-- the pointer `data`.
use mathlib.Core.List.{append_assoc}
use openvela_frameworks_syst.Prelude.{
  ℕ, zero, suc, ◌+◌, ◌-◌, ◌^◌, ◌≤◌, ◌<◌, ◌≡◌, ◌⊎◌, inl, inr, refl, ap, sym, ◌∙◌, true, false, arith,
  Option, none, some, List, [], ◌∷◌, ◌++◌, length, length-append, length-take, length-drop,
  drop-add, take, drop, ltb, Bool-cases, then_at, else_at, if◌then◌else◌,
}
use openvela_frameworks_syst.Prelude.Bytes.{u32, le32}

-- read_all_from_file, for a file that opens and memory enough: the buffer and `*data_size`.
abbrev pub read_all_from_file : List ℕ → List ℕ × ℕ
read_all_from_file content = (content ++ (0 ∷ []), u32 (length content + 1))

-- A store of those bytes at an offset; `none` is a store behind the end of the buffer.
pub put : ℕ → List ℕ → List ℕ → Option (List ℕ)
put at bytes buffer =
    if ltb (length buffer) (at + length bytes)
    then none
    else some (take at buffer ++ (bytes ++ drop (at + length bytes) buffer))

abbrev pub put_pointer : ℕ → List ℕ → Option (List ℕ) → Option (List ℕ)
put_pointer at pointer none = none
put_pointer at pointer (some buffer) = put at pointer buffer

-- get_image_data_from_file for a file that opens; `pointer` are the bytes of the address behind the
-- header of the buffer.
pub get_image_data_from_file : ℕ → List ℕ → List ℕ → Option (List ℕ)
unfolding put
get_image_data_from_file header_size pointer content =
    let (image_buff, data_size) = read_all_from_file content in
    put_pointer (header_size + 4) pointer
      (put header_size (le32 (u32 (data_size + 2 ^ 32 - header_size))) image_buff)

take-append_front : (m : ℕ) (p ys : List ℕ) → length p ≡ m → take m (p ++ ys) ≡ p
take-append_front zero [] ys h = refl
take-append_front zero (x ∷ p) ys h = absurd (omega arith)
take-append_front (suc m) [] ys h = absurd (omega arith)
take-append_front (suc m) (x ∷ p) ys h = ap (λ l. x ∷ l) (take-append_front m p ys (omega arith))

drop-append_front : (m : ℕ) (p ys : List ℕ) → length p ≡ m → drop m (p ++ ys) ≡ ys
drop-append_front zero [] ys h = refl
drop-append_front zero (x ∷ p) ys h = absurd (omega arith)
drop-append_front (suc m) [] ys h = absurd (omega arith)
drop-append_front (suc m) (x ∷ p) ys h = drop-append_front m p ys (omega arith)

take-append_le : (n : ℕ) (xs ys : List ℕ) → n ≤ length xs → take n (xs ++ ys) ≡ take n xs
take-append_le zero xs ys h = refl
take-append_le (suc n) [] ys h = absurd (omega arith)
take-append_le (suc n) (x ∷ xs) ys h = ap (λ l. x ∷ l) (take-append_le n xs ys (omega arith))

length-put :
    (at : ℕ) (bytes buffer : List ℕ)
    → at + length bytes ≤ length buffer
    → length (take at buffer ++ (bytes ++ drop (at + length bytes) buffer)) ≡ length buffer
length-put at bytes buffer fits = omega (
  arith,
  length-append (take at buffer) (bytes ++ drop (at + length bytes) buffer),
  length-append bytes (drop (at + length bytes) buffer),
  length-take at buffer,
  length-drop (at + length bytes) buffer,
)

-- Two stores, one behind the other.
put_both :
    (at : ℕ) (first second buffer : List ℕ)
    → at + length first + length second ≤ length buffer
    → put_pointer (at + length first) second (put at first buffer)
      ≡ some
          (take at buffer ++ (first ++ (second ++ drop (at + length first + length second) buffer)))
unfolding put
put_both at first second buffer fits =
    let k = at + length first in
    let front = take at buffer ++ first in
    let rest = drop k buffer in
    let one = take at buffer ++ (first ++ rest) in
    let here : length front ≡ k =
      omega (arith, length-append (take at buffer) first, length-take at buffer, fits) in
    let split : one ≡ front ++ rest = sym (append_assoc (take at buffer) first rest) in
    let whole = length-put at first buffer (omega (arith, fits)) in
    let room : ltb (length buffer) k ≡ false = ground (arith, fits) in
    let room' : ltb (length one) (k + length second) ≡ false = ground (arith, fits, whole) in
    let left : take k one ≡ front = ap (take k) split ∙ take-append_front k front rest here in
    let right : drop (k + length second) one ≡ drop (k + length second) buffer =
      sym (drop-add k (length second) (k + length second) one refl)
      ∙ ap (λ l. drop (length second) l) (ap (drop k) split ∙ drop-append_front k front rest here)
      ∙ drop-add k (length second) (k + length second) buffer refl in
    ap (put_pointer k second) (else_at room _ _)
    ∙ else_at room' _ _
    ∙ ap (λ l. some (l ++ (second ++ drop (k + length second) one))) left
    ∙ ap (λ l. some (front ++ (second ++ l))) right
    ∙ ap some (append_assoc (take at buffer) first (second ++ drop (k + length second) buffer))

-- The second store does not fit.
put_short :
    (at : ℕ) (first second buffer : List ℕ)
    → length buffer < at + length first + length second
    → put_pointer (at + length first) second (put at first buffer) ≡ none
unfolding put
put_short at first second buffer short =
    elim (Bool-cases (ltb (length buffer) (at + length first))) [
      | inl out ↦ ap (put_pointer (at + length first) second) (then_at out _ _)
      | inr fits ↦
          let one = take at buffer ++ (first ++ drop (at + length first) buffer) in
          let whole = length-put at first buffer (ground (arith, fits)) in
          let behind : ltb (length one) (at + length first + length second) ≡ true =
            ground (arith, whole, short) in
          ap (put_pointer (at + length first) second) (else_at fits _ _) ∙ then_at behind _ _
    ]

-- For a file of less than 2^32 - 1 bytes: if it is shorter than the header, `data_size` and the
-- pointer less one byte, get_image_data_from_file stores behind the end of its buffer; otherwise
-- the buffer is the file with a zero behind it, except that the number of bytes behind the header,
-- which counts that zero, and the pointer stand in place of the first bytes of the pixels.
pub get_image_data_from_file_overlaid :
    (header_size : ℕ) (pointer content : List ℕ)
    → length content + 1 < 2 ^ 32
    → let end = header_size + 4 + length pointer in
      let run = get_image_data_from_file header_size pointer content in
      ((length content + 1 < end) × (run ≡ none))
      ⊎ ((end ≤ length content + 1)
          × (run
              ≡ some (
                  take header_size content
                  ++ (le32 (length content + 1 - header_size)
                      ++ (pointer ++ drop end (content ++ (0 ∷ [])))))))
unfolding get_image_data_from_file le32
get_image_data_from_file_overlaid header_size pointer content small =
    let end = header_size + 4 + length pointer in
    let buffer = content ++ (0 ∷ []) in
    let size : length buffer ≡ length content + 1 = length-append content (0 ∷ []) in
    let n = u32 (u32 (length content + 1) + 2 ^ 32 - header_size) in
    elim (Bool-cases (ltb (length content + 1) end)) [
      | inl short ↦ inl (
        ground (arith, short),
        put_short header_size (le32 n) pointer buffer (ground (arith, short, size)),
      )
      | inr long ↦
          let fits : end ≤ length content + 1 = ground (arith, long) in
          let count : n ≡ length content + 1 - header_size = omega (arith, small, fits) in
          let front : take header_size buffer ≡ take header_size content =
            take-append_le header_size content (0 ∷ []) (omega (arith, fits)) in
          inr (
            fits,
            put_both header_size (le32 n) pointer buffer (omega (arith, fits, size))
                ∙ ap (λ l. some (l ++ (le32 n ++ (pointer ++ drop end buffer)))) front
                ∙ ap
                    (λ k.
                      some (take header_size content ++ (le32 k ++ (pointer ++ drop end buffer))))
                    count,
          )
    ]
