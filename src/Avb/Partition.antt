-- ===== src/Avb/Partition.antt =====
-- Reads and writes of a partition in verify/avb_verify.c, whatever the sizes of the single pieces
-- are.
use mathlib.Core.Option
use mathlib.Core.List.{append_assoc}
use openvela_frameworks_syst.Prelude.{
  Bool-cases, Option-cases, if◌then◌else◌, ℕ, zero, suc, ◌+◌, ◌-◌, ◌≤◌, ◌≡◌, ◌⊎◌, inl, inr, refl,
  ap, sym, ◌∙◌, true, false, arith, some, List, [], ◌∷◌, ◌++◌, take, take-add, drop, drop-add,
  length, leb, replicate, ◌==◌, length-take, length-drop, length-append,
}
use openvela_frameworks_syst.Prelude.Int.{ℤ}
use openvela_frameworks_syst.Avb.{
  AvbIoResult, ok, error_io, error_no_such_partition, error_range_outside_partition, Answer, moved,
  interrupted, failed, at_most, Device, read_loop, read_on, read_result, read_from_partition,
  write_loop, written_on, write_result, hole, write_to_partition,
}

-- The answers that are not an interruption: each of these moves a byte or ends the loop.
abbrev pub replies : List Answer → ℕ
replies [] = 0
replies (interrupted ∷ answers) = replies answers
replies (failed ∷ answers) = suc (replies answers)
replies (moved n ∷ answers) = suc (replies answers)

take-length-take : (n : ℕ) (xs : List ℕ) → take (length (take n xs)) xs ≡ take n xs
take-length-take zero xs = refl
take-length-take (suc n) [] = refl
take-length-take (suc n) (x ∷ xs) = ap (λ l. x ∷ l) (take-length-take n xs)

-- What a loop that ends has read.
abbrev HasRead : List ℕ → ℕ → List ℕ × ℕ → Type 0
HasRead bytes num_bytes r = (r.0 ≡ take (length r.0) bytes) × (length r.0 + r.1 ≡ num_bytes)

HasRead-append :
    (m num_bytes : ℕ) (bytes rest : List ℕ) (left : ℕ)
    → length (take m bytes) ≤ num_bytes
    → HasRead (drop (length (take m bytes)) bytes) (num_bytes - length (take m bytes)) (rest, left)
    → HasRead bytes num_bytes (take m bytes ++ rest, left)
HasRead-append m num_bytes bytes rest left fits (front, size) =
    let piece = take m bytes in
    let whole = length-append piece rest in
    let parts : take (length piece) bytes ++ take (length rest) (drop (length piece) bytes)
        ≡ piece ++ rest =
      rw (take-length-take m bytes) (ap (λ l. take m bytes ++ l) (sym front)) in
    (
      sym parts ∙ take-add (length piece) (length rest) (length (piece ++ rest)) bytes (sym whole),
      omega (arith, whole, size, fits),
    )

read_loop_lem :
    (answers : List Answer) (bytes : List ℕ) (num_bytes : ℕ)
    → num_bytes ≤ replies answers
    → (r : List ℕ × ℕ) × (read_loop answers bytes num_bytes ≡ some r) × HasRead bytes num_bytes r
unfolding read_loop
read_loop_lem answers bytes zero h = (([], 0), refl, (refl, refl))
read_loop_lem [] bytes (suc n) h = absurd (omega arith)
read_loop_lem (failed ∷ answers) bytes (suc n) h = (([], suc n), refl, (refl, omega arith))
read_loop_lem (interrupted ∷ answers) bytes (suc n) h = read_loop_lem answers bytes (suc n) h
read_loop_lem (moved k ∷ answers) [] (suc n) h = (([], suc n), refl, (refl, omega arith))
read_loop_lem (moved zero ∷ answers) (x ∷ xs) (suc n) h = (([], suc n), refl, (refl, omega arith))
read_loop_lem (moved (suc k) ∷ answers) (x ∷ xs) (suc n) h =
    let m = at_most (suc k) (suc n) in
    let piece = take m (x ∷ xs) in
    let size = length-take m (x ∷ xs) in
    let (r, runs, has) =
      read_loop_lem answers (drop (length piece) (x ∷ xs)) (suc n - length piece)
        (ground (arith, size, h)) in
    (
      (piece ++ r.0, r.1),
      ap (read_on piece) runs,
      HasRead-append m (suc n) (x ∷ xs) r.0 r.1 (ground (arith, size)) has,
    )

-- The bytes that are returned with the result, against those wanted.
abbrev Fair : List ℕ → ℕ → AvbIoResult × List ℕ → Type 0
Fair bytes num_bytes r =
    (r.1 ≡ take (length r.1) bytes)
    × (length r.1 ≤ num_bytes)
    × ((r.0 ≡ error_io) ⊎ ((r.0 ≡ ok) × ((num_bytes ≡ 0) ⊎ (1 ≤ length r.1))))

read_result-Fair :
    (bytes : List ℕ) (num_bytes : ℕ) (r : List ℕ × ℕ)
    → HasRead bytes num_bytes r
    → Fair bytes num_bytes (read_result r)
read_result-Fair bytes num_bytes ([], zero) (front, size) =
    (refl, omega arith, inr (refl, inl (omega (arith, size))))
read_result-Fair bytes num_bytes ([], suc left) (front, size) =
    let wanting : (suc left == 0) ≡ false = ground arith in rw wanting (refl, omega arith, inl refl)
read_result-Fair bytes num_bytes ((x ∷ xs), zero) (front, size) =
    (front, omega (arith, size), inr (refl, inr (omega arith)))
read_result-Fair bytes num_bytes (x ∷ xs, suc left) (front, size) =
    let wanting : (suc left == 0) ≡ false = ground arith in
    let given : (suc (length xs) == 0) ≡ false = ground arith in
    rw wanting (rw given (front, omega (arith, size), inr (refl, inr (omega arith))))

-- For a partition that opens, an offset that `lseek` takes to a position, and at least `num_bytes`
-- answers that are no interruption: read_from_partition ends; what it has read is the partition from
-- that position on, at most `num_bytes` of it; it is `ok` or the I/O error, and `ok` with nothing
-- read only if nothing was asked for.
pub read_from_partition_lem :
    (device : Device) (answers : List Answer) (offset : ℤ) (position num_bytes : ℕ)
    → device.opens ≡ true
    → device.seek offset ≡ some position
    → num_bytes ≤ replies answers
    → (result : AvbIoResult) × (buffer : List ℕ) × (read_from_partition device answers offset
          num_bytes
        ≡ some (result, buffer))
      × (buffer ≡ take (length buffer) (drop position device.bytes))
      × (length buffer ≤ num_bytes)
      × ((result ≡ error_io) ⊎ ((result ≡ ok) × ((num_bytes ≡ 0) ⊎ (1 ≤ length buffer))))
unfolding read_from_partition
read_from_partition_lem device answers offset position num_bytes opens place enough =
    let (r, runs, has) = read_loop_lem answers (drop position device.bytes) num_bytes enough in
    let (front, size, kind) = read_result-Fair (drop position device.bytes) num_bytes r has in
    rw opens (
      rw place
        ((read_result r).0, (read_result r).1, ap (Option.map read_result) runs, front, size, kind))

-- The read ends on every device, whether or not it opens.
pub read_from_partition_total :
    (device : Device) (answers : List Answer) (offset : ℤ) (num_bytes : ℕ)
    → num_bytes ≤ replies answers
    → (r : AvbIoResult × List ℕ) × (read_from_partition device answers offset num_bytes ≡ some r)
unfolding read_from_partition
read_from_partition_total device answers offset num_bytes enough = elim (Bool-cases device.opens) [
  | inr closed ↦ ((error_no_such_partition, []), rw closed refl)
  | inl opens ↦ elim (Option-cases (device.seek offset)) [
    | inl outside ↦ ((error_range_outside_partition, []), rw opens (rw outside refl))
    | inr (position, place) ↦
        let (r, runs, has) = read_loop_lem answers (drop position device.bytes) num_bytes enough in
        (read_result r, rw opens (rw place (ap (Option.map read_result) runs)))
  ]
]

-- What a loop that ends has written: the front of the buffer over the front of the file.
abbrev HasWritten : List ℕ → List ℕ → List ℕ × List ℕ → Type 0
HasWritten buffer bytes r =
    (n : ℕ) × (n ≤ length buffer) × (r.0 ≡ take n buffer ++ drop n bytes) × (r.1 ≡ drop n buffer)

HasWritten-append :
    (m : ℕ) (buffer bytes : List ℕ) (r : List ℕ × List ℕ)
    → HasWritten (drop (length (take m buffer)) buffer) (drop (length (take m buffer)) bytes) r
    → HasWritten buffer bytes (take m buffer ++ r.0, r.1)
HasWritten-append m buffer bytes (out, left) (n, small, front, rest) =
    let piece = take m buffer in
    let p = length piece in
    let parts : take p buffer ++ take n (drop p buffer) ≡ take (p + n) buffer =
      take-add p n (p + n) buffer refl in
    let here : piece ++ take n (drop p buffer) ≡ take (p + n) buffer =
      ap (λ l. l ++ take n (drop p buffer)) (sym (take-length-take m buffer)) ∙ parts in
    (
      p + n,
      omega (arith, small, length-drop p buffer, length-take m buffer),
      ap (λ l. piece ++ l)
            (front ∙ ap (λ l. take n (drop p buffer) ++ l) (drop-add p n (p + n) bytes refl))
          ∙ sym (append_assoc piece (take n (drop p buffer)) (drop (p + n) bytes))
          ∙ ap (λ l. l ++ drop (p + n) bytes) here,
      rest ∙ drop-add p n (p + n) buffer refl,
    )

write_loop_lem :
    (answers : List Answer) (buffer bytes : List ℕ)
    → length buffer ≤ replies answers
    → (r : List ℕ × List ℕ) × (write_loop answers buffer bytes ≡ some r) × HasWritten buffer bytes r
unfolding write_loop
write_loop_lem answers [] bytes h = ((bytes, []), refl, (0, omega arith, refl, refl))
write_loop_lem [] (b ∷ buffer) bytes h = absurd (omega arith)
write_loop_lem (failed ∷ answers) (b ∷ buffer) bytes h =
    ((bytes, b ∷ buffer), refl, (0, omega arith, refl, refl))
write_loop_lem (interrupted ∷ answers) (b ∷ buffer) bytes h =
    write_loop_lem answers (b ∷ buffer) bytes h
write_loop_lem (moved zero ∷ answers) (b ∷ buffer) bytes h =
    ((bytes, b ∷ buffer), refl, (0, omega arith, refl, refl))
write_loop_lem (moved (suc k) ∷ answers) (b ∷ buffer) bytes h =
    let piece = take (suc k) (b ∷ buffer) in
    let (r, runs, has) =
      write_loop_lem answers (drop (length piece) (b ∷ buffer)) (drop (length piece) bytes)
        (omega (arith, h, length-drop (length piece) (b ∷ buffer))) in
    (
      (piece ++ r.0, r.1),
      ap (written_on piece) runs,
      HasWritten-append (suc k) (b ∷ buffer) bytes r has,
    )

ok_all :
    (n : ℕ) (buffer left : List ℕ)
    → n ≤ length buffer
    → left ≡ drop n buffer
    → (if length left == 0 then ok else error_io) ≡ ok
    → n ≡ length buffer
ok_all n buffer left small rest fine =
    let size : length left ≡ length buffer - n = ap length rest ∙ length-drop n buffer in
    elim (Bool-cases (length left == 0)) [
      | inl e ↦ ground (arith, size, small, e)
      | inr e ↦ absurd (ground (arith, e, fine))
    ]

-- Within the file there is no hole.
hole_within :
    (position : ℕ) (file bytes : List ℕ) → position ≤ length file → hole position file bytes ≡ []
hole_within position file [] h = refl
hole_within position file (b ∷ bytes) h =
    let none : position - length file ≡ 0 = omega arith in ap (λ n. replicate n 0) none

hole_kept :
    (position : ℕ) (bytes file : List ℕ)
    → (bytes ≡ []) ⊎ (position ≤ length file)
    → hole position file bytes ≡ []
hole_kept position bytes file (inl nothing) = ap (hole position file) nothing
hole_kept position bytes file (inr within) = hole_within position file bytes within

-- Nothing is left of a file behind its end.
drop_past : (position : ℕ) (file : List ℕ) → length file ≤ position → drop position file ≡ []
drop_past zero [] h = refl
drop_past zero (b ∷ file) h = absurd (omega arith)
drop_past (suc position) [] h = refl
drop_past (suc position) (b ∷ file) h = drop_past position file (omega arith)

hole_lem :
    (n position : ℕ) (buffer file : List ℕ)
    → n ≤ length buffer
    → hole position file (take n buffer ++ drop (position + n) file)
      ≡ replicate (if n == 0 then 0 else position - length file) 0
hole_lem zero position buffer file h =
    hole_kept position (drop (position + 0) file) file
      (elim (Bool-cases (leb (length file) position)) [
        | inl past ↦ inl (drop_past (position + 0) file (ground (arith, past)))
        | inr within ↦ inr (ground (arith, within))
      ])
hole_lem (suc n) position [] file h = absurd (omega arith)
hole_lem (suc n) position (b ∷ buffer) file h =
    let written : (suc n == 0) ≡ false = ground arith in rw written refl

-- For a partition that opens, an offset that `lseek` takes to a position, and at least as many
-- answers that are no interruption as there are bytes in the buffer: write_to_partition ends; a
-- front of the buffer is written at that position, with zeros from the end of the file to it if it
-- is past that end and the front is not empty, and nothing else is changed; and the front is the
-- whole buffer when the result is `ok`.
pub write_to_partition_lem :
    (device : Device) (answers : List Answer) (offset : ℤ) (position : ℕ) (buffer : List ℕ)
    → device.opens ≡ true
    → device.seek offset ≡ some position
    → length buffer ≤ replies answers
    → (result : AvbIoResult) × (after : Device) × (n : ℕ) × (write_to_partition device answers
          offset buffer
        ≡ some (result, after))
      × (after.bytes
          ≡ take position device.bytes
            ++ (replicate (if n == 0 then 0 else position - length device.bytes) 0
                ++ (take n buffer ++ drop (position + n) device.bytes)))
      × (n ≤ length buffer)
      × (result ≡ ok → n ≡ length buffer)
unfolding write_to_partition
write_to_partition_lem device answers offset position buffer opens place enough =
    let here = drop position device.bytes in
    let (r, runs, (n, small, front, rest)) = write_loop_lem answers buffer here enough in
    let what = write_result device position r in
    let kept = drop-add position n (position + n) device.bytes refl in
    let content = front ∙ ap (λ l. take n buffer ++ l) kept in
    simp opens (
      simp place (
        what.0,
        what.1,
        n,
        ap (Option.map (write_result device position)) runs,
        ap (λ l. take position device.bytes ++ (hole position device.bytes l ++ l)) content
            ∙ ap
                (λ l.
                  take position device.bytes
                  ++ (l ++ (take n buffer ++ drop (position + n) device.bytes)))
                (hole_lem n position buffer device.bytes small),
        small,
        ok_all n buffer r.1 small rest,
      ))
