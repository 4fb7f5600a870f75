-- ===== src/Avb.antt =====
-- verify/avb_verify.c: the operations that libavb is given. The system's answers to `read` and
-- `write` are a list, so that an interrupted call is an answer too.
pub mod Partition
pub mod Rollback
pub mod Key
pub mod Command
pub mod Values
pub mod Hash
pub mod Tests
use mathlib.Core.Option
use openvela_frameworks_syst.Prelude.Int.{ℤ, pos}
use openvela_frameworks_syst.Prelude.{
  not, ◌&&◌, replicate, ℕ, zero, suc, ◌+◌, ◌-◌, Bool, true, false, Option, none, some, List, [],
  ◌∷◌, ◌++◌, take, drop, length, ltb, ◌==◌, if◌then◌else◌,
}

-- The values of AvbIOResult that the file returns.
pub data AvbIoResult : Type 0 where
  ok error_oom error_io error_no_such_partition error_range_outside_partition : AvbIoResult
  error_no_such_value error_invalid_value_size error_insufficient_space : AvbIoResult

-- An answer to one call: at most so many bytes were moved, or errno was EINTR, or another error.
-- `moved 0` is a return of 0.
pub data Answer : Type 0 where
  moved : ℕ → Answer
  interrupted failed : Answer

abbrev pub at_most : ℕ → ℕ → ℕ
at_most a b = if ltb a b then a else b

-- The bytes of one read before those of the reads that follow.
abbrev pub read_on : List ℕ → Option (List ℕ × ℕ) → Option (List ℕ × ℕ)
read_on piece none = none
read_on piece (some (rest, left)) = some (piece ++ rest, left)

-- The loop of read_from_partition: the bytes in the buffer and `num_bytes` at its end. `none` while
-- the answers given do not end the loop. The bytes are those from the file's position on.
pub read_loop : List Answer → List ℕ → ℕ → Option (List ℕ × ℕ)
read_loop answers bytes zero = some ([], 0)
read_loop [] bytes (suc num_bytes) = none
read_loop (failed ∷ answers) bytes (suc num_bytes) = some ([], suc num_bytes)
read_loop (interrupted ∷ answers) bytes (suc num_bytes) = read_loop answers bytes (suc num_bytes)
read_loop (moved n ∷ answers) [] (suc num_bytes) = some ([], suc num_bytes)
read_loop (moved zero ∷ answers) (x ∷ xs) (suc num_bytes) = some ([], suc num_bytes)
read_loop (moved (suc n) ∷ answers) (x ∷ xs) (suc num_bytes) =
    let piece = take (at_most (suc n) (suc num_bytes)) (x ∷ xs) in
    read_on piece (read_loop answers (drop (length piece) (x ∷ xs)) (suc num_bytes - length piece))

-- What read_from_partition returns after its loop, with the buffer.
abbrev pub read_result : List ℕ × ℕ → AvbIoResult × List ℕ
read_result (buffer, left) =
    if not (left == 0) && length buffer == 0 then (error_io, []) else (ok, buffer)

-- The file that a partition's name stands for: whether it opens, and where `lseek` goes.
pub record Device : Type 0 where
  pub opens : Bool
  pub seek : ℤ → Option ℕ
  pub bytes : List ℕ

-- read_from_partition: the result, and the bytes read in the order of the buffer.
pub read_from_partition : Device → List Answer → ℤ → ℕ → Option (AvbIoResult × List ℕ)
unfolding read_loop
read_from_partition device answers offset num_bytes =
    if not device.opens then some (error_no_such_partition, []) else elim (device.seek offset) [
      | none ↦ some (error_range_outside_partition, [])
      | some position ↦
          Option.map read_result (read_loop answers (drop position device.bytes) num_bytes)
    ]

abbrev pub written_on : List ℕ → Option (List ℕ × List ℕ) → Option (List ℕ × List ℕ)
written_on piece none = none
written_on piece (some (bytes, left)) = some (piece ++ bytes, left)

-- The loop of write_to_partition over the bytes of `buffer`: what the file holds from its position on
-- after it, and the bytes left.
pub write_loop : List Answer → List ℕ → List ℕ → Option (List ℕ × List ℕ)
write_loop answers [] bytes = some (bytes, [])
write_loop [] (b ∷ buffer) bytes = none
write_loop (failed ∷ answers) (b ∷ buffer) bytes = some (bytes, b ∷ buffer)
write_loop (interrupted ∷ answers) (b ∷ buffer) bytes = write_loop answers (b ∷ buffer) bytes
write_loop (moved zero ∷ answers) (b ∷ buffer) bytes = some (bytes, b ∷ buffer)
write_loop (moved (suc n) ∷ answers) (b ∷ buffer) bytes =
    let piece = take (suc n) (b ∷ buffer) in
    written_on piece
      (write_loop answers (drop (length piece) (b ∷ buffer)) (drop (length piece) bytes))

-- The zeros between the end of the file and a position past it, when a byte is written there.
abbrev pub hole : ℕ → List ℕ → List ℕ → List ℕ
hole position file [] = []
hole position file (b ∷ bytes) = replicate (position - length file) 0

-- What write_to_partition returns after its loop, with the file.
abbrev pub write_result : Device → ℕ → List ℕ × List ℕ → AvbIoResult × Device
write_result device position (bytes, left) = (
  if length left == 0 then ok else error_io,
  record device {
    bytes = take position device.bytes ++ (hole position device.bytes bytes ++ bytes);
  },
)

-- write_to_partition.
pub write_to_partition : Device → List Answer → ℤ → List ℕ → Option (AvbIoResult × Device)
unfolding write_loop
write_to_partition device answers offset buffer =
    if not device.opens then some (error_no_such_partition, device) else elim (device.seek offset) [
      | none ↦ some (error_range_outside_partition, device)
      | some position ↦
          Option.map (write_result device position)
            (write_loop answers buffer (drop position device.bytes))
    ]

-- calloc(1, length) with what was read put over its front.
abbrev pub padded : ℕ → List ℕ → List ℕ
padded n [] = replicate n 0
padded zero (x ∷ xs) = []
padded (suc n) (x ∷ xs) = x ∷ padded n xs

-- validate_public_key_for_partition behind the read: the result, and `*out_is_trusted` where it is
-- set.
abbrev pub key_result :
    (List ℕ → List ℕ → Bool) → List ℕ → AvbIoResult × List ℕ → AvbIoResult × Option Bool
key_result same key_data (ok, buffer) = (ok, some (same (padded (length key_data) buffer) key_data))
key_result same key_data (result, buffer) = (result, none)

-- validate_public_key_for_partition: `allocated` for calloc, `same` for memcmp being 0; the device is
-- the key file.
pub validate_public_key :
    Bool
    → (List ℕ → List ℕ → Bool)
    → Device
    → List Answer
    → List ℕ
    → Option (AvbIoResult × Option Bool)
unfolding read_from_partition
validate_public_key allocated same device answers key_data =
    if not allocated
    then some (error_oom, none)
    else Option.map (key_result same key_data)
        (read_from_partition device answers (pos 0) (length key_data))

-- validate_vbmeta_public_key: the other check, whose partition is not used.
abbrev pub validate_vbmeta_public_key :
    Bool
    → (List ℕ → List ℕ → Bool)
    → Device
    → List Answer
    → List ℕ
    → Option (AvbIoResult × Option Bool)
validate_vbmeta_public_key = validate_public_key
