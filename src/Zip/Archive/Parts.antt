-- ===== src/Zip/Archive/Parts.antt =====
-- A signed archive put together from its parts, and what parse_app_block finds in it.
use mathlib.Core.List.{append_assoc}
use openvela_frameworks_syst.Prelude.{
  ℕ, ◌+◌, ◌-◌, ◌^◌, ◌<◌, ◌≤◌, ◌≡◌, refl, ap, ◌∙◌, true, some, List, ◌++◌, arith, length,
  length-append, drop, drop-length_append,
}
use openvela_frameworks_syst.Prelude.Bytes.{u32, le32, le64, read32-le32, read64-le64}
use openvela_frameworks_syst.Zip.Archive.{
  AppBlock, magic, same_bytes, seek_end, sub32, parse_file, parse_app_block,
}

-- `pairs` is the content of the signing block, `head` the sixteen bytes of the end record before the
-- offset of the central directory, and `tail` the comment's length and the comment.
pub record Parts : Type 0 where
  pub entries : List ℕ
  pub pairs : List ℕ
  pub directory : List ℕ
  pub head : List ℕ
  pub tail : List ℕ

-- What the archive's writer puts into both length fields, and the offset that it puts into the end
-- record.
unfoldable pub signature_len : Parts → ℕ
signature_len p = length p.pairs + 24

unfoldable pub directory_offset : Parts → ℕ
directory_offset p = length p.entries + (length p.pairs + 32)

unfoldable pub archive : Parts → List ℕ
archive p =
    p.entries
    ++ (le64 (signature_len p)
        ++ (p.pairs
            ++ (le64 (signature_len p)
                ++ (magic ++ (p.directory ++ (p.head ++ (le32 (directory_offset p) ++ p.tail)))))))

pub drop_at {ℓ} : {A : Type ℓ} (n : ℕ) (xs ys : List A) → n ≡ length xs → drop n (xs ++ ys) ≡ ys
drop_at n xs ys e = rw e (drop-length_append xs ys)

sub32_lem : (a b : ℕ) → b ≤ a → a < 2 ^ 32 → sub32 a b ≡ a - b
unfolding sub32
sub32_lem a b h k = omega arith

seek_end_lem :
    (file : List ℕ) (back position : ℕ)
    → back ≤ length file
    → seek_end file back position ≡ length file - back
unfolding seek_end
seek_end_lem file back position h = ground arith

directory_offset_lem : (p : Parts) → directory_offset p ≡ length p.entries + (length p.pairs + 32)
unfolding directory_offset
directory_offset_lem p = refl

signature_len_lem : (p : Parts) → signature_len p ≡ length p.pairs + 24
unfolding signature_len
signature_len_lem p = refl

u32_lem : (n : ℕ) → n < 2 ^ 32 → u32 n ≡ n
u32_lem n h = omega arith

length-le64 : (n : ℕ) → length (le64 n) ≡ 8
unfolding le64
length-le64 n = omega arith

length-le32 : (n : ℕ) → length (le32 n) ≡ 4
unfolding le32
length-le32 n = omega arith

module _ (p : Parts) where
  abbrev offset_on : List ℕ
  offset_on = le32 (directory_offset p) ++ p.tail

  abbrev magic_on : List ℕ
  magic_on = magic ++ (p.directory ++ (p.head ++ offset_on))

  abbrev length_on : List ℕ
  length_on = le64 (signature_len p) ++ magic_on

  abbrev before_length : List ℕ
  before_length = p.entries ++ (le64 (signature_len p) ++ p.pairs)

  abbrev before_offset : List ℕ
  before_offset = before_length ++ (le64 (signature_len p) ++ (magic ++ (p.directory ++ p.head)))

  split_length : archive p ≡ before_length ++ length_on
  unfolding archive
  split_length = simp append_assoc

  split_magic : archive p ≡ (before_length ++ le64 (signature_len p)) ++ magic_on
  unfolding archive
  split_magic = simp append_assoc

  split_offset : archive p ≡ before_offset ++ offset_on
  unfolding archive
  split_offset = simp append_assoc

  length-archive :
      length (archive p)
      ≡ directory_offset p + length p.directory + length p.head + 4 + length p.tail
  unfolding archive signature_len directory_offset
  length-archive = omega (arith, length-append {0}, length-le64, length-le32)

  length-before_length : length before_length ≡ length p.entries + length p.pairs + 8
  length-before_length = omega (arith, length-append {0}, length-le64)

  length-before_magic :
      length (before_length ++ le64 (signature_len p)) ≡ length p.entries + length p.pairs + 16
  length-before_magic = omega (arith, length-append {0}, length-le64)

  length-before_offset :
      length before_offset
      ≡ length p.entries + length p.pairs + 32 + length p.directory + length p.head
  length-before_offset = omega (arith, length-append {0}, length-le64)

  -- The three positions that are read.
  module _ (c : ℕ) (hc : length p.tail ≡ c + 2) (hh : length p.head ≡ 16)
      (small : length (archive p) < 2 ^ 32) where
    fits : directory_offset p < 2 ^ 32
    fits = omega (arith, length-archive)

    offset_place : seek_end (archive p) (c + 6) 0 ≡ length before_offset
    offset_place =
        seek_end_lem (archive p) (c + 6) 0 (omega (arith, length-archive))
        ∙ omega (arith, length-archive, length-before_offset, directory_offset_lem p)

    at_offset : drop (seek_end (archive p) (c + 6) 0) (archive p) ≡ offset_on
    at_offset =
        ap (λ l. drop (seek_end (archive p) (c + 6) 0) l) split_offset
        ∙ drop_at (seek_end (archive p) (c + 6) 0) before_offset offset_on offset_place

    at_magic : drop (sub32 (directory_offset p) 16) (archive p) ≡ magic_on
    at_magic =
        ap (λ l. drop (sub32 (directory_offset p) 16) l) split_magic
        ∙ drop_at _ (before_length ++ le64 (signature_len p)) magic_on (
            sub32_lem (directory_offset p) 16 (omega (arith, directory_offset_lem p)) fits
            ∙ omega (arith, length-before_magic, directory_offset_lem p))

    at_length : drop (sub32 (directory_offset p) 24) (archive p) ≡ length_on
    at_length =
        ap (λ l. drop (sub32 (directory_offset p) 24) l) split_length
        ∙ drop_at _ before_length length_on (
            sub32_lem (directory_offset p) 24 (omega (arith, directory_offset_lem p)) fits
            ∙ omega (arith, length-before_length, directory_offset_lem p))

    eocd_fits : directory_offset p + length p.directory < 2 ^ 32
    eocd_fits = omega (arith, length-archive)

    tail_fits : c + 22 < 2 ^ 32
    tail_fits = omega (arith, length-archive)

    same_len : u32 (signature_len p) ≡ length p.pairs + 24
    same_len = omega (arith, fits, signature_len_lem p, directory_offset_lem p)

    signature_place : sub32 (directory_offset p) (length p.pairs + 24) ≡ length p.entries + 8
    signature_place =
        sub32_lem _ _ (omega (arith, directory_offset_lem p)) fits
        ∙ omega (arith, directory_offset_lem p)

    entries_len : sub32 (length p.entries + 8) 8 ≡ length p.entries
    entries_len =
        sub32_lem _ _ (omega arith) (omega (arith, fits, directory_offset_lem p)) ∙ omega arith

    eocd_place :
        (position : ℕ)
        → seek_end (archive p) (c + 22) position ≡ directory_offset p + length p.directory
    eocd_place position =
        seek_end_lem (archive p) (c + 22) position (omega (arith, length-archive))
        ∙ omega (arith, length-archive)

    directory_len :
        sub32 (directory_offset p + length p.directory) (directory_offset p) ≡ length p.directory
    directory_len = sub32_lem _ _ (omega arith) eocd_fits ∙ omega arith

    parsed : AppBlock
    parsed = record {
      data_block = record { start = 0; len = length p.entries };
      signature_block = record { start = length p.entries + 8; len = length p.pairs + 24 };
      central_directory_block = record { start = directory_offset p; len = length p.directory };
      eocd_block = record { start = directory_offset p + length p.directory; len = c + 22 };
    }

    parse_file-archive : parse_file (archive p) c ≡ some parsed
    unfolding parse_file parsed same_bytes
    parse_file-archive = rw at_offset (
        rw (read32-le32 (directory_offset p) p.tail fits) (
          rw at_magic (
            rw at_length (
              rw
                (read64-le64 (signature_len p) magic_on
                  (omega (arith, fits, signature_len_lem p, directory_offset_lem p)))
                (rw same_len (
                  rw (signature_place, entries_len, eocd_place)
                    (rw (
                      u32_lem (directory_offset p + length p.directory) eocd_fits,
                      directory_len,
                      u32_lem (c + 22) tail_fits,
                    ))))))))

    -- Of an archive laid out as its parts, with a comment of `c` bytes and less than 2^32 bytes in
    -- all, parse_app_block finds the entries, the content of the signing block with its second
    -- length and the magic, the central directory, and the end record with the comment.
    pub parse_app_block-archive :
        parse_app_block true (some (archive p)) c
        ≡ some (record {
          data_block = record { start = 0; len = length p.entries };
          signature_block = record { start = length p.entries + 8; len = length p.pairs + 24 };
          central_directory_block = record { start = directory_offset p; len = length p.directory };
          eocd_block = record { start = directory_offset p + length p.directory; len = c + 22 };
        })
    unfolding parse_app_block parsed
    parse_app_block-archive = parse_file-archive
