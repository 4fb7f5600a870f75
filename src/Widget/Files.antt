-- ===== src/Widget/Files.antt =====
-- ui/extra/lv_upgrade.c: the reading of an image file, and what the destructor frees. The file
-- system is the parameter `ImageFile`: the answers of lseek and read once the file is open.
pub mod Read
mod Tests
use openvela_frameworks_syst.Prelude.{
  ℕ, zero, suc, ◌+◌, ◌-◌, ◌^◌, Bool, true, false, not, Option, none, some, List, [], ◌∷◌, ◌++◌,
  length, take, drop, replicate, ltb, if◌then◌else◌,
}

-- `size` is lseek to the end as a size_t, so that an error is 2^64 - 1; `seeks` whether lseek to a
-- position succeeds; `read` what a read of so many bytes at a position gives, `none` for an error.
pub record ImageFile : Type 0 where
  pub size : ℕ
  pub seeks : ℕ → Bool
  pub read : ℕ → ℕ → Option (List ℕ)

-- What lv_malloc gave for the pixels: the bytes asked for, and those that were read into them.
pub record Pixels : Type 0 where
  pub size : ℕ
  pub bytes : List ℕ

-- lv_image_dsc_t: the bytes of its header, and the pixels, `none` for a null pointer.
pub record ImageDsc : Type 0 where
  pub header : List ℕ
  pub pixels : Option Pixels

-- The bytes of a read over those that were there.
abbrev pub over : List ℕ → List ℕ → List ℕ
over new old = new ++ drop (length new) old

-- `header_size` is sizeof(lv_image_header_t), and `allocates` whether lv_malloc gives that many
-- bytes.
module _ (header_size : ℕ) (allocates : ℕ → Bool) where
  abbrev pub no_image : ImageDsc
  no_image = record { header = replicate header_size 0; pixels = none }

  -- The second read; into a null pointer it fails.
  abbrev pub read_pixels : Option (List ℕ) → ℕ → ImageDsc → ImageDsc
  read_pixels none flen dsct = dsct
  read_pixels (some bytes) flen dsct =
      if allocates flen
      then record dsct { pixels = some (record { size = flen; bytes = bytes }) }
      else dsct

  -- read_data_from_file from the first read on.
  abbrev pub read_content : Option (List ℕ) → ImageFile → ImageDsc → ImageDsc
  read_content none file dsct = dsct
  read_content (some bytes) file dsct =
      let flen = file.size - header_size in
      let dsct : ImageDsc = record {
        header = over bytes dsct.header;
        pixels = if allocates flen then some (record { size = flen; bytes = [] }) else none;
      } in
      if file.seeks header_size then read_pixels (file.read header_size flen) flen dsct else dsct

  pub read_data_from_file : Option ImageFile → ImageDsc → ImageDsc
  read_data_from_file none dsct = dsct
  read_data_from_file (some file) dsct =
      if ltb file.size header_size
      then dsct
      else if file.seeks 0
      then read_content (file.read 0 header_size) file dsct
      else dsct

  -- get_image_data_from_file, where the descriptor can be allocated.
  pub get_image_data_from_file : Option ImageFile → ImageDsc
  unfolding read_data_from_file
  get_image_data_from_file file = read_data_from_file file no_image
