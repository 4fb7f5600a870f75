-- ===== src/Widget/Files/Tests.antt =====
-- The theorem on image files at a file of five bytes, for a header of two.
use openvela_frameworks_syst.Prelude.{
  ℕ, ◌<◌, ◌≡◌, ◌⊎◌, refl, true, none, some, List, [], ◌∷◌, ◌++◌, length, take, drop, replicate,
}
use openvela_frameworks_syst.Widget.Files.{ImageFile, get_image_data_from_file}
use openvela_frameworks_syst.Widget.Files.Read.{IsRegular, get_image_data_from_file_lem}

abbrev content : List ℕ
content = 8 ∷ 9 ∷ 1 ∷ 2 ∷ 3 ∷ []

abbrev file : ImageFile
file = record {
  size = 5;
  seeks = λ n. true;
  read = λ position n. some (take n (drop position content));
}

file-IsRegular : IsRegular file content
file-IsRegular = record { size = refl; seeks = λ n. refl; read = λ position n. refl }

get_image_data_from_file_lem_example :
    let dsct = get_image_data_from_file 2 (λ n. true) (some file) in
    ((length content < 2) × (dsct ≡ record { header = replicate 2 0; pixels = none }))
    ⊎ ((length dsct.header ≡ 2)
        × (bytes : List ℕ) × (dsct.pixels ≡ some (record { size = length bytes; bytes = bytes }))
        × (dsct.header ++ bytes ≡ content))
get_image_data_from_file_lem_example =
    get_image_data_from_file_lem 2 (λ n. true) file content file-IsRegular (λ n. refl)
