-- ===== src/Config/Tests.antt =====
-- The theorems on the configuration at a file of four pages.
use openvela_frameworks_syst.Prelude.{
  ◌≡◌, ◌≤◌, ◌<◌, ◌⊎◌, refl, true, false, none, some, [], ◌∷◌, ◌++◌, drop, get_elem?, arith,
}
use openvela_frameworks_syst.Prelude.Bytes.{le32}
use openvela_frameworks_syst.Config.Buffer.{
  get_image_data_from_file, get_image_data_from_file_overlaid,
}
use openvela_frameworks_syst.Lvgl.Memory.{memory}
use openvela_frameworks_syst.Lvgl.Sample.{no_page}
use openvela_frameworks_syst.Config.Check.{elements_ok}
use openvela_frameworks_syst.Config.Pages.{page_names, pages_ok}
use openvela_frameworks_syst.Config.Names.{Input}
use openvela_frameworks_syst.Config.Null.{
  null_in_pages, null_in_elements, null_in_images, ui_config_load,
}
use openvela_frameworks_syst.Config.Sample.{input, parsed}

all_ok : pages_ok input (input.children (some parsed)) ≡ true
unfolding input parsed pages_ok elements_ok
all_ok = refl

listed : get_elem? (page_names input (input.children (some parsed))) 2 ≡ some "upgrade_success_page"
unfolding input parsed page_names
listed = refl

-- An array: its members have no name.
abbrev array : Input
array = record input { has_name = λ n. false }

array_crashes : ui_config_load array memory (some "pages") no_page ≡ none
unfolding input ui_config_load null_in_pages null_in_elements null_in_images
array_crashes = refl

-- A file of six bytes, for a header of two and an address of one.
get_image_data_from_file_overlaid_example :
    let run = get_image_data_from_file 2 (64 ∷ []) (8 ∷ 9 ∷ 1 ∷ 2 ∷ 3 ∷ 4 ∷ []) in
    ((7 < 7) × (run ≡ none))
    ⊎ ((7 ≤ 7)
        × (run
            ≡ some (
                (8 ∷ 9 ∷ [])
                ++ (le32 5 ++ ((64 ∷ []) ++ drop 7 (8 ∷ 9 ∷ 1 ∷ 2 ∷ 3 ∷ 4 ∷ 0 ∷ []))))))
get_image_data_from_file_overlaid_example =
    get_image_data_from_file_overlaid 2 (64 ∷ []) (8 ∷ 9 ∷ 1 ∷ 2 ∷ 3 ∷ 4 ∷ []) (omega arith)
