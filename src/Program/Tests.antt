-- ===== src/Program/Tests.antt =====
-- The whole of `main` at a file of four pages.
use openvela_frameworks_syst.Prelude.{
  ℕ, zero, suc, ◌≡◌, refl, sym, ◌∙◌, false, some, List, [], ◌∷◌, get_elem?, arith,
}
use openvela_frameworks_syst.Prelude.Int.{pos}
use openvela_frameworks_syst.Widget.{bar}
use openvela_frameworks_syst.Config.Names.{string_2_id}
use openvela_frameworks_syst.Config.Check.{elements_ok}
use openvela_frameworks_syst.Config.Pages.{page_names, pages_ok}
use openvela_frameworks_syst.Config.Widget.{IsImageBar}
use openvela_frameworks_syst.Config.Ready.{IsBarPage}
use openvela_frameworks_syst.Config.Sample.{
  input, parsed, upgrading_node, progress_node, logo, done, failed, label,
}
use openvela_frameworks_syst.Ota.Loop.{
  Page, logo_page, upgrading_page, upgrade_success_page, upgrade_fail_page,
}
use openvela_frameworks_syst.Ota.Screen.{page_name}
use openvela_frameworks_syst.Program.Options.{Libc, Argument, start, config_file, Settings}
use openvela_frameworks_syst.Program.Pages.{IsUpgradeFile}

bar_image : IsImageBar input progress_node bar "bar"
unfolding input string_2_id progress_node
bar_image = record {
  named = refl;
  known = refl;
  no_digits = refl;
  valid = refl;
  area = refl;
  two = omega arith;
  small = omega arith;
}

bar_page : IsBarPage input upgrading_node progress_node bar "bar"
unfolding input upgrading_node progress_node
bar_page = record {
  rest = label ∷ [];
  first = refl;
  is_object = refl;
  is_progress = refl;
  is_bar = bar_image;
}

one_upgrading :
    (i : ℕ)
    → get_elem? (page_names input (input.children (some parsed))) i ≡ some "upgrading_page"
    → i ≡ 1
unfolding input parsed page_names
one_upgrading zero e = absurd (cc)
one_upgrading (suc zero) e = refl
one_upgrading (suc (suc zero)) e = absurd (cc)
one_upgrading (suc (suc (suc zero))) e = absurd (cc)
one_upgrading (suc (suc (suc (suc i)))) e = absurd (cc)

listed_pages :
    (p : Page)
    → (i : ℕ) × (get_elem? (page_names input (input.children (some parsed))) i ≡ some (page_name p))
unfolding input parsed page_names
listed_pages logo_page = (0, refl)
listed_pages upgrading_page = (1, refl)
listed_pages upgrade_success_page = (2, refl)
listed_pages upgrade_fail_page = (3, refl)

file : IsUpgradeFile input parsed
unfolding input parsed pages_ok elements_ok upgrading_node
file = record {
  before = logo ∷ [];
  page = upgrading_node;
  after = done ∷ failed ∷ [];
  progress = progress_node;
  mode = bar;
  key = "bar";
  split = refl;
  all_ok = refl;
  is_named = refl;
  is_page = refl;
  is_bar = bar_page;
  once = λ i j e e'. one_upgrading i e ∙ sym (one_upgrading j e');
  all_pages = listed_pages;
}

abbrev libc : Libc
libc = record { strtoul = λ digits. 90; snprintf = λ size path. path }

-- `ota_ui -p 90 -c pages`
abbrev choices : List Argument
choices = start "90" ∷ config_file "pages" ∷ []

abbrev set : Settings
set = record { config_path = "pages"; current = pos 90; logo_mode = false }
