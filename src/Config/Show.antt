-- ===== src/Config/Show.antt =====
-- ui_page_show of ui/ui_display.c on the pages that ui/ui_config_parse.c has read.
use openvela_frameworks_syst.Prelude.{
  ℕ, zero, suc, ◌≡◌, inl, inr, refl, true, Option, some, String, List, [], ◌∷◌, map, get_elem?,
  Option-cases,
}
use openvela_frameworks_syst.Lvgl.{Lvgl, LvglLaws, BuildLaws}
use openvela_frameworks_syst.Display.{ui_find_page, ui_page_show}
use openvela_frameworks_syst.Display.Show.{Exclusive, ui_page_show_lem}
use openvela_frameworks_syst.Display.Current.{NowShown, ui_page_show_found, ui_page_show_missing}
use openvela_frameworks_syst.Config.Names.{Input}
use openvela_frameworks_syst.Config.{ui_config_init}
use openvela_frameworks_syst.Config.Pages.{page_names, pages_ok, Loaded}
use openvela_frameworks_syst.Config.Load.{ui_config_init-Left}

map-elem :
    {A : Type 0} (f : A → Option String) (xs : List A) (names : List String) (i : ℕ) (name : String)
    → map f xs ≡ map some names
    → get_elem? names i ≡ some name
    → (x : A) × (get_elem? xs i ≡ some x) × (f x ≡ some name)
map-elem f [] [] zero name same e = absurd (cc)
map-elem f [] [] (suc i) name same e = absurd (cc)
map-elem f [] (n ∷ names) i name same e = absurd (cc)
map-elem f (x ∷ xs) [] i name same e = absurd (cc)
map-elem f (x ∷ xs) (n ∷ names) zero name same e = (x, refl, cc (same, e))
map-elem f (x ∷ xs) (n ∷ names) (suc i) name same e = map-elem f xs names i name (cc (same)) e

module _ (input : Input) (lv : Lvgl) (laws : LvglLaws lv) (builds : BuildLaws lv) where
  open input use {Node}
  open lv use {Store, Obj, screen, children, text, is_visible}

  pub Loaded-Exclusive :
      (names : List String) (s : Store) → Loaded lv laws builds names s → Exclusive lv laws s
  Loaded-Exclusive names s loaded p q here there visible visible' =
      absurd (cc (loaded.hidden p here, visible))

  -- Each name is found.
  pub Loaded-found :
      (names : List String) (s : Store) (i : ℕ) (name : String)
      → Loaded lv laws builds names s
      → get_elem? names i ≡ some name
      → (page : Obj) × (ui_find_page lv s name ≡ some page)
  Loaded-found names s i name loaded listed = elim (Option-cases (ui_find_page lv s name)) [
    | inr found ↦ found
    | inl missing ↦
        let (x, here, is_named) =
          map-elem (text s) (children s screen) names i name loaded.texts listed in
        let shown = ui_page_show_lem lv laws name s (Loaded-Exclusive names s loaded) in
        let (same, unnamed) = rw (ui_page_show_missing lv laws name s missing) at shown in
        absurd (unnamed x (i, here) is_named)
  ]

  -- For a configuration file that can be read and parsed and whose pages are all well formed, and a
  -- screen without pages: after ui_config_init, ui_page_show with the name of any page of the file
  -- returns UI_SUCCESS, ui_get_current_page_name then gives that name, and at most one page is
  -- visible.
  pub ui_page_show-ui_config_init :
      (path content : String) (root : Node) (s : Store) (i : ℕ) (name : String)
      → input.read_file path ≡ some content
      → input.parse content ≡ some root
      → children s screen ≡ []
      → pages_ok input (input.children (some root)) ≡ true
      → get_elem? (page_names input (input.children (some root))) i ≡ some name
      → let s' = (ui_config_init input lv (some path) s).1 in
        NowShown lv laws name s' (ui_page_show lv name s')
  ui_page_show-ui_config_init path content root s i name can_read can_parse empty ok listed =
      let s' = (ui_config_init input lv (some path) s).1 in
      let (fine, left) =
        ui_config_init-Left input lv laws builds path content root s can_read can_parse empty in
      let loaded = rw ok at left in
      let names = page_names input (input.children (some root)) in
      let (page, found) = Loaded-found names s' i name loaded listed in
      ui_page_show_found lv laws name s' page (Loaded-Exclusive names s' loaded) found
