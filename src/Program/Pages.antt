-- ===== src/Program/Pages.antt =====
-- The configuration file that the loop of ui/ui_ota.c wants, and what `main` makes of it.
use text.Mathlib.Text.{◌==◌}
use mathlib.Core.Path.{subst}
use openvela_frameworks_syst.Prelude.{
  ℕ, zero, suc, ◌-◌, ◌*◌, ◌≤◌, ◌<◌, ◌≡◌, else_at, refl, sym, ◌∙◌, ap, true, false, Option, some,
  String, List, [], ◌∷◌, ◌++◌, map, get_elem?,
}
use openvela_frameworks_syst.Prelude.Int.{pos}
use openvela_frameworks_syst.Widget.{UpgradeType}
use openvela_frameworks_syst.Lvgl.{Lvgl, LvglLaws, BuildLaws}
use openvela_frameworks_syst.Display.{
  is_found, first_upgrade, ui_find_page, ui_get_current_page_name,
}
use openvela_frameworks_syst.Display.Tree.{find_in-Found, named-some}
use openvela_frameworks_syst.Display.Progress.{HasWidget}
use openvela_frameworks_syst.Config.Names.{Input}
use openvela_frameworks_syst.Config.{
  parse_pages, color_of, ui_page_config_init, init_parsed, init_read, ui_config_init,
  ui_config_parse,
}
use openvela_frameworks_syst.Config.Pages.{page_names, pages_ok, Loaded}
use openvela_frameworks_syst.Config.Null.{null_in_pages, null_in_file_lem}
use openvela_frameworks_syst.Config.Rate.{HasRate, loaded_rate}
use openvela_frameworks_syst.Config.Load.{ui_config_init-Left}
use openvela_frameworks_syst.Config.Show.{Loaded-Exclusive, Loaded-found}
use openvela_frameworks_syst.Config.Chain.{Chain}
use openvela_frameworks_syst.Config.Widget.{images_of, datum, loaded, loaded-Filled}
use openvela_frameworks_syst.Config.Ready.{IsBarPage}
use openvela_frameworks_syst.Config.Bar.{parse_pages_bar}
use openvela_frameworks_syst.Ota.Bounds.{Inv}
use openvela_frameworks_syst.Ota.Loop.{
  Page, upgrading_page, upgrade_success_page, Ota, Outcome, finished,
}
use openvela_frameworks_syst.Ota.Screen.{page_name, Props}
use openvela_frameworks_syst.Ota.Screen.Played.{Valid}
use openvela_frameworks_syst.Ota.Screen.Finish.{screen_run_finishes}
use openvela_frameworks_syst.Program.{main, finish, config_of}

-- Every page is well formed, the four page names of the loop are there, and one page alone is the
-- upgrading page: its first element is a progress widget that shows 2 to 255 images.
pub record IsUpgradeFile (input : Input) (root : input.Node) : Type 0 where
  pub before : List input.Node
  pub page : input.Node
  pub after : List input.Node
  pub progress : input.Node
  pub mode : UpgradeType
  pub key : String
  pub split : input.children (some root) ≡ before ++ (page ∷ after)
  pub all_ok : pages_ok input (input.children (some root)) ≡ true
  pub is_named : input.name page ≡ page_name upgrading_page
  pub is_page : (input.name page == "bg_color") ≡ false
  pub is_bar : IsBarPage input page progress mode key
  pub once :
      (i j : ℕ)
      → get_elem? (page_names input (input.children (some root))) i
        ≡ some (page_name upgrading_page)
      → get_elem? (page_names input (input.children (some root))) j
        ≡ some (page_name upgrading_page)
      → i ≡ j
  pub all_pages :
      (p : Page)
      → (i : ℕ) × (get_elem? (page_names input (input.children (some root))) i ≡ some (page_name p))

elem-map :
    {A : Type 0} (f : A → Option String) (xs : List A) (names : List String) (i : ℕ) (x : A)
    (name : String)
    → map f xs ≡ map some names
    → get_elem? xs i ≡ some x
    → f x ≡ some name
    → get_elem? names i ≡ some name
elem-map f [] names zero x name same e at = absurd (cc)
elem-map f [] names (suc i) x name same e at = absurd (cc)
elem-map f (y ∷ xs) [] i x name same e at = absurd (cc)
elem-map f (y ∷ xs) (n ∷ names) zero x name same e at = cc (same, e, at)
elem-map f (y ∷ xs) (n ∷ names) (suc i) x name same e at =
    elem-map f xs names i x name (cc (same)) e at

module _ (input : Input) (lv : Lvgl) (laws : LvglLaws lv) (builds : BuildLaws lv) where
  open input use {Node}
  open lv use {Store, Obj, screen, children, text}

  -- The page with the widget is the one that ui_find_page finds.
  ui_find_page-Chain :
      (names : List String) (name : String) (page base o : Obj) (u : _) (s : Store)
      → Loaded lv laws builds names s
      → ((i j : ℕ) → get_elem? names i ≡ some name → get_elem? names j ≡ some name → i ≡ j)
      → Chain lv name page base o u s
      → ui_find_page lv s name ≡ some page
  unfolding ui_find_page
  ui_find_page-Chain names name page base o u s there_all once c =
      let (i, here) = c.here in
      let listed =
        elem-map (text s) (children s screen) names i page name there_all.texts here c.named in
      let (other, found) = Loaded-found input lv laws builds names s i name there_all listed in
      let (j, there, is_named) = rw found at (find_in-Found lv s name (children s screen)) in
      let listed' =
        elem-map (text s) (children s screen) names j other name there_all.texts there
          (named-some lv (text s other) name is_named) in
      let same = once i j listed listed' in
      found ∙ (sym there ∙ ap (get_elem? (children s screen)) (sym same) ∙ here)

  pub Chain-HasWidget :
      (name : String) (page base o : Obj) (u : _) (s : Store)
      → ui_find_page lv s name ≡ some page
      → Chain lv name page base o u s
      → HasWidget lv name o s
  unfolding first_upgrade
  Chain-HasWidget name page base o u s found c = record {
    page = page;
    base = base;
    others = c.bases;
    found = found;
    first = c.first;
    widget = rw c.inner (rw c.is_widget refl);
  }

  -- The widget of the upgrading page that ui_config_init leaves for such a file.
  pub ui_config_init-Chain :
      (path content : String) (root : Node) (s : Store) (file : IsUpgradeFile input root)
      → input.read_file path ≡ some content
      → input.parse content ≡ some root
      → children s screen ≡ []
      → (page base o : Obj) × (ui_find_page lv
            (ui_config_init input lv (some path) s).1
            (page_name upgrading_page)
          ≡ some page)
        × Chain lv
            (page_name upgrading_page)
            page
            base
            o
            (loaded input lv laws builds file.progress file.mode)
            (ui_config_init input lv (some path) s).1
  unfolding ui_config_init init_read init_parsed ui_page_config_init
  ui_config_init-Chain path content root s file can_read can_parse empty =
      let s' = (ui_config_init input lv (some path) s).1 in
      let names = page_names input (input.children (some root)) in
      let (fine, left) =
        ui_config_init-Left input lv laws builds path content root s can_read can_parse empty in
      let all_there : Loaded lv laws builds names s' = rw file.all_ok at left in
      let color = color_of input lv (input.text (input.item (some root) "bg_color")) in
      let (page, base, o, made) =
        parse_pages_bar input lv laws builds file.before file.page file.progress file.after
          file.mode file.key color s (ap (pages_ok input) (sym file.split) ∙ file.all_ok)
          file.is_page file.is_bar in
      let all_read = parse_pages input lv (file.before ++ (file.page ∷ file.after)) color s in
      let same_state : all_read ≡ s' =
        ap (λ ns. parse_pages input lv ns color s) (sym file.split)
        ∙ (rw can_read (rw can_parse refl)) in
      let name = page_name upgrading_page in
      let c : Chain lv name page base o (loaded input lv laws builds file.progress file.mode) s' =
        subst
          (λ t. Chain lv name page base o (loaded input lv laws builds file.progress file.mode) t)
          same_state
          (subst
            (λ n.
              Chain lv n page base o (loaded input lv laws builds file.progress file.mode) all_read)
            file.is_named made) in
      let found = ui_find_page-Chain names name page base o _ s' all_there file.once c in
      (page, base, o, found, c)

  -- What ui_config_init leaves for such a file.
  ui_config_init-Valid :
      (path content : String) (root : Node) (s : Store) (file : IsUpgradeFile input root)
      → input.read_file path ≡ some content
      → input.parse content ≡ some root
      → children s screen ≡ []
      → HasRate input file.progress
      → (o : Obj) × Valid lv laws
          (map (datum input) (images_of input file.progress))
          o
          (ui_config_init input lv (some path) s).1
  ui_config_init-Valid path content root s file can_read can_parse empty rate =
      let s' = (ui_config_init input lv (some path) s).1 in
      let names = page_names input (input.children (some root)) in
      let (fine, left) =
        ui_config_init-Left input lv laws builds path content root s can_read can_parse empty in
      let all_there : Loaded lv laws builds names s' = rw file.all_ok at left in
      let name = page_name upgrading_page in
      let (page, base, o, found, c) =
        ui_config_init-Chain path content root s file can_read can_parse empty in
      let (filled, sync) =
        loaded-Filled input lv laws builds file.progress file.mode file.key file.is_bar.is_bar in
      (
        o,
        record {
          exclusive = Loaded-Exclusive input lv laws builds names s' all_there;
          ready = record {
            has = Chain-HasWidget name page base o _ s' found c;
            filled = rw c.state filled;
            rate = rw c.state (
                loaded_rate input lv laws builds file.progress file.mode
                  file.is_bar.is_bar.no_digits rate);
            sync = rw c.state sync;
          };
        },
      )

  -- For a configuration file that can be read and parsed, whose pages are all well formed and
  -- include the four pages of the loop, one upgrading page alone, with a progress widget for 2 to
  -- 255 images as its first element, whose "animation_fps" and "animation_radius" are not 0 in 16
  -- bits where they are given, and in which the reader comes to no member without a name; for a
  -- `sync_time` of at least 1, a screen without pages, a progress at `c` up to 100, once node 100
  -- has been read and while the property says 100: `main` of ui_ota reads the file, shows the pages
  -- without a crash and ends its loop by itself within 3 * (100 - c) + 1 rounds, and
  -- ui_get_current_page_name then gives the success page.
  pub main_finishes :
      (path content : String) (root : Node) (sync_time : ℕ) (props : ℕ → Props) (m c : ℕ) (st : Ota)
      (s : Store) (file : IsUpgradeFile input root)
      → HasRate input file.progress
      → null_in_pages input (input.children (some root)) ≡ false
      → 1 ≤ sync_time
      → input.read_file (config_of path) ≡ some content
      → input.parse content ≡ some root
      → children s screen ≡ []
      → ((j : ℕ) → (props j).0 ≡ some (pos 100))
      → Inv st.progress
      → st.progress.prev_node ≡ pos 100
      → st.progress.current ≡ pos c
      → c ≤ 100
      → 3 * (100 - c) < m
      → (o : Outcome) × (s' : Store) × (main input lv sync_time false path m props st s
          ≡ some (some o, s'))
        × (o.next ≡ finished)
        × (ui_get_current_page_name lv s' ≡ some (page_name upgrade_success_page))
  unfolding main ui_config_parse
  main_finishes path content root sync_time props m c st s file rate named period can_read can_parse
        empty at_end v at_100 at_c low long =
      let names = page_names input (input.children (some root)) in
      let r = ui_config_init input lv (some (config_of path)) s in
      let (fine, left) =
        ui_config_init-Left input lv laws builds (config_of path) content root s can_read can_parse
          empty in
      let all_there : Loaded lv laws builds names r.1 = rw file.all_ok at left in
      let (widget, valid) =
        ui_config_init-Valid (config_of path) content root s file can_read can_parse empty rate in
      let pages : (p : Page) → is_found (ui_find_page lv r.1 (page_name p)) ≡ true = λ p.
        let (i, listed) = file.all_pages p in
        let (page, found) =
          Loaded-found input lv laws builds names r.1 i (page_name p) all_there listed in
        ap is_found found in
      let (o, s', runs, over, reached, current) =
        screen_run_finishes lv laws (map (datum input) (images_of input file.progress)) widget
          sync_time props m 0 c st r.1 period valid pages at_end v at_100 at_c low long in
      let safe = null_in_file_lem input (config_of path) content root can_read can_parse ∙ named in
      (
        o,
        s',
        else_at safe _ _ ∙ (rw fine (ap (finish input lv sync_time false) runs)),
        over,
        current,
      )
