-- ===== src/Config/Load.antt =====
-- How ui/ui_config_parse.c reads its file onto an empty screen.
use text.Mathlib.Text.{◌==◌}
use mathlib.Core.List.{append-nil, append_assoc}
use openvela_frameworks_syst.Prelude.{
  ℕ, zero, suc, ◌≡◌, ◌≢◌, inl, inr, refl, sym, ◌∙◌, ap, Bool, true, false, none, some, String, List,
  [], ◌∷◌, ◌++◌, map, length, get_elem?, get_elem?-append_left, get_elem?-append_last, Bool-cases,
  then_at, else_at,
}
use openvela_frameworks_syst.Code.{success}
use openvela_frameworks_syst.Lvgl.{
  Lvgl, LvglLaws, BuildLaws, IsPage, plain, no_style, bg_color, bg_cover, no_padding, full_size,
}
use openvela_frameworks_syst.Display.Tree.{IsPage-SameTree}
use openvela_frameworks_syst.Config.Names.{Input}
use openvela_frameworks_syst.Config.{
  create_page_obj, json_ui_page_parse, parse_elements, parse_pages, ui_page_config_init,
  init_parsed, init_read, ui_config_init,
}
use openvela_frameworks_syst.Config.Elements.{parse_elements-Kept}
use openvela_frameworks_syst.Config.Check.{page_ok, parse_elements_code}
use openvela_frameworks_syst.Config.Pages.{
  page_names, pages_ok, Loaded, Kept-Loaded, styled, styled-SameTree, is_visible-styled, Added,
  Added-Loaded,
}

no_elem : {A : Type 0} (i : ℕ) (q : A) → get_elem? [] i ≢ some q
no_elem zero q e = absurd (cc)
no_elem (suc i) q e = absurd (cc)

module _ (input : Input) (lv : Lvgl) (laws : LvglLaws lv) (builds : BuildLaws lv) where
  open input use {Node}
  open lv use {
    Store, Obj, screen, children, text, is_visible, same, style, create, set_hidden, set_text,
    clean,
  }

  pub create_page_obj-Added :
      (name : String) (bgcolor : ℕ) (s : Store)
      → let r = create_page_obj input lv bgcolor s in
        Added lv laws builds name r.0 s (set_text r.0 name r.1)
  unfolding create_page_obj styled
  create_page_obj-Added name bgcolor s =
      let o = (create plain screen s).0 in
      let s₀ = (create plain screen s).1 in
      let ts = no_style ∷ bg_color bgcolor ∷ bg_cover ∷ no_padding ∷ full_size ∷ [] in
      let s₁ = styled lv laws builds o ts s₀ in
      let s₂ = set_hidden o true s₁ in
      let self : same o o ≡ true = (laws.same_iff o o).1 refl in
      let top = builds.fresh_screen plain screen s in
      let kids₀ : children s₀ screen ≡ children s screen ++ (o ∷ []) =
        builds.children-create plain screen screen s top
        ∙ then_at ((laws.same_iff screen screen).1 refl) _ _ in
      let one = styled-SameTree lv laws builds o ts s₀ in
      let two = laws.set_hidden-SameTree o true s₁ in
      let at₀ : (q : Obj) → IsPage lv s q → IsPage lv s₀ q = λ q (i, e). (
        i,
        ap (λ l. get_elem? l i) kids₀ ∙ get_elem?-append_left (children s screen) (o ∷ []) i q e,
      ) in
      let last : IsPage lv s₁ o = IsPage-SameTree lv s₀ s₁ o one (
        length (children s screen),
        ap (λ l. get_elem? l (length (children s screen))) kids₀
            ∙ get_elem?-append_last (children s screen) o,
      ) in
      let other : (q : Obj) → IsPage lv s q → same o q ≡ false =
        λ q (i, e). builds.fresh plain screen q screen s i e in
      record {
        kids =
            builds.children-set_text o screen name s₂
            ∙ two.shape.children screen
            ∙ one.shape.children screen
            ∙ kids₀;
        named = builds.text-set_text o o name s₂ ∙ then_at self _ _;
        texts = λ q p.
            builds.text-set_text o q name s₂
            ∙ else_at (other q p) _ _
            ∙ two.shape.text q
            ∙ one.shape.text q
            ∙ builds.text-create plain screen q s (other q p);
        dark =
            builds.is_visible-set_text o o name s₂
            ∙ laws.is_visible-set_hidden o o true s₁ last last
            ∙ then_at self _ _;
        seen = λ q p.
            builds.is_visible-set_text o q name s₂
            ∙ laws.is_visible-set_hidden o q true s₁ last (IsPage-SameTree lv s₀ s₁ q one (at₀ q p))
            ∙ else_at (other q p) _ _
            ∙ is_visible-styled lv laws builds o q ts s₀ (at₀ q p) (other q p) top
            ∙ builds.is_visible-create plain screen q s p;
        no_screen = top;
      }

  -- A well-formed page is added; any other one empties the screen.
  pub page_added :
      (n : Node) (bgcolor : ℕ) (names : List String) (s : Store)
      → Loaded lv laws builds names s
      → page_ok input n ≡ true
      → (o : Obj) × (s' : Store) × (json_ui_page_parse input lv n bgcolor s ≡ (some o, s'))
        × Loaded lv laws builds (names ++ (input.name n ∷ [])) s'
  unfolding json_ui_page_parse
  page_added n bgcolor names s loaded ok =
      let r = create_page_obj input lv bgcolor s in
      let s₁ = set_text r.0 (input.name n) r.1 in
      let added = create_page_obj-Added (input.name n) bgcolor s in
      let read = parse_elements input lv (input.children (some n)) r.0 s₁ in
      (
        r.0,
        read.1,
        rw (parse_elements_code input lv (input.children (some n)) r.0 s₁ ∙ ok) refl,
        Kept-Loaded lv laws builds _ s₁ read.1
            (parse_elements-Kept input lv laws builds (input.children (some n)) r.0 s₁
              added.no_screen)
            (Added-Loaded lv laws builds (input.name n) names r.0 s s₁ added loaded),
      )

  page_refused :
      (n : Node) (bgcolor : ℕ) (s : Store)
      → page_ok input n ≡ false
      → (s' : Store) × (json_ui_page_parse input lv n bgcolor s ≡ (none, s'))
        × (children s' screen ≡ [])
  unfolding json_ui_page_parse
  page_refused n bgcolor s bad =
      let r = create_page_obj input lv bgcolor s in
      let s₁ = set_text r.0 (input.name n) r.1 in
      let read = parse_elements input lv (input.children (some n)) r.0 s₁ in
      (
        clean screen read.1,
        rw (parse_elements_code input lv (input.children (some n)) r.0 s₁ ∙ bad) refl,
        builds.children-clean screen read.1,
      )

  -- What the reader leaves: all pages, or none where one is not well formed.
  abbrev pub Left : Bool → List String → Store → Type 0
  Left true names s = Loaded lv laws builds names s
  Left false names s = children s screen ≡ []

  parse_pages-Left :
      (ns : List Node) (bgcolor : ℕ) (names : List String) (s : Store)
      → Loaded lv laws builds names s
      → Left (pages_ok input ns) (names ++ page_names input ns) (parse_pages input lv ns bgcolor s)
  unfolding parse_pages page_names pages_ok
  parse_pages-Left [] bgcolor names s loaded = rw (append-nil names) loaded
  parse_pages-Left (n ∷ ns) bgcolor names s loaded =
      elim (Bool-cases (input.name n == "bg_color")) [
        | inl e ↦ rw e (parse_pages-Left ns bgcolor names s loaded)
        | inr e ↦ elim (Bool-cases (page_ok input n)) [
          | inr bad ↦
              let (s', runs, empty) = page_refused n bgcolor s bad in rw e (rw bad (rw runs empty))
          | inl ok ↦
              let (o, s', runs, next) = page_added n bgcolor names s loaded ok in
              rw e (
                rw ok (
                  rw runs (
                    rw (sym (append_assoc names (input.name n ∷ []) (page_names input ns)))
                      (parse_pages-Left ns bgcolor (names ++ (input.name n ∷ [])) s' next))))
        ]
      ]

  empty-Loaded : (s : Store) → children s screen ≡ [] → Loaded lv laws builds [] s
  empty-Loaded s empty = record {
    texts = ap (map (text s)) empty;
    hidden = λ q (i, e). absurd (no_elem i q (ap (λ l. get_elem? l i) (sym empty) ∙ e));
  }

  -- For a configuration file that can be read and parsed and whose members have names, and a screen
  -- without pages: ui_config_init returns UI_SUCCESS. If every page is well formed, the screen then
  -- has exactly the pages of the file, by their names and in their order, and none is visible; if
  -- one is not, the screen has no page.
  pub ui_config_init-Left :
      (path content : String) (root : Node) (s : Store)
      → input.read_file path ≡ some content
      → input.parse content ≡ some root
      → children s screen ≡ []
      → let r = ui_config_init input lv (some path) s in
        let pages = input.children (some root) in
        (r.0 ≡ success) × Left (pages_ok input pages) (page_names input pages) r.1
  unfolding ui_config_init init_read init_parsed ui_page_config_init
  ui_config_init-Left path content root s can_read can_parse empty =
      rw can_read (rw can_parse (refl, parse_pages-Left _ _ [] s (empty-Loaded s empty)))
