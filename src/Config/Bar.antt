-- ===== src/Config/Bar.antt =====
-- A file of ui/ui_config_parse.c with an upgrading page, read onto an empty screen.
use text.Mathlib.Text.{◌==◌}
use openvela_frameworks_syst.Prelude.{
  ℕ, ◌≡◌, inl, inr, refl, sym, ◌∙◌, ap, Bool, true, false, ◌||◌, some, String, List, [], ◌∷◌, ◌++◌,
  length, get_elem?, get_elem?-append_last, Bool-cases,
}
use openvela_frameworks_syst.Widget.{Upgrade, UpgradeType}
use openvela_frameworks_syst.Lvgl.{
  Lvgl, LvglLaws, BuildLaws, IsPage, SameTree, plain, Style, no_style, bg_color, bg_cover,
  no_padding, full_size,
}
use openvela_frameworks_syst.Display.Tree.{SameTree-trans}
use openvela_frameworks_syst.Config.Names.{Input}
use openvela_frameworks_syst.Config.{
  parse_elements, create_page_obj, json_ui_page_parse, parse_pages,
}
use openvela_frameworks_syst.Config.Check.{elements_ok, page_ok, parse_elements_code}
use openvela_frameworks_syst.Config.Pages.{pages_ok, styled, styled-SameTree}
use openvela_frameworks_syst.Config.Load.{create_page_obj-Added}
use openvela_frameworks_syst.Config.Chain.{
  Chain, create-Chain, create_other_page, SameTree-Chain, set_text-Chain,
}
use openvela_frameworks_syst.Config.Further.{parse_elements-Chain}
use openvela_frameworks_syst.Config.Widget.{loaded}
use openvela_frameworks_syst.Config.Ready.{
  IsBarPage, HasChain, parse_elements_new, and_left, and_right,
}

module _ (input : Input) (lv : Lvgl) (laws : LvglLaws lv) (builds : BuildLaws lv) where
  open input use {Node}
  open lv use {Store, Obj, screen, children, text, same, create, style, set_text, set_hidden}

  -- The state in which the elements of a page are read.
  abbrev named_page : Node → ℕ → Store → Obj × Store
  named_page n bgcolor s =
      let r = create_page_obj input lv bgcolor s in (r.0, set_text r.0 (input.name n) r.1)

  abbrev read_page : Node → ℕ → Store → Bool × Store
  read_page n bgcolor s =
      let r = named_page n bgcolor s in parse_elements input lv (input.children (some n)) r.0 r.1

  page_runs :
      (n : Node) (bgcolor : ℕ) (s : Store)
      → page_ok input n ≡ true
      → json_ui_page_parse input lv n bgcolor s
        ≡ (some (named_page n bgcolor s).0, (read_page n bgcolor s).1)
  unfolding json_ui_page_parse
  page_runs n bgcolor s ok =
      let r = named_page n bgcolor s in
      rw (parse_elements_code input lv (input.children (some n)) r.0 r.1 ∙ ok) refl

  -- The look of a new page.
  abbrev page_look : ℕ → List Style
  page_look bgcolor = no_style ∷ bg_color bgcolor ∷ bg_cover ∷ no_padding ∷ full_size ∷ []

  create_page_obj-SameTree :
      (bgcolor : ℕ) (s : Store)
      → SameTree lv (create plain screen s).1 (create_page_obj input lv bgcolor s).1
  unfolding create_page_obj styled
  create_page_obj-SameTree bgcolor s =
      let o = (create plain screen s).0 in
      let s₀ = (create plain screen s).1 in
      let s₁ = styled lv laws builds o (page_look bgcolor) s₀ in
      SameTree-trans lv s₀ s₁ _ (styled-SameTree lv laws builds o (page_look bgcolor) s₀)
        (laws.set_hidden-SameTree o true s₁)

  -- The page with the progress widget.
  bar_page :
      (n progress : Node) (mode : UpgradeType) (key : String) (bgcolor : ℕ) (s : Store)
      → IsBarPage input n progress mode key
      → page_ok input n ≡ true
      → HasChain input lv laws builds
          (input.name n)
          (loaded input lv laws builds progress mode)
          (read_page n bgcolor s).1
  unfolding create_page_obj
  bar_page n progress mode key bgcolor s is ok =
      let r = named_page n bgcolor s in
      let added = create_page_obj-Added input lv laws builds (input.name n) bgcolor s in
      let tree = create_page_obj-SameTree bgcolor s in
      let here : IsPage lv r.1 r.0 = (
        length (children s screen),
        ap (λ l. get_elem? l (length (children s screen))) added.kids
            ∙ get_elem?-append_last (children s screen) r.0,
      ) in
      let empty : children r.1 r.0 ≡ [] =
        builds.children-set_text r.0 r.0 (input.name n) _
        ∙ tree.shape.children r.0
        ∙ builds.children-new plain screen s in
      let fine : elements_ok input (progress ∷ is.rest) ≡ true =
        ap (elements_ok input) (sym is.first) ∙ ok in
      rw is.first (
        parse_elements_new input lv laws builds progress is.rest mode key (input.name n) r.0 r.1
          is.is_object is.is_progress is.is_bar here added.named empty added.no_screen fine)

  module _ (name : String) (page base o : Obj) (u : Upgrade) where
    -- A further page.
    read_page-Chain :
        (n : Node) (bgcolor : ℕ) (s : Store)
        → Chain lv name page base o u s
        → Chain lv name page base o u (read_page n bgcolor s).1
    unfolding create_page_obj
    read_page-Chain n bgcolor s c =
        let r = named_page n bgcolor s in
        let s₀ = (create plain screen s).1 in
        let s₁ = (create_page_obj input lv bgcolor s).1 in
        let made = create-Chain lv laws builds name page base o u plain screen s c in
        let drawn =
          SameTree-Chain lv laws builds name page base o u s₀ s₁
            (create_page_obj-SameTree bgcolor s) made in
        let away = create_other_page lv laws builds name page base o u plain screen s c in
        parse_elements-Chain input lv laws builds name page base o u (input.children (some n)) r.0
          r.1 (builds.fresh_screen plain screen s)
          (set_text-Chain lv laws builds name page base o u r.0 (input.name n) s₁ away drawn)

    parse_pages-Chain :
        (ns : List Node) (bgcolor : ℕ) (s : Store)
        → pages_ok input ns ≡ true
        → Chain lv name page base o u s
        → Chain lv name page base o u (parse_pages input lv ns bgcolor s)
    unfolding parse_pages pages_ok
    parse_pages-Chain [] bgcolor s ok c = c
    parse_pages-Chain (n ∷ ns) bgcolor s ok c =
        let rest =
          and_right (input.name n == "bg_color" || page_ok input n) (pages_ok input ns) ok in
        elim (Bool-cases (input.name n == "bg_color")) [
          | inl e ↦ rw e (parse_pages-Chain ns bgcolor s rest c)
          | inr e ↦
              let fine : page_ok input n ≡ true =
                rw e at (
                  and_left (input.name n == "bg_color" || page_ok input n) (pages_ok input ns)
                    ok) in
              rw e (
                rw (page_runs n bgcolor s fine) (
                  parse_pages-Chain ns bgcolor (read_page n bgcolor s).1 rest
                    (read_page-Chain n bgcolor s c)))
        ]

  -- All pages, the one with the widget somewhere among them.
  pub parse_pages_bar :
      (before : List Node) (n progress : Node) (after : List Node) (mode : UpgradeType)
      (key : String) (bgcolor : ℕ) (s : Store)
      → pages_ok input (before ++ (n ∷ after)) ≡ true
      → (input.name n == "bg_color") ≡ false
      → IsBarPage input n progress mode key
      → HasChain input lv laws builds
          (input.name n)
          (loaded input lv laws builds progress mode)
          (parse_pages input lv (before ++ (n ∷ after)) bgcolor s)
  unfolding parse_pages pages_ok
  parse_pages_bar [] n progress after mode key bgcolor s ok not_color is =
      let rest =
        and_right (input.name n == "bg_color" || page_ok input n) (pages_ok input after) ok in
      let fine : page_ok input n ≡ true =
        rw not_color at
          (and_left (input.name n == "bg_color" || page_ok input n) (pages_ok input after) ok) in
      let (page, base, o, c) = bar_page n progress mode key bgcolor s is fine in
      (
        page,
        base,
        o,
        rw not_color (
            rw (page_runs n bgcolor s fine) (
              parse_pages-Chain (input.name n) page base o _ after bgcolor (read_page n bgcolor s).1
                rest c)),
      )
  parse_pages_bar (m ∷ before) n progress after mode key bgcolor s ok not_color is =
      let later = before ++ (n ∷ after) in
      let rest =
        and_right (input.name m == "bg_color" || page_ok input m) (pages_ok input later) ok in
      elim (Bool-cases (input.name m == "bg_color")) [
        | inl e ↦
            rw e (parse_pages_bar before n progress after mode key bgcolor s rest not_color is)
        | inr e ↦
            let fine : page_ok input m ≡ true = rw e at (
              and_left (input.name m == "bg_color" || page_ok input m) (pages_ok input later) ok) in
            rw e (
              rw (page_runs m bgcolor s fine) (
                parse_pages_bar before n progress after mode key bgcolor (read_page m bgcolor s).1
                  rest not_color is))
      ]
