-- ===== src/Config/Ready.antt =====
-- A page with a progress widget, read by ui/ui_config_parse.c.
use text.Mathlib.Text.{starts_with}
use openvela_frameworks_syst.Prelude.{
  ◌≡◌, refl, ◌∙◌, ap, Bool, true, false, ◌&&◌, some, String, List, [], ◌∷◌, ◌++◌, get_elem?,
  then_at, else_at,
}
use openvela_frameworks_syst.Widget.{Upgrade, UpgradeType, num, constructed}
use openvela_frameworks_syst.Lvgl.{
  Lvgl, LvglLaws, BuildLaws, IsPage, plain, upgrade_widget, no_style,
}
use openvela_frameworks_syst.Config.Names.{Input}
use openvela_frameworks_syst.Config.{
  json_ui_obj_parse, json_progress_parse, json_ui_page_cont_parse, parse_elements,
}
use openvela_frameworks_syst.Config.Kept.{create-Kept}
use openvela_frameworks_syst.Config.Elements.{below, below-Fresh, json_ui_obj_parse-Drawn}
use openvela_frameworks_syst.Config.Check.{
  element_ok, elements_ok, succeeds-json_ui_obj_parse, succeeds-json_ui_page_cont_parse,
}
use openvela_frameworks_syst.Config.Chain.{Chain, SameTree-Chain}
use openvela_frameworks_syst.Config.Further.{parse_elements-Chain}
use openvela_frameworks_syst.Config.Widget.{IsImageBar, loaded, set_mode_own}

-- The page of a node is that of a progress widget for images, as its first element.
pub record IsBarPage (input : Input) (page progress : input.Node) (mode : UpgradeType)
    (key : String) : Type 0 where
  pub rest : List input.Node
  pub first : input.children (some page) ≡ progress ∷ rest
  pub is_object : input.is_object (some progress) ≡ true
  pub is_progress : starts_with (input.name progress) "progress" ≡ true
  pub is_bar : IsImageBar input progress mode key

pub and_left : (a b : Bool) → (a && b) ≡ true → a ≡ true
and_left true b e = refl
and_left false b e = absurd (cc)

pub and_right : (a b : Bool) → (a && b) ≡ true → b ≡ true
and_right true b e = e
and_right false b e = absurd (cc)

module _ (input : Input) (lv : Lvgl) (laws : LvglLaws lv) (builds : BuildLaws lv) where
  open input use {Node, item}
  open lv use {Store, Obj, screen, children, text, same, create, style, set_text, set_hidden}

  -- Some widget of that page is in that state.
  abbrev pub HasChain : String → Upgrade → Store → Type 0
  HasChain name u s = (page : Obj) × (base : Obj) × (o : Obj) × Chain lv name page base o u s

  -- The widget below an empty page, before it is set up.
  below-new :
      (name : String) (page : Obj) (s : Store)
      → IsPage lv s page
      → text s page ≡ some name
      → children s page ≡ []
      → same page screen ≡ false
      → let r = below input lv laws builds upgrade_widget page s in
        Chain lv name page (create plain page s).0 r.0 (constructed num) r.1
  below-new name page s (i, e) named empty other =
      let b = (create plain page s).0 in
      let s₁ = (create plain page s).1 in
      let s₂ = style no_style b s₁ in
      let x = (create upgrade_widget b s₂).0 in
      let s₃ = (create upgrade_widget b s₂).1 in
      let tree = laws.style-SameTree no_style b s₁ in
      let b_page = builds.fresh plain page page screen s i e in
      let first₁ : children s₁ page ≡ b ∷ [] =
        builds.children-create plain page page s b_page
        ∙ then_at ((laws.same_iff page page).1 refl) _ _
        ∙ ap (λ l. l ++ (b ∷ [])) empty in
      let first₂ = tree.shape.children page ∙ first₁ in
      let inner₂ : children s₂ b ≡ [] = tree.shape.children b ∙ builds.children-new plain page s in
      let kids₂ : children s₂ screen ≡ children s screen =
        tree.shape.children screen ∙ (create-Kept lv laws builds plain page s other).kids in
      let e₂ : get_elem? (children s₂ screen) i ≡ some page = ap (λ l. get_elem? l i) kids₂ ∙ e in
      let x_page = builds.fresh upgrade_widget b page screen s₂ i e₂ in
      let x_b = builds.fresh upgrade_widget b b page s₂ 0 (ap (λ l. get_elem? l 0) first₂) in
      record {
        here = (
          i,
          ap (λ l. get_elem? l i)
                ((create-Kept lv laws builds upgrade_widget b s₂
                  (builds.fresh_screen plain page s)).kids)
              ∙ e₂,
        );
        named =
            builds.text-create upgrade_widget b page s₂ x_page
            ∙ tree.shape.text page
            ∙ builds.text-create plain page page s b_page
            ∙ named;
        bases = [];
        first =
            builds.children-create upgrade_widget b page s₂ x_page ∙ else_at b_page _ _ ∙ first₂;
        others = [];
        inner =
            builds.children-create upgrade_widget b b s₂ x_b
            ∙ then_at ((laws.same_iff b b).1 refl) _ _
            ∙ ap (λ l. l ++ (x ∷ [])) inner₂;
        is_widget = builds.is_upgrade-create b s₂;
        state = builds.upgrade-create b s₂;
      }

  json_progress_parse_new :
      (n : Node) (mode : UpgradeType) (key name : String) (page : Obj) (s : Store)
      → IsImageBar input n mode key
      → IsPage lv s page
      → text s page ≡ some name
      → children s page ≡ []
      → same page screen ≡ false
      → HasChain name
          (loaded input lv laws builds n mode)
          (json_progress_parse input lv n (some page) s).1
  unfolding json_progress_parse
  json_progress_parse_new n mode key name page s is here named empty other =
      let b = (create plain page s).0 in
      let r = below input lv laws builds upgrade_widget page s in
      let f = below-Fresh input lv laws builds upgrade_widget page s other in
      let made = below-new name page s here named empty other in
      let read = json_ui_obj_parse input lv (some n) r.0 r.1 in
      let drawn =
        json_ui_obj_parse-Drawn input lv laws builds (some n) r.0 f.base r.1 f.at f.element f.out in
      let c =
        SameTree-Chain lv laws builds name page b r.0 (constructed num) r.1 read.1 drawn.tree
          made in
      let fine = succeeds-json_ui_obj_parse input lv n r.0 r.1 ∙ is.area in
      (
        page,
        b,
        r.0,
        rw fine (set_mode_own input lv laws builds name page b r.0 n mode key read.1 is c),
      )

  -- The elements of such a page.
  pub parse_elements_new :
      (n : Node) (ns : List Node) (mode : UpgradeType) (key name : String) (page : Obj) (s : Store)
      → input.is_object (some n) ≡ true
      → starts_with (input.name n) "progress" ≡ true
      → IsImageBar input n mode key
      → IsPage lv s page
      → text s page ≡ some name
      → children s page ≡ []
      → same page screen ≡ false
      → elements_ok input (n ∷ ns) ≡ true
      → HasChain name
          (loaded input lv laws builds n mode)
          (parse_elements input lv (n ∷ ns) page s).1
  unfolding parse_elements json_ui_page_cont_parse elements_ok
  parse_elements_new n ns mode key name page s object progress is here named empty other ok =
      let (p, b, x, c) = json_progress_parse_new n mode key name page s is here named empty other in
      let s₁ = (json_progress_parse input lv n (some page) s).1 in
      let one : (json_ui_page_cont_parse input lv n page s).1 ≡ s₁ = rw object (rw progress refl) in
      let fine =
        succeeds-json_ui_page_cont_parse input lv n page s ∙ and_left (element_ok input n) _ ok in
      (
        p,
        b,
        x,
        rw fine
            (rw one (parse_elements-Chain input lv laws builds name p b x _ ns page s₁ other c)),
      )
