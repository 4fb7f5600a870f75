-- ===== src/Config/Chain.antt =====
-- The progress widget of a page, while ui/ui_config_parse.c reads on.
use openvela_frameworks_syst.Prelude.{
  ◌≡◌, inl, inr, sym, ◌∙◌, ap, true, false, some, String, List, [], ◌∷◌, ◌++◌, get_elem?,
  get_elem?-append_left, Bool-cases, then_at, else_at,
}
use mathlib.Core.List.{append-nil}
use openvela_frameworks_syst.Widget.{Upgrade}
use openvela_frameworks_syst.Lvgl.{Lvgl, LvglLaws, BuildLaws, IsPage, SameTree, Kind}

-- A page of that name whose first child has, as its first child, a progress widget in that state.
pub record Chain (lv : Lvgl) (name : String) (page base o : lv.Obj) (u : Upgrade) (s : lv.Store)
    : Type 0 where
  pub here : IsPage lv s page
  pub named : lv.text s page ≡ some name
  pub bases : List lv.Obj
  pub first : lv.children s page ≡ base ∷ bases
  pub others : List lv.Obj
  pub inner : lv.children s base ≡ o ∷ others
  pub is_widget : lv.is_upgrade s o ≡ true
  pub state : lv.upgrade s o ≡ u

module _ (lv : Lvgl) (laws : LvglLaws lv) (builds : BuildLaws lv) where
  open lv use {
    Store, Obj, screen, children, same, upgrade, is_upgrade, create, put_upgrade, set_image,
  }

  -- Children are only added.
  abbrev pub Grown : Obj → Store → Store → Type 0
  Grown q s s' = (more : List Obj) × (children s' q ≡ children s q ++ more)

  same-Grown : (q : Obj) (s s' : Store) → children s' q ≡ children s q → Grown q s s'
  same-Grown q s s' e = ([], e ∙ sym (append-nil (children s q)))

  create-Grown :
      (k : Kind) (p q : Obj) (s : Store)
      → same (create k p s).0 q ≡ false
      → Grown q s (create k p s).1
  create-Grown k p q s other = elim (Bool-cases (same p q)) [
    | inl e ↦ ((create k p s).0 ∷ [], builds.children-create k p q s other ∙ then_at e _ _)
    | inr e ↦ same-Grown q s (create k p s).1 (builds.children-create k p q s other ∙ else_at e _ _)
  ]

  pub Grown-Chain :
      (name : String) (page base o : Obj) (u : Upgrade) (s s' : Store)
      → Chain lv name page base o u s
      → lv.text s' page ≡ lv.text s page
      → Grown screen s s'
      → Grown page s s'
      → Grown base s s'
      → is_upgrade s' o ≡ is_upgrade s o
      → upgrade s' o ≡ upgrade s o
      → Chain lv name page base o u s'
  Grown-Chain name page base o u s s' c text (ys, pages) (bs, bases) (os, inner) class state =
      record {
        here =
            let (i, e) = c.here in
            (
              i,
              ap (λ l. get_elem? l i) pages ∙ get_elem?-append_left (children s screen) ys i page e,
            );
        named = text ∙ c.named;
        bases = c.bases ++ bs;
        first = bases ∙ ap (λ l. l ++ bs) c.first;
        others = c.others ++ os;
        inner = inner ∙ ap (λ l. l ++ os) c.inner;
        is_widget = class ∙ c.is_widget;
        state = state ∙ c.state;
      }

  module _ (name : String) (page base o : Obj) (u : Upgrade) where
    pub create-Chain :
        (k : Kind) (p : Obj) (s : Store)
        → Chain lv name page base o u s
        → Chain lv name page base o u (create k p s).1
    create-Chain k p s c =
        let s' = (create k p s).1 in
        let (i, e) = c.here in
        let new_o = builds.fresh k p o base s 0 (ap (λ l. get_elem? l 0) c.inner) in
        let (class, state) = builds.create_other k p o s new_o in
        Grown-Chain name page base o u s s' c
          (builds.text-create k p page s (builds.fresh k p page screen s i e))
          (create-Grown k p screen s (builds.fresh_screen k p s))
          (create-Grown k p page s (builds.fresh k p page screen s i e))
          (create-Grown k p base s
            (builds.fresh k p base page s 0 (ap (λ l. get_elem? l 0) c.first)))
          class state

    -- The new object is neither the page nor the widget.
    pub create_other_page :
        (k : Kind) (p : Obj) (s : Store)
        → Chain lv name page base o u s
        → same (create k p s).0 page ≡ false
    create_other_page k p s c = let (i, e) = c.here in builds.fresh k p page screen s i e

    pub create_other_widget :
        (k : Kind) (p : Obj) (s : Store)
        → Chain lv name page base o u s
        → same (create k p s).0 o ≡ false
    create_other_widget k p s c = builds.fresh k p o base s 0 (ap (λ l. get_elem? l 0) c.inner)

    same_tree :
        (s s' : Store)
        → Chain lv name page base o u s
        → lv.text s' page ≡ lv.text s page
        → ((q : Obj) → children s' q ≡ children s q)
        → is_upgrade s' o ≡ is_upgrade s o
        → upgrade s' o ≡ upgrade s o
        → Chain lv name page base o u s'
    same_tree s s' c text kids =
        Grown-Chain name page base o u s s' c text (same-Grown screen s s' (kids screen))
          (same-Grown page s s' (kids page)) (same-Grown base s s' (kids base))

    pub SameTree-Chain :
        (s s' : Store)
        → SameTree lv s s'
        → Chain lv name page base o u s
        → Chain lv name page base o u s'
    SameTree-Chain s s' tree c =
        same_tree s s' c (tree.shape.text page) tree.shape.children (tree.shape.is_upgrade o)
          (tree.upgrade o)

    pub put_upgrade-Chain :
        (x : Obj) (v : Upgrade) (s : Store)
        → same x o ≡ false
        → Chain lv name page base o u s
        → Chain lv name page base o u (put_upgrade x v s)
    put_upgrade-Chain x v s other c =
        let shape = laws.put_upgrade-SameShape x v s in
        same_tree s (put_upgrade x v s) c (shape.text page) shape.children (shape.is_upgrade o)
          (laws.upgrade-put x o v s ∙ else_at other _ _)

    pub set_image-Chain :
        (x : Obj) (path : String) (s : Store)
        → same x page ≡ false
        → Chain lv name page base o u s
        → Chain lv name page base o u (set_image x path s)
    set_image-Chain x path s away c =
        let (class, state) = builds.upgrade-set_image x o path s in
        same_tree s (set_image x path s) c (builds.text-set_image x page path s away)
          (λ q. builds.children-set_image x q path s) class state

    pub set_text-Chain :
        (x : Obj) (t : String) (s : Store)
        → same x page ≡ false
        → Chain lv name page base o u s
        → Chain lv name page base o u (lv.set_text x t s)
    set_text-Chain x t s away c =
        let (class, state) = builds.upgrade-set_text x o t s in
        same_tree s (lv.set_text x t s) c (builds.text-set_text x page t s ∙ else_at away _ _)
          (λ q. builds.children-set_text x q t s) class state
