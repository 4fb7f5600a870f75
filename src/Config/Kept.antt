-- ===== src/Config/Kept.antt =====
-- What a step of ui/ui_config_parse.c leaves of the pages.
use openvela_frameworks_syst.Prelude.{
  ℕ, ◌≡◌, ◌≢◌, inl, inr, refl, sym, ◌∙◌, ap, false, some, String, get_elem?, Bool-cases, else_at,
}
use openvela_frameworks_syst.Widget.{Upgrade}
use openvela_frameworks_syst.Lvgl.{Lvgl, LvglLaws, BuildLaws, IsPage, SameTree, Kind, Style}
use openvela_frameworks_syst.Display.Tree.{SameTree-refl, SameTree-trans}

module _ (lv : Lvgl) where
  open lv use {Store, Obj, screen, children, text, is_visible, same}

  -- The pages are the same, with their names, and as visible as they were.
  pub record Kept (s s' : Store) : Type 0 where
    pub kids : children s' screen ≡ children s screen
    pub texts : (q : Obj) → IsPage lv s q → text s' q ≡ text s q
    pub seen : (q : Obj) → IsPage lv s q → is_visible s' q ≡ is_visible s q

  -- Only the look of objects has changed, and of no page.
  pub record Drawn (s s' : Store) : Type 0 where
    pub tree : SameTree lv s s'
    pub look : (q : Obj) → IsPage lv s q → is_visible s' q ≡ is_visible s q

  -- Neither a page nor the screen.
  pub record Outside (s : Store) (o : Obj) : Type 0 where
    pub no_page : (i : ℕ) → get_elem? (children s screen) i ≢ some o
    pub no_screen : same o screen ≡ false

module _ (lv : Lvgl) (laws : LvglLaws lv) (builds : BuildLaws lv) where
  open lv use {
    Store, Obj, screen, children, text, is_visible, same, style, create, put_upgrade, set_image,
  }

  pub Kept-refl : (s : Store) → Kept lv s s
  Kept-refl s = record { kids = refl; texts = λ q h. refl; seen = λ q h. refl }

  IsPage-Kept :
      (s s' : Store) (q : Obj)
      → children s' screen ≡ children s screen
      → IsPage lv s q
      → IsPage lv s' q
  IsPage-Kept s s' q same (i, e) = (i, ap (λ l. get_elem? l i) same ∙ e)

  pub Kept-trans : (a b c : Store) → Kept lv a b → Kept lv b c → Kept lv a c
  Kept-trans a b c h k = record {
    kids = k.kids ∙ h.kids;
    texts = λ q p. k.texts q (IsPage-Kept a b q h.kids p) ∙ h.texts q p;
    seen = λ q p. k.seen q (IsPage-Kept a b q h.kids p) ∙ h.seen q p;
  }

  pub Drawn-refl : (s : Store) → Drawn lv s s
  Drawn-refl s = record { tree = SameTree-refl lv s; look = λ q h. refl }

  pub Drawn-trans : (a b c : Store) → Drawn lv a b → Drawn lv b c → Drawn lv a c
  Drawn-trans a b c h k = record {
    tree = SameTree-trans lv a b c h.tree k.tree;
    look = λ q p. k.look q (IsPage-Kept a b q (h.tree.shape.children screen) p) ∙ h.look q p;
  }

  pub Drawn-Kept : (s s' : Store) → Drawn lv s s' → Kept lv s s'
  Drawn-Kept s s' d = record {
    kids = d.tree.shape.children screen;
    texts = λ q p. d.tree.shape.text q;
    seen = d.look;
  }

  pub Outside-Kept : (o : Obj) (s s' : Store) → Kept lv s s' → Outside lv s o → Outside lv s' o
  Outside-Kept o s s' h out = record {
    no_page = λ i e. out.no_page i (ap (λ l. get_elem? l i) (sym h.kids) ∙ e);
    no_screen = out.no_screen;
  }

  other_page : (o q : Obj) (s : Store) → Outside lv s o → IsPage lv s q → same o q ≡ false
  other_page o q s out (i, e) = elim (Bool-cases (same o q)) [
    | inl h ↦ absurd (out.no_page i (e ∙ ap some (sym ((laws.same_iff o q).0 h))))
    | inr h ↦ h
  ]

  pub style-Drawn : (t : Style) (o : Obj) (s : Store) → Outside lv s o → Drawn lv s (style t o s)
  style-Drawn t o s out = record {
    tree = laws.style-SameTree t o s;
    look = λ q p. laws.is_visible-style t o q s p (other_page o q s out p) out.no_screen;
  }

  pub create-Kept :
      (k : Kind) (p : Obj) (s : Store) → same p screen ≡ false → Kept lv s (create k p s).1
  create-Kept k p s other = record {
    kids = builds.children-create k p screen s (builds.fresh_screen k p s) ∙ else_at other _ _;
    texts = λ q (i, e). builds.text-create k p q s (builds.fresh k p q screen s i e);
    seen = λ q h. builds.is_visible-create k p q s h;
  }

  pub create-Outside :
      (k : Kind) (p : Obj) (s : Store)
      → same p screen ≡ false
      → Outside lv (create k p s).1 (create k p s).0
  create-Outside k p s other =
      let o = (create k p s).0 in
      let same_kids = (create-Kept k p s other).kids in
      record {
        no_page = λ i e. absurd (
            cc (
              builds.fresh k p o screen s i (ap (λ l. get_elem? l i) (sym same_kids) ∙ e),
              (laws.same_iff o o).1 refl,
            ));
        no_screen = builds.fresh_screen k p s;
      }

  pub put_upgrade-Kept : (o : Obj) (u : Upgrade) (s : Store) → Kept lv s (put_upgrade o u s)
  put_upgrade-Kept o u s =
      let shape = laws.put_upgrade-SameShape o u s in
      record {
        kids = shape.children screen;
        texts = λ q p. shape.text q;
        seen = λ q p. laws.is_visible-put o q u s;
      }

  pub set_image-Kept :
      (o : Obj) (path : String) (s : Store) → Outside lv s o → Kept lv s (set_image o path s)
  set_image-Kept o path s out = record {
    kids = builds.children-set_image o screen path s;
    texts = λ q p. builds.text-set_image o q path s (other_page o q s out p);
    seen = λ q p. builds.is_visible-set_image o q path s p (other_page o q s out p);
  }
