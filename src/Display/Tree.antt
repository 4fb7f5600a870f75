-- ===== src/Display/Tree.antt =====
-- ui_find_page of ui/ui_display.c, and what it depends on.
use text.Mathlib.TextEquality.{eq_iff}
use openvela_frameworks_syst.Prelude.{
  ℕ, zero, suc, ◌≡◌, inl, inr, refl, ap, ◌∙◌, true, false, Option, none, some, String, List, [],
  ◌∷◌, get_elem?, Bool-cases,
}
use openvela_frameworks_syst.Lvgl.{Lvgl, IsPage, SameTree, SameShape}
use openvela_frameworks_syst.Display.{named, find_in, first_upgrade, ui_find_page}

module _ (lv : Lvgl) where
  open lv use {Store, Obj, same, screen, children, text, is_visible, set_hidden}

  -- The first page of the name, or none has it.
  abbrev pub Found : Store → String → List Obj → Option Obj → Type 0
  Found s name os none = (i : ℕ) (o : Obj) → get_elem? os i ≡ some o → named (text s o) name ≡ false
  Found s name os (some o) = (i : ℕ) × (get_elem? os i ≡ some o) × (named (text s o) name ≡ true)

  unnamed_cons :
      (s : Store) (name : String) (o : Obj) (os : List Obj)
      → named (text s o) name ≡ false
      → Found s name os none
      → Found s name (o ∷ os) none
  unnamed_cons s name o os other found zero q e =
      let it : q ≡ o = cc in ap (λ x. named (text s x) name) it ∙ other
  unnamed_cons s name o os other found (suc i) q e = found i q e

  Found-cons :
      (s : Store) (name : String) (o : Obj) (os : List Obj) (r : Option Obj)
      → named (text s o) name ≡ false
      → Found s name os r
      → Found s name (o ∷ os) r
  Found-cons s name o os none other found = unnamed_cons s name o os other found
  Found-cons s name o os (some q) other (i, e, named_so) = (suc i, e, named_so)

  pub find_in-Found :
      (s : Store) (name : String) (os : List Obj) → Found s name os (find_in lv s name os)
  unfolding find_in
  find_in-Found s name [] = λ i o e. absurd (cc)
  find_in-Found s name (o ∷ os) = elim (Bool-cases (named (text s o) name)) [
    | inl e ↦ rw e (0, refl, e)
    | inr e ↦ rw e (Found-cons s name o os (find_in lv s name os) e (find_in-Found s name os))
  ]

  SameShape-refl : (s : Store) → SameShape lv s s
  SameShape-refl s = record {
    children = λ o. refl;
    parent = λ o. refl;
    text = λ o. refl;
    is_upgrade = λ o. refl;
  }

  pub SameShape-trans : (a b c : Store) → SameShape lv a b → SameShape lv b c → SameShape lv a c
  SameShape-trans a b c p q = record {
    children = λ o. q.children o ∙ p.children o;
    parent = λ o. q.parent o ∙ p.parent o;
    text = λ o. q.text o ∙ p.text o;
    is_upgrade = λ o. q.is_upgrade o ∙ p.is_upgrade o;
  }

  pub SameTree-refl : (s : Store) → SameTree lv s s
  SameTree-refl s = record { shape = SameShape-refl s; upgrade = λ o. refl }

  pub SameTree-trans : (a b c : Store) → SameTree lv a b → SameTree lv b c → SameTree lv a c
  SameTree-trans a b c p q = record {
    shape = SameShape-trans a b c p.shape q.shape;
    upgrade = λ o. q.upgrade o ∙ p.upgrade o;
  }

  pub IsPage-SameShape :
      (s s' : Store) (o : Obj) → SameShape lv s s' → IsPage lv s o → IsPage lv s' o
  IsPage-SameShape s s' o shape (i, e) = (i, rw (shape.children screen) e)

  pub IsPage-SameTree : (s s' : Store) (o : Obj) → SameTree lv s s' → IsPage lv s o → IsPage lv s' o
  IsPage-SameTree s s' o tree here = IsPage-SameShape s s' o tree.shape here

  -- What ui_find_page finds is determined by the shape.
  find_in-SameShape :
      (s s' : Store) (name : String) (os : List Obj)
      → SameShape lv s s'
      → find_in lv s' name os ≡ find_in lv s name os
  unfolding find_in
  find_in-SameShape s s' name [] shape = refl
  find_in-SameShape s s' name (o ∷ os) shape =
      rw (shape.text o) (rw (find_in-SameShape s s' name os shape))

  pub ui_find_page-SameShape :
      (s s' : Store) (name : String)
      → SameShape lv s s'
      → ui_find_page lv s' name ≡ ui_find_page lv s name
  unfolding ui_find_page
  ui_find_page-SameShape s s' name shape =
      ap (find_in lv s' name) (shape.children screen)
      ∙ find_in-SameShape s s' name (children s screen) shape

  pub first_upgrade-SameShape :
      (s s' : Store) (os : List Obj)
      → SameShape lv s s'
      → first_upgrade lv s' os ≡ first_upgrade lv s os
  unfolding first_upgrade
  first_upgrade-SameShape s s' [] shape = refl
  first_upgrade-SameShape s s' (o ∷ os) shape =
      rw (shape.is_upgrade o) (rw (first_upgrade-SameShape s s' os shape))

  -- Every object of the list is a page.
  abbrev pub Pages : List Obj → Store → Type 0
  Pages os s = (i : ℕ) (o : Obj) → get_elem? os i ≡ some o → IsPage lv s o

  pub Pages-tail : (o : Obj) (os : List Obj) (s : Store) → Pages (o ∷ os) s → Pages os s
  Pages-tail o os s pages i q e = pages (suc i) q e

  pub Pages-SameTree : (os : List Obj) (s s' : Store) → SameTree lv s s' → Pages os s → Pages os s'
  Pages-SameTree os s s' tree pages i o e = IsPage-SameTree s s' o tree (pages i o e)

  pub named-some : (t : Option String) (name : String) → named t name ≡ true → t ≡ some name
  named-some none name e = absurd (cc)
  named-some (some t) name e = ap some ((eq_iff t name).0 e)
