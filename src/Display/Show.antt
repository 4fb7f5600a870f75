-- ===== src/Display/Show.antt =====
-- ui_page_show and ui_find_page of ui/ui_display.c.
use text.Mathlib.TextEquality.{eq_iff}
use openvela_frameworks_syst.Prelude.{
  ℕ, zero, suc, ◌≡◌, ◌≢◌, ◌⊎◌, inl, inr, refl, ap, sym, ◌∙◌, true, false, Option, none, some,
  String, List, [], ◌∷◌, get_elem?, Bool-cases,
}
use openvela_frameworks_syst.Lvgl.{Lvgl, LvglLaws, IsPage, SameTree}
use openvela_frameworks_syst.Display.Tree.{
  Found, Pages, find_in-Found, SameTree-refl, SameTree-trans, IsPage-SameTree, Pages-tail,
  Pages-SameTree, named-some,
}
use openvela_frameworks_syst.Code.{Code, success, page_not_found}
use openvela_frameworks_syst.Display.{
  named, ui_find_page, hide_others, show, ui_page_show, first_visible, ui_get_current_page_name,
}

module _ (lv : Lvgl) (laws : LvglLaws lv) where
  open lv use {Store, Obj, same, screen, children, text, is_visible, set_hidden}

  hide_others-SameTree :
      (page : Obj) (os : List Obj) (s : Store) → SameTree lv s (hide_others lv page os s)
  unfolding hide_others
  hide_others-SameTree page [] s = SameTree-refl lv s
  hide_others-SameTree page (o ∷ os) s = elim (Bool-cases (same o page)) [
    | inl e ↦ rw e (hide_others-SameTree page os s)
    | inr e ↦ rw e (
        SameTree-trans lv s (set_hidden o true s) _ (laws.set_hidden-SameTree o true s)
          (hide_others-SameTree page os (set_hidden o true s)))
  ]

  hidden_one :
      (page q o : Obj) (s : Store)
      → same o page ≡ false
      → same o q ≡ true
      → (q ≡ page) ⊎ (is_visible s q ≡ false)
      → false ≡ is_visible s q
  hidden_one page q o s other e (inr hidden) = sym hidden
  hidden_one page q o s other e (inl is_page) = absurd (cc (e, other, ap (same o) is_page))

  hidden_keeps :
      (page q o : Obj) (s : Store)
      → IsPage lv s o
      → IsPage lv s q
      → same o page ≡ false
      → (q ≡ page) ⊎ (is_visible s q ≡ false)
      → is_visible (set_hidden o true s) q ≡ is_visible s q
  hidden_keeps page q o s there here other why = elim (Bool-cases (same o q)) [
    | inr e ↦ laws.is_visible-set_hidden o q true s there here ∙ (rw e)
    | inl e ↦
        laws.is_visible-set_hidden o q true s there here
        ∙ (rw e (hidden_one page q o s other e why))
  ]

  still :
      (page q : Obj) (s s₁ : Store)
      → is_visible s₁ q ≡ is_visible s q
      → (q ≡ page) ⊎ (is_visible s q ≡ false)
      → (q ≡ page) ⊎ (is_visible s₁ q ≡ false)
  still page q s s₁ kept (inl e) = inl e
  still page q s s₁ kept (inr e) = inr (kept ∙ e)

  -- The page itself stays as it is, and one that is hidden stays hidden.
  hide_others_keeps :
      (page q : Obj) (os : List Obj) (s : Store)
      → Pages lv os s
      → IsPage lv s q
      → (q ≡ page) ⊎ (is_visible s q ≡ false)
      → is_visible (hide_others lv page os s) q ≡ is_visible s q
  unfolding hide_others
  hide_others_keeps page q [] s pages here why = refl
  hide_others_keeps page q (o ∷ os) s pages here why =
      let s₁ = set_hidden o true s in
      let tree = laws.set_hidden-SameTree o true s in
      elim (Bool-cases (same o page)) [
        | inl e ↦ rw e (hide_others_keeps page q os s (Pages-tail lv o os s pages) here why)
        | inr e ↦
            let kept = hidden_keeps page q o s (pages 0 o refl) here e why in
            rw e (
              hide_others_keeps page q os s₁
                (Pages-SameTree lv os s s₁ tree (Pages-tail lv o os s pages))
                (IsPage-SameTree lv s s₁ q tree here) (still page q s s₁ kept why)
              ∙ kept)
      ]

  hide_others_hides :
      (page q : Obj) (os : List Obj) (s : Store) (i : ℕ)
      → Pages lv os s
      → IsPage lv s q
      → get_elem? os i ≡ some q
      → same q page ≡ false
      → is_visible (hide_others lv page os s) q ≡ false
  unfolding hide_others
  hide_others_hides page q [] s i pages here e other = absurd (cc)
  hide_others_hides page q (o ∷ os) s zero pages here e other =
      let it : o ≡ q = cc in
      let s₁ = set_hidden q true s in
      let tree = laws.set_hidden-SameTree q true s in
      let self : same q q ≡ true = (laws.same_iff q q).1 refl in
      let hidden : is_visible s₁ q ≡ false =
        laws.is_visible-set_hidden q q true s here here ∙ (rw self) in
      rw it (
        rw other (
          hide_others_keeps page q os s₁
            (Pages-SameTree lv os s s₁ tree (Pages-tail lv o os s pages))
            (IsPage-SameTree lv s s₁ q tree here) (inr hidden)
          ∙ hidden))
  hide_others_hides page q (o ∷ os) s (suc i) pages here e other = elim (Bool-cases (same o page)) [
    | inl c ↦ rw c (hide_others_hides page q os s i (Pages-tail lv o os s pages) here e other)
    | inr c ↦
        let s₁ = set_hidden o true s in
        let tree = laws.set_hidden-SameTree o true s in
        rw c (
          hide_others_hides page q os s₁ i
            (Pages-SameTree lv os s s₁ tree (Pages-tail lv o os s pages))
            (IsPage-SameTree lv s s₁ q tree here) e other)
  ]

  -- At most one page is visible.
  abbrev pub Exclusive : Store → Type 0
  Exclusive s =
      (p q : Obj)
      → IsPage lv s p
      → IsPage lv s q
      → is_visible s p ≡ true
      → is_visible s q ≡ true
      → p ≡ q

  -- That page is visible, and no other.
  abbrev pub OnlyVisible : Store → Obj → Type 0
  OnlyVisible s p =
      IsPage lv s p
      × (is_visible s p ≡ true)
      × ((q : Obj) → IsPage lv s q → same q p ≡ false → is_visible s q ≡ false)

  others_hidden :
      (s : Store) (page : Obj)
      → Exclusive s
      → IsPage lv s page
      → is_visible s page ≡ true
      → (q : Obj) → IsPage lv s q
      → same q page ≡ false
      → is_visible s q ≡ false
  others_hidden s page exclusive here seen q there other = elim (Bool-cases (is_visible s q)) [
    | inr e ↦ e
    | inl e ↦ absurd (cc ((laws.same_iff q page).1 (exclusive q page there here e seen), other))
  ]

  hide_others-OnlyVisible :
      (s : Store) (page : Obj)
      → IsPage lv s page
      → let s₁ = set_hidden page false s in
        let s' = hide_others lv page (children s₁ screen) s₁ in
        OnlyVisible s' page × SameTree lv s s'
  hide_others-OnlyVisible s page here =
      let s₁ = set_hidden page false s in
      let os = children s₁ screen in
      let s' = hide_others lv page os s₁ in
      let first = laws.set_hidden-SameTree page false s in
      let rest = hide_others-SameTree page os s₁ in
      let tree = SameTree-trans lv s s₁ s' first rest in
      let here₁ = IsPage-SameTree lv s s₁ page first here in
      let self : same page page ≡ true = (laws.same_iff page page).1 refl in
      let shown : is_visible s₁ page ≡ true =
        laws.is_visible-set_hidden page page false s here here ∙ (rw self) in
      let pages : Pages lv os s₁ = λ i o e. (i, e) in
      (
        (
          IsPage-SameTree lv s s' page tree here,
          hide_others_keeps page page os s₁ pages here₁ (inl refl) ∙ shown,
          λ q (i, e) other.
              let e₁ : get_elem? os i ≡ some q =
                ap (λ l. get_elem? l i) (sym (rest.shape.children screen)) ∙ e in
              hide_others_hides page q os s₁ i pages (i, e₁) e₁ other,
        ),
        tree,
      )

  -- The page is shown: visible before, or made visible with all others hidden.
  show-OnlyVisible :
      (s : Store) (page : Obj)
      → Exclusive s
      → IsPage lv s page
      → ((show lv (some page) s).0 ≡ success)
        × OnlyVisible (show lv (some page) s).1 page
        × SameTree lv s (show lv (some page) s).1
  unfolding show
  show-OnlyVisible s page exclusive here = elim (Bool-cases (is_visible s page)) [
    | inl seen ↦
        rw seen (refl, (here, seen, others_hidden s page exclusive here seen), SameTree-refl lv s)
    | inr unseen ↦
        rw unseen (let (only, tree) = hide_others-OnlyVisible s page here in (refl, only, tree))
  ]

  pub first_visible-OnlyVisible :
      (s : Store) (page : Obj) (os : List Obj) (i : ℕ)
      → Pages lv os s
      → OnlyVisible s page
      → get_elem? os i ≡ some page
      → first_visible lv s os ≡ text s page
  unfolding first_visible
  first_visible-OnlyVisible s page [] i pages only e = absurd (cc)
  first_visible-OnlyVisible s page (o ∷ os) zero pages (here, seen, rest) e =
      let it : o ≡ page = cc in rw it (rw seen)
  first_visible-OnlyVisible s page (o ∷ os) (suc i) pages (here, seen, rest) e =
      elim (Bool-cases (same o page)) [
        | inl c ↦ let it : o ≡ page = (laws.same_iff o page).0 c in rw it (rw seen)
        | inr c ↦ rw (rest o (pages 0 o refl) c) (
            first_visible-OnlyVisible s page os i (Pages-tail lv o os s pages) (here, seen, rest) e)
      ]

  -- What ui_page_show leaves, for the code that it returns.
  abbrev pub Shown : String → Store → Code × Store → Type 0
  Shown name s (success, s') =
      (page : Obj) × (text s' page ≡ some name)
      × OnlyVisible s' page
      × (ui_get_current_page_name lv s' ≡ some name)
      × SameTree lv s s'
  Shown name s (page_not_found, s') = (s' ≡ s) × ((q : Obj) → IsPage lv s q → text s q ≢ some name)
  Shown name s (code, s') = ⊥

  seen_page :
      (name : String) (s : Store) (page : Obj) (r : Code × Store)
      → r.0 ≡ success
      → OnlyVisible r.1 page
      → SameTree lv s r.1
      → text s page ≡ some name
      → Shown name s r
  unfolding ui_get_current_page_name
  seen_page name s page (code, s') fine ((i, e), seen, rest) tree is_named =
      let said : text s' page ≡ some name = tree.shape.text page ∙ is_named in
      let current =
        first_visible-OnlyVisible s' page (children s' screen) i (λ j o at. (j, at))
          ((i, e), seen, rest) e
        ∙ said in
      rw fine (page, said, ((i, e), seen, rest), current, tree)

  either_answer :
      (name : String) (s : Store) (r : Option Obj)
      → Exclusive s
      → Found lv s name (children s screen) r
      → Shown name s (show lv r s)
  unfolding show ui_get_current_page_name
  either_answer name s none exclusive found = (
    refl,
    λ q (i, e) is_named.
        absurd (cc (found i q e, ap (λ t. named t name) is_named, (eq_iff name name).1 refl)),
  )
  either_answer name s (some page) exclusive (i, e, is_named) =
      let (fine, only, tree) = show-OnlyVisible s page exclusive (i, e) in
      seen_page name s page (show lv (some page) s) fine only tree
        (named-some lv (text s page) name is_named)

  -- With at most one page visible: ui_page_show either succeeds, and then a page of that name is
  -- visible and no other, ui_get_current_page_name gives the name, and only what is hidden has
  -- changed; or it returns UI_PAGE_NOT_FOUND, changes nothing, and no page has the name.
  pub ui_page_show_lem :
      (name : String) (s : Store) → Exclusive s → Shown name s (ui_page_show lv name s)
  unfolding ui_page_show ui_find_page
  ui_page_show_lem name s exclusive =
      either_answer name s (ui_find_page lv s name) exclusive
        (find_in-Found lv s name (children s screen))
