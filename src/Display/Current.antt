-- ===== src/Display/Current.antt =====
-- What ui_page_show and ui_set_progress of ui/ui_display.c do to the page that is visible.
use openvela_frameworks_syst.Prelude.{
  ℕ, suc, ◌≡◌, inl, inr, refl, ap, sym, ◌∙◌, true, none, some, String, List, [], ◌∷◌, get_elem?,
  Bool-cases,
}
use openvela_frameworks_syst.Widget.{ImageData}
use openvela_frameworks_syst.Lvgl.{Lvgl, LvglLaws, IsPage, SameTree, SameShape}
use openvela_frameworks_syst.Display.Show.{Exclusive, OnlyVisible, Shown, ui_page_show_lem}
use openvela_frameworks_syst.Display.Progress.{Refreshed}
use openvela_frameworks_syst.Code.{Code, success, page_not_found}
use openvela_frameworks_syst.Display.{
  first_visible, ui_find_page, show, ui_page_show, ui_get_current_page_name,
}

module _ (lv : Lvgl) (laws : LvglLaws lv) where
  open lv use {Store, Obj, same, screen, children, text, is_visible}

  OnlyVisible-Exclusive :
      (s : Store) (page : Obj) → OnlyVisible lv laws s page → Exclusive lv laws s
  OnlyVisible-Exclusive s page (here, seen, rest) p q p_here q_here p_seen q_seen =
      only_one p p_here p_seen ∙ sym (only_one q q_here q_seen)
    where
      only_one : (x : Obj) → IsPage lv s x → is_visible s x ≡ true → x ≡ page
      only_one x x_here x_seen = elim (Bool-cases (same x page)) [
        | inl e ↦ (laws.same_iff x page).0 e
        | inr e ↦ absurd (cc (x_seen, rest x x_here e))
      ]

  -- The page of that name is the visible one, after a call that changes no more than this.
  pub record NowShown (name : String) (s : Store) (r : Code × Store) : Type 0 where
    pub code : r.0 ≡ success
    pub exclusive : Exclusive lv laws r.1
    pub current : ui_get_current_page_name lv r.1 ≡ some name
    pub tree : SameTree lv s r.1

  Shown-NowShown :
      (name : String) (s : Store) (r : Code × Store)
      → r.0 ≡ success
      → Shown lv laws name s r
      → NowShown name s r
  Shown-NowShown name s (code, s') fine shown =
      let (page, named, only, current, tree) = rw fine at shown in
      record {
        code = fine;
        exclusive = OnlyVisible-Exclusive s' page only;
        current = current;
        tree = tree;
      }

  show-success : (s : Store) (page : Obj) → (show lv (some page) s).0 ≡ success
  unfolding show
  show-success s page = elim (Bool-cases (is_visible s page)) [ inl e ↦ rw e | inr e ↦ rw e ]

  ui_page_show-success :
      (name : String) (s : Store) (page : Obj)
      → ui_find_page lv s name ≡ some page
      → (ui_page_show lv name s).0 ≡ success
  unfolding ui_page_show
  ui_page_show-success name s page found = ap (λ r. (show lv r s).0) found ∙ show-success s page

  pub ui_page_show_found :
      (name : String) (s : Store) (page : Obj)
      → Exclusive lv laws s
      → ui_find_page lv s name ≡ some page
      → NowShown name s (ui_page_show lv name s)
  ui_page_show_found name s page exclusive found =
      Shown-NowShown name s (ui_page_show lv name s) (ui_page_show-success name s page found)
        (ui_page_show_lem lv laws name s exclusive)

  pub ui_page_show_missing :
      (name : String) (s : Store)
      → ui_find_page lv s name ≡ none
      → ui_page_show lv name s ≡ (page_not_found, s)
  unfolding ui_page_show show
  ui_page_show_missing name s missing = rw missing

  first_visible-same :
      (s s' : Store) (os : List Obj)
      → ((i : ℕ) (o : Obj) → get_elem? os i ≡ some o → is_visible s' o ≡ is_visible s o)
      → SameShape lv s s'
      → first_visible lv s' os ≡ first_visible lv s os
  unfolding first_visible
  first_visible-same s s' [] seen shape = refl
  first_visible-same s s' (o ∷ os) seen shape =
      rw (seen 0 o refl)
        (rw (shape.text o) (rw (first_visible-same s s' os (λ i q e. seen (suc i) q e) shape)))

  -- Setting the progress leaves the pages as they are.
  pub Refreshed-current :
      (name : String) (ds : List ImageData) (o : Obj) (value : ℕ) (s s' : Store)
      → Refreshed lv laws name ds o value s s'
      → ui_get_current_page_name lv s' ≡ ui_get_current_page_name lv s
  unfolding ui_get_current_page_name
  Refreshed-current name ds o value s s' refreshed =
      ap (first_visible lv s') (refreshed.shape.children screen)
      ∙ first_visible-same s s' (children s screen) (λ i q e. refreshed.visible q (i, e))
          refreshed.shape

  pub Refreshed-Exclusive :
      (name : String) (ds : List ImageData) (o : Obj) (value : ℕ) (s s' : Store)
      → Refreshed lv laws name ds o value s s'
      → Exclusive lv laws s
      → Exclusive lv laws s'
  Refreshed-Exclusive name ds o value s s' refreshed exclusive p q (i, p_at) (j, q_at) p_seen
        q_seen =
      let pages = refreshed.shape.children screen in
      let p_here : IsPage lv s p = (i, ap (λ l. get_elem? l i) (sym pages) ∙ p_at) in
      let q_here : IsPage lv s q = (j, ap (λ l. get_elem? l j) (sym pages) ∙ q_at) in
      exclusive p q p_here q_here (sym (refreshed.visible p p_here) ∙ p_seen)
        (sym (refreshed.visible q q_here) ∙ q_seen)
