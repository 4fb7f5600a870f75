-- ===== src/Ota/Screen/Played.antt =====
-- What a round of ui/ui_ota.c leaves of the pages of ui/ui_display.c.
use openvela_frameworks_syst.Prelude.{
  ℕ, ◌≡◌, ◌≢◌, inl, inr, refl, ap, ◌∙◌, Bool, true, false, some, List, [], ◌∷◌, Option-cases,
}
use openvela_frameworks_syst.Widget.{ImageData}
use openvela_frameworks_syst.Ota.{Progress}
use openvela_frameworks_syst.Ota.Loop.{Page, logo_page, upgrading_page, Outcome, broken, end_round}
use openvela_frameworks_syst.Ota.Screen.{page_name}
use openvela_frameworks_syst.Lvgl.{Lvgl, LvglLaws, SameShape}
use openvela_frameworks_syst.Code.{Code, succeeds}
use openvela_frameworks_syst.Display.{
  is_found, ui_find_page, ui_page_show, ui_get_current_page_name,
}
use openvela_frameworks_syst.Display.Tree.{SameShape-trans, SameTree-refl}
use openvela_frameworks_syst.Display.Show.{Exclusive}
use openvela_frameworks_syst.Display.Progress.{Ready, Ready-SameTree}
use openvela_frameworks_syst.Display.Current.{NowShown, ui_page_show_found, ui_page_show_missing}

-- The page shown last.
abbrev pub last_page : List Page → Page
last_page [] = logo_page
last_page (p ∷ []) = p
last_page (p ∷ q ∷ ps) = last_page (q ∷ ps)

module _ (lv : Lvgl) (laws : LvglLaws lv) (ds : List ImageData) (widget : lv.Obj) where
  open lv use {Store, Obj}

  -- At most one page is visible, and the upgrading page has that widget, with its images.
  pub record Valid (s : Store) : Type 0 where
    pub exclusive : Exclusive lv laws s
    pub ready : Ready lv (page_name upgrading_page) ds widget s

  -- What a round leaves of the display: unless it broke off, its last page is the visible one.
  pub record Played (s : Store) (o : Outcome) (s' : Store) : Type 0 where
    pub valid : Valid s'
    pub shape : SameShape lv s s'
    pub current :
        o.next ≢ broken → ui_get_current_page_name lv s' ≡ some (page_name (last_page o.shown))

  pub NowShown-Played :
      (page : Page) (s : Store) (o : Outcome) (r : Code × Store)
      → Valid s
      → last_page o.shown ≡ page
      → NowShown lv laws (page_name page) s r
      → Played s o r.1
  NowShown-Played page s o r valid last shown = record {
    valid = record {
      exclusive = shown.exclusive;
      ready =
          Ready-SameTree lv laws (page_name upgrading_page) ds widget s r.1 shown.tree valid.ready;
    };
    shape = shown.tree.shape;
    current = λ whole. rw last shown.current;
  }

  pub end_round-shown :
      (sync_time : ℕ) (shown : List Page) (fine : Bool) (p : Progress) (count : ℕ)
      → (end_round sync_time false shown fine p count).shown ≡ shown
  unfolding end_round
  end_round-shown sync_time shown true p count = refl
  end_round-shown sync_time shown false p count = refl

  pub SameShape-self : (s : Store) → SameShape lv s s
  SameShape-self s = (SameTree-refl lv s).shape

  -- Where the page is missing, the round breaks off and the display is as it was.
  pub broken-Played :
      (sync_time : ℕ) (shown : List Page) (p : Progress) (count : ℕ) (s : Store)
      → Valid s
      → Played s (end_round sync_time false shown false p count) s
  unfolding end_round
  broken-Played sync_time shown p count s valid = record {
    valid = valid;
    shape = SameShape-self s;
    current = λ whole. absurd (whole refl);
  }

  -- A call of ui_page_show, for the answer that the display gives.
  pub page_shown :
      (sync_time : ℕ) (page : Page) (shown : List Page) (p : Progress) (count : ℕ) (s : Store)
      → Valid s
      → last_page shown ≡ page
      → let r = ui_page_show lv (page_name page) s in
        let o =
          end_round sync_time false shown (is_found (ui_find_page lv s (page_name page))) p count in
        (end_round sync_time false shown (succeeds r.0) p count ≡ o)
        × Played s o r.1
        × (lv.upgrade r.1 widget ≡ lv.upgrade s widget)
  page_shown sync_time page shown p count s valid last =
      elim (Option-cases (ui_find_page lv s (page_name page))) [
        | inl missing ↦
            let none_shown = ui_page_show_missing lv laws (page_name page) s missing in
            rw missing (rw none_shown (refl, broken-Played sync_time shown p count s valid, refl))
        | inr (o, found) ↦
            let now = ui_page_show_found lv laws (page_name page) s o valid.exclusive found in
            rw found (
              rw now.code (
                refl,
                NowShown-Played page s _ (ui_page_show lv (page_name page) s) valid
                    (ap last_page (end_round-shown sync_time shown true p count) ∙ last) now,
                now.tree.upgrade widget,
              ))
      ]

  -- Two steps on the display, one after the other.
  pub Played-trans : (o : Outcome) (a b c : Store) → SameShape lv a b → Played b o c → Played a o c
  Played-trans o a b c shape played = record {
    valid = played.valid;
    shape = SameShape-trans lv a b c shape played.shape;
    current = played.current;
  }
