-- ===== src/Ota/Screen/Refine.antt =====
-- The rounds of ui/ui_ota.c over the display of ui/ui_display.c, against the rounds that take the
-- display's answers as given.
use mathlib.Core.Path.{subst}
use openvela_frameworks_syst.Prelude.{
  then_at, else_at, ℕ, ◌<◌, ◌≤◌, ◌==◌, ◌≡◌, inl, inr, refl, ap, sym, ◌∙◌, Bool, true, false, not,
  ◌&&◌, some, List, [], ◌∷◌, arith, Bool-cases, if◌then◌else◌,
}
use openvela_frameworks_syst.Prelude.Int.{pos, is_neg, ltb_ℤ}
use openvela_frameworks_syst.Widget.{ImageData, get_value}
use openvela_frameworks_syst.Ota.{Progress, calc_progress}
use openvela_frameworks_syst.Ota.Loop.{
  Page, upgrading_page, upgrade_success_page, upgrade_fail_page, Ota, Outcome, round, synced,
  upgrading, end_round,
}
use openvela_frameworks_syst.Ota.Screen.{
  page_name, to_uint32, Props, answers, screen_round, show_round, show_success, after_progress,
  screen_upgrading,
}
use openvela_frameworks_syst.Lvgl.{Lvgl, LvglLaws}
use openvela_frameworks_syst.Code.{success}
use openvela_frameworks_syst.Display.{
  is_found, ui_find_page, ui_page_show, ui_page_exist, ui_set_progress, ui_get_current_page_name,
}
use openvela_frameworks_syst.Display.Tree.{SameShape-trans, ui_find_page-SameShape}
use openvela_frameworks_syst.Display.Progress.{Ready-SameTree, ui_set_progress_lem}
use openvela_frameworks_syst.Display.Current.{
  ui_page_show_found, Refreshed-current, Refreshed-Exclusive,
}
use openvela_frameworks_syst.Ota.Screen.Played.{
  last_page, Valid, Played, end_round-shown, SameShape-self, page_shown, Played-trans,
}

module _ (lv : Lvgl) (laws : LvglLaws lv) (ds : List ImageData) (widget : lv.Obj) where
  open lv use {Store, Obj}

  still_shown :
      (sync_time : ℕ) (q : Progress) (count : ℕ) (s : Store)
      → Valid lv laws ds widget s
      → ui_get_current_page_name lv s ≡ some (page_name upgrading_page)
      → Played lv laws ds widget s (end_round sync_time false (upgrading_page ∷ []) true q count) s
  still_shown sync_time q count s valid now = record {
    valid = valid;
    shape = SameShape-self lv laws ds widget s;
    current = λ whole.
        now
        ∙ ap (λ l. some (page_name (last_page l)))
            (sym (end_round-shown lv laws ds widget sync_time (upgrading_page ∷ []) true q count));
  }

  -- Behind ui_set_progress, on a display that shows the upgrading page.
  after_shown :
      (sync_time : ℕ) (q : Progress) (count : ℕ) (s : Store)
      → Valid lv laws ds widget s
      → ui_get_current_page_name lv s ≡ some (page_name upgrading_page)
      → let exists = is_found (ui_find_page lv s (page_name upgrade_success_page)) in
        let o =
          if exists && not (ltb_ℤ q.current (pos 100))
          then end_round sync_time false (upgrading_page ∷ upgrade_success_page ∷ []) exists q count
          else end_round sync_time false (upgrading_page ∷ []) true q count in
        (s' : Store) × (after_progress lv sync_time false q count (some (success, s))
          ≡ some (o, s'))
        × Played lv laws ds widget s o s'
        × (lv.upgrade s' widget ≡ lv.upgrade s widget)
  unfolding after_progress show_success ui_page_exist
  after_shown sync_time q count s valid now =
      let exists = is_found (ui_find_page lv s (page_name upgrade_success_page)) in
      let r = ui_page_show lv (page_name upgrade_success_page) s in
      let (same, played, kept) =
        page_shown lv laws ds widget sync_time upgrade_success_page
          (upgrading_page ∷ upgrade_success_page ∷ []) q count s valid refl in
      elim (Bool-cases (exists && not (ltb_ℤ q.current (pos 100)))) [
        | inr stays ↦ rw stays (s, refl, still_shown sync_time q count s valid now, refl)
        | inl done ↦ rw done (r.1, ap (λ o. some (o, r.1)) same, played, kept)
      ]

  upgrading_lem :
      (sync_time : ℕ) (p : Progress) (count n : ℕ) (s : Store) (props : Props)
      → Valid lv laws ds widget s
      → (calc_progress p).current ≡ pos n
      → n < 128
      → (s' : Store) × (screen_upgrading lv sync_time false p count s
          ≡ some (upgrading sync_time false (answers lv sync_time false props s) p count, s'))
        × Played lv laws ds widget s
            (upgrading sync_time false (answers lv sync_time false props s) p count)
            s'
        × (get_value (lv.upgrade s' widget) ≡ n)
  unfolding screen_upgrading upgrading
  upgrading_lem sync_time p count n s props valid shows small =
      let page = valid.ready.has.page in
      let now =
        ui_page_show_found lv laws (page_name upgrading_page) s page valid.exclusive
          valid.ready.has.found in
      let s₁ = (ui_page_show lv (page_name upgrading_page) s).1 in
      let ready₁ =
        Ready-SameTree lv laws (page_name upgrading_page) ds widget s s₁ now.tree valid.ready in
      let (s₂, set, refreshed) =
        ui_set_progress_lem lv laws (page_name upgrading_page) ds widget n s₁ small ready₁ in
      let q = calc_progress p in
      let value : to_uint32 q.current ≡ n = ap to_uint32 shows ∙ omega arith in
      let valid₂ : Valid lv laws ds widget s₂ = record {
        exclusive =
            Refreshed-Exclusive lv laws (page_name upgrading_page) ds widget n s₁ s₂ refreshed
              now.exclusive;
        ready = refreshed.ready;
      } in
      let current₂ =
        Refreshed-current lv laws (page_name upgrading_page) ds widget n s₁ s₂ refreshed
        ∙ now.current in
      let (s', runs, played, kept) = after_shown sync_time q count s₂ valid₂ current₂ in
      let shape = SameShape-trans lv s s₁ s₂ now.tree.shape refreshed.shape in
      let found = ui_find_page-SameShape lv s s₂ (page_name upgrade_success_page) shape in
      let choice : Bool → Outcome = λ exists.
        if exists && not (ltb_ℤ q.current (pos 100))
        then end_round sync_time false (upgrading_page ∷ upgrade_success_page ∷ []) exists q count
        else end_round sync_time false (upgrading_page ∷ []) true q count in
      (
        s',
        ap
              (λ v.
                after_progress lv sync_time false q count
                  (ui_set_progress lv (some (page_name upgrading_page)) v s₁))
              value
            ∙ ap (after_progress lv sync_time false q count) set
            ∙ runs
            ∙ ap (λ f. some (choice (is_found f), s')) found,
        subst (λ f. Played lv laws ds widget s (choice (is_found f)) s') found
            (Played-trans lv laws ds widget _ s s₂ s' shape played),
        ap get_value kept ∙ refreshed.gives,
      )

  end_round-progress :
      (sync_time : ℕ) (shown : List Page) (fine : Bool) (p : Progress) (count : ℕ)
      → (end_round sync_time false shown fine p count).state.progress ≡ p
  unfolding end_round
  end_round-progress sync_time shown true p count = refl
  end_round-progress sync_time shown false p count = refl

  failed_lem :
      (sync_time : ℕ) (p : Progress) (count n : ℕ) (s : Store)
      → Valid lv laws ds widget s
      → is_neg p.prev_node ≡ true
      → let o =
          end_round sync_time false
            (upgrade_fail_page ∷ [])
            (is_found (ui_find_page lv s (page_name upgrade_fail_page)))
            p
            count in
        (s' : Store) × (some (show_round lv sync_time false upgrade_fail_page p count s)
          ≡ some (o, s'))
        × Played lv laws ds widget s o s'
        × (is_neg o.state.progress.prev_node ≡ false → get_value (lv.upgrade s' widget) ≡ n)
  unfolding show_round
  failed_lem sync_time p count n s valid failed =
      let r = ui_page_show lv (page_name upgrade_fail_page) s in
      let exists = is_found (ui_find_page lv s (page_name upgrade_fail_page)) in
      let (same, played, kept) =
        page_shown lv laws ds widget sync_time upgrade_fail_page (upgrade_fail_page ∷ []) p count s
          valid refl in
      let p_kept = end_round-progress sync_time (upgrade_fail_page ∷ []) exists p count in
      (
        r.1,
        ap (λ o. some (o, r.1)) same,
        played,
        λ e. absurd (cc (e, failed, ap (λ (x : Progress). is_neg x.prev_node) p_kept)),
      )

  -- The first part of a round: what was read of the properties.
  abbrev pub synced_here : ℕ → Props → Ota → Store → Progress
  synced_here sync_time props st s = synced sync_time false (answers lv sync_time false props s) st

  -- For a `sync_time` of at least 1, a display with at most one page visible and an upgrading page
  -- with a progress widget whose images are set and which has at least one frame per second, and a
  -- progress that the round brings to a number below 128: a round over the display does not crash
  -- and ends as the round that takes the display's answers as given; the display stays as required,
  -- with the same tree and names; unless the round broke off, ui_get_current_page_name then gives
  -- the page it showed last; and if it showed the upgrading page, the widget gives that progress.
  -- Of what LVGL draws, the redraw of the widget is part of this, and no other.
  pub screen_round_lem :
      (sync_time : ℕ) (props : Props) (st : Ota) (n : ℕ) (s : Store)
      → 1 ≤ sync_time
      → Valid lv laws ds widget s
      → (calc_progress (synced_here sync_time props st s)).current ≡ pos n
      → n < 128
      → let o = round sync_time false (answers lv sync_time false props s) st in
        (s' : Store) × (screen_round lv sync_time false props st s ≡ some (o, s'))
        × Played lv laws ds widget s o s'
        × (is_neg o.state.progress.prev_node ≡ false → get_value (lv.upgrade s' widget) ≡ n)
  unfolding screen_round round
  screen_round_lem sync_time props st n s period valid shows small =
      let timed : (sync_time == 0) ≡ false = ground (arith, period) in
      let p = synced_here sync_time props st s in
      elim (Bool-cases (is_neg p.prev_node)) [
        | inl failed ↦
            let whole = round sync_time false (answers lv sync_time false props s) st in
            let taken : whole
                ≡ end_round sync_time false (upgrade_fail_page ∷ [])
                    (is_found (ui_find_page lv s (page_name upgrade_fail_page))) p
                    st.count_tick_ms =
              then_at failed _ _ in
            let (s', runs, played, gives) =
              failed_lem sync_time p st.count_tick_ms n s valid failed in
            (
              s',
              else_at timed _ _ ∙ then_at failed _ _ ∙ runs ∙ ap (λ o. some (o, s')) (sym taken),
              subst (λ o. Played lv laws ds widget s o s') (sym taken) played,
              subst
                  (λ (o : Outcome).
                    is_neg o.state.progress.prev_node ≡ false
                    → get_value (lv.upgrade s' widget) ≡ n)
                  (sym taken) gives,
            )
        | inr fine ↦
            let (s', runs, played, gives) =
              upgrading_lem sync_time p st.count_tick_ms n s props valid shows small in
            rw timed (rw fine (s', runs, played, λ e. gives))
      ]
