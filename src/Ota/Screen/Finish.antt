-- ===== src/Ota/Screen/Finish.antt =====
-- The whole loop of ui/ui_ota.c over the display of ui/ui_display.c.
use mathlib.Core.Path.{subst, fun_ext}
use openvela_frameworks_syst.Prelude.{
  then_at, else_at, ℕ, zero, suc, ◌+◌, ◌-◌, ◌*◌, ◌≤◌, ◌<◌, ◌≡◌, ◌⊎◌, inl, inr, refl, ap, sym, ◌∙◌,
  true, false, some, List, arith, Bool-cases,
}
use openvela_frameworks_syst.Prelude.Int.{pos, pos_part, ◌≤ℤ◌}
use openvela_frameworks_syst.Widget.{ImageData}
use openvela_frameworks_syst.Ota.{Progress, calc_progress, sync_progress}
use openvela_frameworks_syst.Ota.Bounds.{Inv, calc_progress_capped}
use openvela_frameworks_syst.Ota.Loop.{
  Page, upgrade_success_page, Round, Ota, Outcome, Next, go_on, broken, finished, ends, round,
  synced, run,
}
use openvela_frameworks_syst.Ota.Loop.Rounds.{IsDone, synced_done, run_finishes}
use openvela_frameworks_syst.Ota.Screen.{page_name, Props, answers, screen_run, go_round}
use openvela_frameworks_syst.Ota.Screen.Played.{last_page, Valid}
use openvela_frameworks_syst.Ota.Screen.Refine.{screen_round_lem}
use openvela_frameworks_syst.Lvgl.{Lvgl, LvglLaws, SameShape}
use openvela_frameworks_syst.Display.{is_found, ui_find_page, ui_get_current_page_name}
use openvela_frameworks_syst.Display.Tree.{SameShape-trans, SameTree-refl, ui_find_page-SameShape}

-- The progress after a call, from one that is no more than 126.
calc_small :
    (p : Progress) (c : ℕ)
    → p.current ≡ pos c
    → c < 127
    → (n : ℕ) × ((calc_progress p).current ≡ pos n) × (n < 128)
unfolding calc_progress
calc_small p c at_c small = (pos_part (calc_progress p).current, ground arith, ground arith)

-- Where the loop goes on, the progress is below 100.
round_small :
    (sync_time : ℕ) (r : Round) (st : Ota) (n : ℕ)
    → (calc_progress (synced sync_time false r st)).current ≡ pos n
    → (round sync_time false r st).next ≡ go_on
    → ((round sync_time false r st).state.progress.current ≡ pos n) × (n < 100)
unfolding round
round_small sync_time r st n e more = ground arith

-- Once the upgrade is done and the success page is there, the round that ends the loop shows it.
round_last :
    (sync_time : ℕ) (r : Round) (st : Ota)
    → IsDone r
    → r.success_exists ≡ true
    → st.progress.prev_node ≡ pos 100
    → let o = round sync_time false r st in
      (o.state.progress.prev_node ≡ pos 100)
      × (o.next ≡ finished → last_page o.shown ≡ upgrade_success_page)
unfolding round
round_last sync_time r st done exists at_100 = ground (
  arith,
  synced_done sync_time r st done at_100,
  calc_progress_capped (synced sync_time false r st),
  exists,
)

-- Reading the properties does not move the progress.
synced-current :
    (sync_time : ℕ) (r : Round) (st : Ota)
    → (synced sync_time false r st).current ≡ st.progress.current
unfolding synced sync_progress
synced-current sync_time r st = ground arith

Next-cases : (x : Next) → (x ≡ go_on) ⊎ (ends x ≡ true)
Next-cases go_on = inl refl
Next-cases broken = inr refl
Next-cases finished = inr refl

module _ (lv : Lvgl) (laws : LvglLaws lv) (ds : List ImageData) (widget : lv.Obj)
    (sync_time : ℕ) where
  open lv use {Store, Obj}

  -- The display's answers are determined by its tree and names.
  answers-SameShape :
      (props : Props) (s s' : Store)
      → SameShape lv s s'
      → answers lv sync_time false props s' ≡ answers lv sync_time false props s
  answers-SameShape props s s' shape =
      let same : (page : Page)
          → is_found (ui_find_page lv s' (page_name page))
            ≡ is_found (ui_find_page lv s (page_name page)) =
        λ page. ap is_found (ui_find_page-SameShape lv s s' (page_name page) shape) in
      λ i. record {
        shows = fun_ext same i;
        sets_progress = true;
        success_exists = same upgrade_success_page i;
        current_prop = props.0;
        next_prop = props.1;
      }

  -- What a run leaves of the display.
  pub record RunPlayed (s : Store) (o : Outcome) (s' : Store) : Type 0 where
    pub valid : Valid lv laws ds widget s'
    pub shape : SameShape lv s s'
    pub current :
        o.next ≡ finished → ui_get_current_page_name lv s' ≡ some (page_name (last_page o.shown))

  -- For a `sync_time` of at least 1, a display with at most one page visible and an upgrading page
  -- with a progress widget whose images are set and which has at least one frame per second, and a
  -- progress from 0 to 126: the loop over the display does not crash and ends as the loop that
  -- takes the display's answers as given, whatever the properties say; if it ends by itself,
  -- ui_get_current_page_name gives the page that was shown last. Of what LVGL draws, the redraw of
  -- the widget is part of this, and no other.
  pub screen_run_refines :
      (props : ℕ → Props) (m i c : ℕ) (st : Ota) (s : Store)
      → 1 ≤ sync_time
      → Valid lv laws ds widget s
      → st.progress.current ≡ pos c
      → c < 127
      → let o = run sync_time false m (λ j. answers lv sync_time false (props j) s) i st in
        (s' : Store) × (screen_run lv sync_time false m props i st s ≡ some (o, s'))
        × RunPlayed s o s'
  unfolding screen_run run
  screen_run_refines props zero i c st s period valid at_c small = (
    s,
    refl,
    record { valid = valid; shape = (SameTree-refl lv s).shape; current = λ e. absurd (cc) },
  )
  screen_run_refines props (suc m) i c st s period valid at_c small =
      let r = answers lv sync_time false (props i) s in
      let o = round sync_time false r st in
      let (n, shows, low) =
        calc_small (synced sync_time false r st) c (synced-current sync_time r st ∙ at_c) small in
      let (s₁, runs, played, gives) =
        screen_round_lem lv laws ds widget sync_time (props i) st n s period valid shows low in
      elim (Next-cases o.next) [
        | inr over ↦
            let whole =
              run sync_time false (suc m) (λ j. answers lv sync_time false (props j) s) i st in
            let taken : whole ≡ o = then_at over _ _ in
            (
              s₁,
              ap
                    (λ x.
                      go_round lv sync_time false x
                        (λ st' s'. screen_run lv sync_time false m props (i + 1) st' s'))
                    runs
                  ∙ then_at over _ _
                  ∙ ap (λ x. some (x, s₁)) (sym taken),
              subst (λ x. RunPlayed s x s₁) (sym taken)
                  (record {
                    valid = played.valid;
                    shape = played.shape;
                    current = λ e. played.current (λ b. absurd (cc (e, b)));
                  }),
            )
        | inl more ↦
            let (at_n, below) = round_small sync_time r st n shows more in
            let same_rounds = fun_ext (λ j. answers-SameShape (props j) s s₁ played.shape) in
            let goes : ends o.next ≡ false = ap ends more in
            let (s', rest_runs, rest) =
              screen_run_refines props m (i + 1) n o.state s₁ period played.valid at_n
                (omega (arith, below)) in
            let out : (ℕ → Round) → Outcome = λ rs. run sync_time false m rs (i + 1) o.state in
            let whole =
              run sync_time false (suc m) (λ j. answers lv sync_time false (props j) s) i st in
            let taken : whole ≡ out (λ j. answers lv sync_time false (props j) s) =
              else_at goes _ _ in
            let total = ap out same_rounds ∙ sym taken in
            (
              s',
              ap
                    (λ x.
                      go_round lv sync_time false x
                        (λ st' s'. screen_run lv sync_time false m props (i + 1) st' s'))
                    runs
                  ∙ else_at goes _ _
                  ∙ rest_runs
                  ∙ ap (λ x. some (x, s')) total,
              subst (λ x. RunPlayed s x s') total
                  (record {
                    valid = rest.valid;
                    shape = SameShape-trans lv s s₁ s' played.shape rest.shape;
                    current = rest.current;
                  }),
            )
      ]

  -- The run that ends by itself after the upgrade is done shows the success page.
  run_last :
      (rounds : ℕ → Round) (m i : ℕ) (st : Ota)
      → ((j : ℕ) → IsDone (rounds j))
      → ((j : ℕ) → (rounds j).success_exists ≡ true)
      → st.progress.prev_node ≡ pos 100
      → (run sync_time false m rounds i st).next ≡ finished
      → last_page (run sync_time false m rounds i st).shown ≡ upgrade_success_page
  unfolding run
  run_last rounds zero i st done exists at_100 over = absurd (cc)
  run_last rounds (suc m) i st done exists at_100 over =
      let o = round sync_time false (rounds i) st in
      let (kept, last) = round_last sync_time (rounds i) st (done i) (exists i) at_100 in
      elim (Bool-cases (ends o.next)) [
        | inl e ↦ rw e (last (sym (ap (λ (x : Outcome). x.next) (then_at e _ _)) ∙ over))
        | inr e ↦ rw e (
            run_last rounds m (i + 1) o.state done exists kept
              (sym (ap (λ (x : Outcome). x.next) (else_at e _ _)) ∙ over))
      ]

  -- For such a display with all four pages, the progress at `c` up to 100, once node 100 has been
  -- read and while the property says 100: within 3 * (100 - c) + 1 rounds the loop over the display
  -- ends by itself, without a crash, and ui_get_current_page_name then gives the success page.
  pub screen_run_finishes :
      (props : ℕ → Props) (m i c : ℕ) (st : Ota) (s : Store)
      → 1 ≤ sync_time
      → Valid lv laws ds widget s
      → ((page : Page) → is_found (ui_find_page lv s (page_name page)) ≡ true)
      → ((j : ℕ) → (props j).0 ≡ some (pos 100))
      → Inv st.progress
      → st.progress.prev_node ≡ pos 100
      → st.progress.current ≡ pos c
      → c ≤ 100
      → 3 * (100 - c) < m
      → (o : Outcome) × (s' : Store) × (screen_run lv sync_time false m props i st s ≡ some (o, s'))
        × (o.next ≡ finished)
        × (pos 100 ≤ℤ o.state.progress.current)
        × (ui_get_current_page_name lv s' ≡ some (page_name upgrade_success_page))
  screen_run_finishes props m i c st s period valid pages at_end v at_100 at_c low long =
      let rounds : ℕ → Round = λ j. answers lv sync_time false (props j) s in
      let done : (j : ℕ) → IsDone (rounds j) =
        λ j. record { shows = pages; sets_progress = refl; current_prop = at_end j } in
      let (over, reached) = run_finishes sync_time rounds done m i c st v at_100 at_c long in
      let (s', runs, left) = screen_run_refines props m i c st s period valid at_c (omega arith) in
      let last = run_last rounds m i st done (λ j. pages upgrade_success_page) at_100 over in
      (
        run sync_time false m rounds i st,
        s',
        runs,
        over,
        reached,
        left.current over ∙ ap (λ p. some (page_name p)) last,
      )
