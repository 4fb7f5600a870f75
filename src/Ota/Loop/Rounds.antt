-- ===== src/Ota/Loop/Rounds.antt =====
-- What a round of the loop in ui/ui_ota.c shows, and when the loop ends.
use openvela_frameworks_syst.Prelude.{
  ℕ, zero, suc, ◌+◌, ◌-◌, ◌*◌, ◌^◌, ◌%◌, ◌≤◌, ◌<◌, ◌≡◌, ◌≢◌, ◌⊎◌, ap, inl, inr, Bool, true, false,
  some, [], ◌∷◌, arith, ◌==◌,
}
use openvela_frameworks_syst.Prelude.Int.{ℤ, pos, pos_part, ◌≤ℤ◌, is_neg}
use openvela_frameworks_syst.Ota.{calc_progress, sync_progress}
use openvela_frameworks_syst.Ota.Bounds.{Inv, calc_progress-Inv, calc_progress_capped}
use openvela_frameworks_syst.Ota.Pace.{calc_progress_nearer}
use openvela_frameworks_syst.Ota.Loop.{
  Page, upgrading_page, upgrade_success_page, upgrade_fail_page, Round, Ota, tick_ms, go_on,
  finished, ends, synced, round, run,
}

module _ (sync_time : ℕ) (r : Round) (s : Ota) where
  -- A round of the upgrade screen shows the failure page alone, with the node below 0; or the
  -- upgrading page alone, with the node at least 0; or that page and then the success page, which
  -- it does only with the page there and both the node and the progress at least 100.
  round_shown :
      let o = round sync_time false r s in
      let q = o.state.progress in
      ((o.shown ≡ upgrade_fail_page ∷ []) × (is_neg q.prev_node ≡ true))
      ⊎ ((o.shown ≡ upgrading_page ∷ []) × (is_neg q.prev_node ≡ false))
      ⊎ ((o.shown ≡ upgrading_page ∷ upgrade_success_page ∷ [])
          × (r.success_exists ≡ true)
          × (pos 100 ≤ℤ q.prev_node)
          × (pos 100 ≤ℤ q.current))
  unfolding round
  round_shown = ground (arith, calc_progress_capped (synced sync_time false r s))

  -- A round of the upgrade screen that ends the loop has found the node below 0, or both the node and
  -- the progress at least 100.
  pub round_finished :
      (round sync_time false r s).next ≡ finished
      → let q = (round sync_time false r s).state.progress in
        (is_neg q.prev_node ≡ true) ⊎ ((pos 100 ≤ℤ q.prev_node) × (pos 100 ≤ℤ q.current))
  unfolding round
  round_finished h = ground (arith, calc_progress_capped (synced sync_time false r s))

-- The upgrade is done, and the display answers without errors.
pub record IsDone (r : Round) : Type 0 where
  pub shows : (p : Page) → r.shows p ≡ true
  pub sets_progress : r.sets_progress ≡ true
  pub current_prop : r.current_prop ≡ some (pos 100)

pub synced_done :
    (sync_time : ℕ) (r : Round) (s : Ota)
    → IsDone r
    → s.progress.prev_node ≡ pos 100
    → let p = synced sync_time false r s in
      (p.prev_node ≡ pos 100)
      × (p.current ≡ s.progress.current)
      × (p.fast_tick_count ≡ s.progress.fast_tick_count)
      × (p.slow_tick_count ≡ s.progress.slow_tick_count)
unfolding synced sync_progress
synced_done sync_time r s done at_100 = ground (arith, done.current_prop)

-- Such a round ends the loop, or goes on with the progress of one call.
round_done :
    (sync_time : ℕ) (r : Round) (s : Ota)
    → IsDone r
    → s.progress.prev_node ≡ pos 100
    → let o = round sync_time false r s in
      (o.state.progress ≡ calc_progress (synced sync_time false r s))
      × (((o.next ≡ finished) × (pos 100 ≤ℤ o.state.progress.current))
          ⊎ ((o.next ≡ go_on) × (o.state.progress.current ≤ℤ pos 99)))
unfolding round
round_done sync_time r s done at_100 = ground (
  arith,
  synced_done sync_time r s done at_100,
  calc_progress_capped (synced sync_time false r s),
  done.shows upgrading_page,
  done.shows upgrade_success_page,
  done.sets_progress,
)

module _ (sync_time : ℕ) (rounds : ℕ → Round) (done : (j : ℕ) → IsDone (rounds j)) where
  -- The first round of a run, taken apart.
  run_ends :
      (n i : ℕ) (s : Ota)
      → (round sync_time false (rounds i) s).next ≡ finished
      → run sync_time false (suc n) rounds i s ≡ round sync_time false (rounds i) s
  unfolding run
  run_ends n i s e = rw (ap ends e)

  run_goes_on :
      (n i : ℕ) (s : Ota)
      → (round sync_time false (rounds i) s).next ≡ go_on
      → run sync_time false (suc n) rounds i s
        ≡ run sync_time false n rounds (i + 1) (round sync_time false (rounds i) s).state
  unfolding run
  run_goes_on n i s e = rw (ap ends e)

  lag_falls :
      (c c' f f' n : ℕ)
      → 3 * (100 - c) - f < suc n
      → 3 * (100 - c') - f' ≤ 3 * (100 - c) - f - 1
      → f' ≤ 2
      → c' ≤ 99
      → 3 * (100 - c') - f' < n
  lag_falls c c' f f' n h near small below = omega arith

  below_100 : (a : ℤ) → a ≤ℤ pos 99 → pos_part a ≤ 99
  below_100 a h = ground arith

  run_finishes_from :
      (n i c : ℕ) (s : Ota)
      → Inv s.progress
      → s.progress.prev_node ≡ pos 100
      → s.progress.current ≡ pos c
      → 3 * (100 - c) - s.progress.fast_tick_count < n
      → let o = run sync_time false n rounds i s in
        (o.next ≡ finished) × (pos 100 ≤ℤ o.state.progress.current)
  run_finishes_from zero i c s v at_100 at_c h = absurd (omega arith)
  run_finishes_from (suc n) i c s v at_100 at_c h =
      let p = synced sync_time false (rounds i) s in
      let o = round sync_time false (rounds i) s in
      let kept = synced_done sync_time (rounds i) s (done i) at_100 in
      let v' : Inv p = ground arith in
      let near = calc_progress_nearer p c 100 v' (ground arith) kept.0 in
      let (same, ends) = round_done sync_time (rounds i) s (done i) at_100 in
      elim ends [
        | inl (last, reached) ↦ rw (run_ends n i s last) (last, reached)
        | inr (more, short) ↦ rw (run_goes_on n i s more) (
            run_finishes_from n (i + 1) (pos_part (calc_progress p).current) o.state
              (rw same (calc_progress-Inv p v')) (rw same near.2) (rw same near.0)
              (lag_falls c (pos_part (calc_progress p).current) s.progress.fast_tick_count
                o.state.progress.fast_tick_count n h (rw same (omega (arith, near.1, kept.2)))
                (rw same (calc_progress-Inv p v').fast)
                (below_100 (calc_progress p).current (rw same at short))))
      ]

  -- The upgrade screen with the progress at `c`, once node 100 has been read and while the property
  -- says 100 and the display answers without errors: within 3 * (100 - c) + 1 rounds the loop ends by
  -- itself, and the progress is then at least 100.
  pub run_finishes :
      (n i c : ℕ) (s : Ota)
      → Inv s.progress
      → s.progress.prev_node ≡ pos 100
      → s.progress.current ≡ pos c
      → 3 * (100 - c) < n
      → let o = run sync_time false n rounds i s in
        (o.next ≡ finished) × (pos 100 ≤ℤ o.state.progress.current)
  run_finishes n i c s v at_100 at_c h = run_finishes_from n i c s v at_100 at_c (omega arith)

ne→not_eq : (a b : ℕ) → a ≢ b → (a == b) ≡ false
ne→not_eq a b h = ground arith

-- With the default period of 40000, when `count_tick_ms` has wrapped once, a round reads the
-- properties no more: whatever they say, the progress is as it was.
pub synced_wrapped :
    (logo_mode : Bool) (r : Round) (s : Ota) (k : ℕ)
    → 2 ^ 32 ≤ k * tick_ms
    → k * tick_ms < 2 * 2 ^ 32
    → s.count_tick_ms ≡ k * tick_ms % 2 ^ 32
    → synced 40000 logo_mode r s ≡ s.progress
unfolding synced
synced_wrapped logo_mode r s k lo hi e = rw (ne→not_eq (s.count_tick_ms % 40000) 0 (omega arith))
