-- ===== src/Ota/Loop.antt =====
-- The loop of `main` in ui/ui_ota.c. What the display answers and what the property store holds at
-- each round are parameters; the round is counted by the caller.
pub mod Rounds
use openvela_frameworks_syst.Prelude.{
  ℕ, zero, suc, ◌+◌, ◌*◌, ◌^◌, ◌%◌, ◌≡◌, Bool, true, false, ◌&&◌, ◌||◌, not, ◌==◌, Option, none,
  some, List, [], ◌∷◌, if◌then◌else◌,
}
use openvela_frameworks_syst.Prelude.Int.{ℤ, pos, negsuc, ltb_ℤ, is_neg}
use openvela_frameworks_syst.Ota.{Progress, calc_progress, sync_progress}

-- The page names.
pub data Page : Type 0 where
  logo_page upgrading_page upgrade_success_page upgrade_fail_page : Page

-- The answers of ui_page_show, ui_set_progress and ui_page_exist in a round, `true` for UI_SUCCESS,
-- and the two progress properties.
pub record Round : Type 0 where
  pub shows : Page → Bool
  pub sets_progress : Bool
  pub success_exists : Bool
  pub current_prop : Option ℤ
  pub next_prop : Option ℤ

-- `count_tick_ms` is an int32_t, kept as its bit pattern: the test converts it to uint32_t.
pub record Ota : Type 0 where
  pub progress : Progress
  pub count_tick_ms : ℕ

-- UI_TICK_MS
abbrev pub tick_ms : ℕ
tick_ms = 10000

-- What a round does next: go on, break on an error of the display, or end after the last page.
pub data Next : Type 0 where
  go_on broken finished : Next

-- The `break` of the loop.
abbrev pub ends : Next → Bool
ends go_on = false
ends _ = true

-- The pages that a round shows, in order, and what it does next.
pub record Outcome : Type 0 where
  pub shown : List Page
  pub next : Next
  pub state : Ota

module _ (sync_time : ℕ) (logo_mode : Bool) where
  -- For a `sync_time` that is not 0; with 0 the remainder is a crash, see Ota/Screen.
  unfoldable pub synced : Round → Ota → Progress
  synced r s =
      if s.count_tick_ms % sync_time == 0
      then sync_progress r.current_prop r.next_prop s.progress
      else s.progress

  -- From the test of `ret` on.
  unfoldable pub end_round : List Page → Bool → Progress → ℕ → Outcome
  end_round shown ok p count =
      if not ok
      then record {
        shown = shown;
        next = broken;
        state = record { progress = p; count_tick_ms = count };
      }
      else record {
        shown = shown;
        next =
            if logo_mode || is_neg p.prev_node || not (ltb_ℤ p.current (pos 100))
            then finished
            else go_on;
        state = record { progress = p; count_tick_ms = (count + tick_ms) % 2 ^ 32 };
      }

  -- The upgrade screen: `ret` of the first ui_page_show is overwritten.
  unfoldable pub upgrading : Round → Progress → ℕ → Outcome
  upgrading r p count =
      let q = calc_progress p in
      if r.success_exists && not (ltb_ℤ q.current (pos 100))
      then end_round (upgrading_page ∷ upgrade_success_page ∷ []) (r.shows upgrade_success_page) q
          count
      else end_round (upgrading_page ∷ []) r.sets_progress q count

  unfoldable pub round : Round → Ota → Outcome
  unfolding synced end_round upgrading
  round r s =
      let p = synced r s in
      if logo_mode
      then end_round (logo_page ∷ []) (r.shows logo_page) p s.count_tick_ms
      else if is_neg p.prev_node
      then end_round (upgrade_fail_page ∷ []) (r.shows upgrade_fail_page) p s.count_tick_ms
      else upgrading r p s.count_tick_ms

  -- The loop, with the rounds' answers from round `i` on and a bound on their number.
  unfoldable pub run : ℕ → (ℕ → Round) → ℕ → Ota → Outcome
  run zero rounds i s = record { shown = []; next = go_on; state = s }
  run (suc n) rounds i s =
      let o = round (rounds i) s in
      let rest = run n rounds (i + 1) o.state in if ends o.next then o else rest

-- Behind the loop: the command is executed when the upgrade failed, or its node is above 100.
unfoldable pub executes_command : Option ℤ → Option ℤ → Progress → Bool
executes_command current next p =
    let q = sync_progress current next p in is_neg q.prev_node || ltb_ℤ (pos 100) q.prev_node

-- set_test_value: the two properties that a test value sets, if it is in range.
unfoldable pub test_value : ℕ → Option (ℤ × ℤ)
test_value val =
    if val == 0
    then some (pos 0, pos 20)
    else if val == 1
    then some (pos 20, pos 40)
    else if val == 2
    then some (pos 40, pos 60)
    else if val == 3
    then some (pos 60, pos 90)
    else if val == 4
    then some (pos 90, pos 100)
    else if val == 5
    then some (pos 100, pos 100)
    else if val == 6
    then some (negsuc 0, pos 100)
    else none
