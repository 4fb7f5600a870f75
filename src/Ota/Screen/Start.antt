-- ===== src/Ota/Screen/Start.antt =====
-- The first round of the loop of ui/ui_ota.c, which reads the properties.
use openvela_frameworks_syst.Prelude.{
  Bool, ℕ, zero, suc, ◌%◌, ◌≤◌, ◌≡◌, refl, true, false, arith, ◌==◌, some, [], ◌∷◌,
}
use openvela_frameworks_syst.Prelude.Int.{ℤ, negsuc}
use openvela_frameworks_syst.Lvgl.{Lvgl}
use openvela_frameworks_syst.Ota.{Progress, prop_get, sync_progress}
use openvela_frameworks_syst.Ota.Loop.{upgrade_fail_page, Ota, Outcome, finished, end_round}
use openvela_frameworks_syst.Ota.Screen.{Props, page_name, show_round, screen_round, screen_run}
use openvela_frameworks_syst.Code.{succeeds}
use openvela_frameworks_syst.Display.{ui_page_show}

mod_zero : (n : ℕ) → (0 % n == 0) ≡ true
mod_zero zero = refl
mod_zero (suc n) = ground arith

-- The loop before its first round, with that progress.
abbrev pub at_start : Progress → Ota
at_start p = record { progress = p; count_tick_ms = 0 }

-- The node that is there at the start does not matter.
pub screen_run_started :
    (lv : Lvgl) (sync_time : ℕ) (logo_mode : Bool) (props : ℕ → Props) (m i : ℕ) (node : ℤ)
    (p : Progress) (s : lv.Store)
    → 1 ≤ m
    → 1 ≤ sync_time
    → screen_run lv sync_time logo_mode m props i (at_start p) s
      ≡ screen_run lv sync_time logo_mode m props i (at_start (record p { prev_node = node })) s
unfolding screen_run screen_round sync_progress
screen_run_started lv sync_time logo_mode props zero i node p s h period = absurd (omega arith)
screen_run_started lv sync_time logo_mode props (suc m) i node p s h period =
    rw (mod_zero sync_time) refl

-- A failed upgrade: one round shows its page and ends the loop.
pub screen_run_failed :
    (lv : Lvgl) (sync_time : ℕ) (props : ℕ → Props) (m i k : ℕ) (p : Progress) (s : lv.Store)
    → 1 ≤ sync_time
    → (props i).0 ≡ some (negsuc k)
    → succeeds (ui_page_show lv (page_name upgrade_fail_page) s).0 ≡ true
    → (o : Outcome) × (screen_run lv sync_time false (suc m) props i (at_start p) s
        ≡ some (o, (ui_page_show lv (page_name upgrade_fail_page) s).1))
      × (o.next ≡ finished)
      × (o.shown ≡ upgrade_fail_page ∷ [])
unfolding screen_run screen_round show_round end_round sync_progress prop_get
screen_run_failed lv sync_time props m i k p s period bad shows =
    let timed : (sync_time == 0) ≡ false = ground (arith, period) in
    rw timed (rw (mod_zero sync_time) (rw bad (rw shows (_, refl, refl, refl))))
