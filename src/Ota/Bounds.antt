-- ===== src/Ota/Bounds.antt =====
-- ota_calc_progress of ui/ui_ota.c: how far, how fast and how soon.
use openvela_frameworks_syst.Prelude.{◌≤◌, ◌≡◌, ◌⊎◌, arith, if◌then◌else◌}
use openvela_frameworks_syst.Prelude.Int.{ℤ, pos, ◌≤ℤ◌, ltb_ℤ}
use openvela_frameworks_syst.Ota.{Progress, suc_ℤ, calc_progress}

-- The counters stay far below 2^32.
pub record Inv (p : Progress) : Type 0 where
  pub fast : p.fast_tick_count ≤ 2
  pub slow : p.slow_tick_count ≤ 100

-- A call of ota_calc_progress keeps the fast counter at most 2 and the slow one at most 100.
pub calc_progress-Inv : (p : Progress) → Inv p → Inv (calc_progress p)
unfolding calc_progress
calc_progress-Inv p v = ground arith

abbrev pub max_ℤ : ℤ → ℤ → ℤ
max_ℤ a b = if ltb_ℤ a b then b else a

-- A call raises the progress by one, leaves it, or sets it to 99 from 99 or more; it goes past
-- neither both nodes nor, while the node reached is below 100, past 99; and the nodes stay.
calc_progress_bounds :
    (p : Progress)
    → p.current ≤ℤ max_ℤ p.prev_node p.next_node
    → let q = calc_progress p in
      (q.current ≤ℤ max_ℤ p.prev_node p.next_node)
      × ((pos 100 ≤ℤ p.prev_node) ⊎ (q.current ≤ℤ pos 99))
      × ((q.current ≡ p.current)
          ⊎ (q.current ≡ suc_ℤ p.current)
          ⊎ ((q.current ≡ pos 99) × (pos 99 ≤ℤ p.current)))
      × (q.prev_node ≡ p.prev_node)
      × (q.next_node ≡ p.next_node)
unfolding calc_progress
calc_progress_bounds p h = ground arith

-- Progress 100 is shown only when the node reached is at least 100, and the nodes stay.
pub calc_progress_capped :
    (p : Progress)
    → ((pos 100 ≤ℤ p.prev_node) ⊎ ((calc_progress p).current ≤ℤ pos 99))
      × ((calc_progress p).prev_node ≡ p.prev_node)
unfolding calc_progress
calc_progress_capped p = ground arith
