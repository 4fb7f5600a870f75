-- ===== src/Ota/Pace.antt =====
-- How soon ota_calc_progress of ui/ui_ota.c shows a node that the upgrade has reached.
use openvela_frameworks_syst.Prelude.{ℕ, zero, suc, ◌-◌, ◌*◌, ◌≤◌, ◌≡◌, arith}
use openvela_frameworks_syst.Prelude.Int.{pos, pos_part, ◌≤ℤ◌}
use openvela_frameworks_syst.Ota.{Progress, calc_progress}
use openvela_frameworks_syst.Ota.Bounds.{Inv, calc_progress-Inv}

-- `n` calls in a row.
pub calls : ℕ → Progress → Progress
calls zero p = p
calls (suc n) p = calls n (calc_progress p)

-- One call brings the progress nearer: three calls for each step are enough.
pub calc_progress_nearer :
    (p : Progress) (c b : ℕ)
    → Inv p
    → p.current ≡ pos c
    → p.prev_node ≡ pos b
    → let q = calc_progress p in
      (q.current ≡ pos (pos_part q.current))
      × (3 * (b - pos_part q.current) - q.fast_tick_count ≤ 3 * (b - c) - p.fast_tick_count - 1)
      × (q.prev_node ≡ pos b)
unfolding calc_progress
calc_progress_nearer p c b v at_c at_b = ground arith

calls_reach_from :
    (n : ℕ) (p : Progress) (c b : ℕ)
    → Inv p
    → p.current ≡ pos c
    → p.prev_node ≡ pos b
    → 3 * (b - c) - p.fast_tick_count ≤ n
    → pos b ≤ℤ (calls n p).current
unfolding calls
calls_reach_from zero p c b v at_c at_b h = ground (arith, v.fast)
calls_reach_from (suc n) p c b v at_c at_b h =
    let (at_c', near, at_b') = calc_progress_nearer p c b v at_c at_b in
    calls_reach_from n (calc_progress p) _ b (calc_progress-Inv p v) at_c' at_b' (omega arith)

-- With counters as the program keeps them: from a progress `c` of at least 0, when the upgrade has
-- reached node `b`, three calls for each of the `b - c` steps bring the progress to at least `b`.
calls_reach :
    (n : ℕ) (p : Progress) (c b : ℕ)
    → Inv p
    → p.current ≡ pos c
    → p.prev_node ≡ pos b
    → 3 * (b - c) ≤ n
    → pos b ≤ℤ (calls n p).current
calls_reach n p c b v at_c at_b h = calls_reach_from n p c b v at_c at_b (omega arith)
