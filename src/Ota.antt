-- ===== src/Ota.antt =====
-- ui/ui_ota.c: the progress that the upgrade screen shows, and the program's loop.
pub mod Bounds
pub mod Pace
pub mod Loop
pub mod Screen
mod Tests
use openvela_frameworks_syst.Prelude.{
  ℕ, zero, suc, ◌+◌, ◌^◌, ◌%◌, Bool, true, false, ◌&&◌, ◌||◌, not, leb, ◌==◌, Option, none, some,
  if◌then◌else◌,
}
use openvela_frameworks_syst.Prelude.Int.{ℤ, pos, negsuc, ltb_ℤ, is_neg}

-- struct upgrade_progress_s, and the two static counters of ota_calc_progress.
pub record Progress : Type 0 where
  pub current : ℤ
  pub prev_node : ℤ
  pub next_node : ℤ
  pub slow_tick_count : ℕ
  pub fast_tick_count : ℕ

-- `current++`, which is reached only below another `int32_t`.
abbrev pub suc_ℤ : ℤ → ℤ
suc_ℤ (pos n) = pos (suc n)
suc_ℤ (negsuc zero) = pos 0
suc_ℤ (negsuc (suc n)) = negsuc n

abbrev pub tick : ℕ → ℕ
tick n = (n + 1) % 2 ^ 32

-- `progress->current++; slow_tick_count = fast_tick_count = 0;`
abbrev pub advance : Progress → Progress
advance p = record p { current = suc_ℤ p.current; slow_tick_count = 0; fast_tick_count = 0 }

-- The else branch of the first test.
pub slow_step : Progress → Progress
slow_step p =
    if ltb_ℤ p.current p.next_node
    then (if leb 100 p.slow_tick_count
        then advance p
        else record p { slow_tick_count = tick p.slow_tick_count })
    else p

-- The first test counts only when its left side holds.
pub count_step : Progress → Progress
unfolding slow_step
count_step p =
    if ltb_ℤ p.current p.prev_node
    then (if leb 2 p.fast_tick_count
        then advance p
        else slow_step (record p { fast_tick_count = tick p.fast_tick_count }))
    else slow_step p

-- The last test: 100 is not shown before the upgrade has reached it.
pub clamp : Progress → Progress
clamp p =
    if not (ltb_ℤ p.current (pos 100)) && ltb_ℤ p.prev_node (pos 100)
    then record p { current = pos 99 }
    else p

pub calc_progress : Progress → Progress
unfolding clamp count_step
calc_progress p = clamp (count_step p)

-- ota_upgrade_prop_get: a property that is missing counts as 0.
unfoldable pub prop_get : Option ℤ → ℤ
prop_get none = pos 0
prop_get (some n) = n

-- ota_sync_upgrade_progress, from what property_get and strtol make of the two properties.
unfoldable pub sync_progress : Option ℤ → Option ℤ → Progress → Progress
unfolding prop_get
sync_progress current next p = record p { prev_node = prop_get current; next_node = prop_get next }
