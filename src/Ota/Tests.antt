-- ===== src/Ota/Tests.antt =====
-- The theorems on the upgrade screen at concrete values.
use openvela_frameworks_syst.Prelude.{◌*◌, ◌^◌, ◌%◌, ◌≡◌, ◌⊎◌, refl, true, false, some, arith}
use openvela_frameworks_syst.Prelude.Int.{pos, negsuc, is_neg, ◌≤ℤ◌}
use openvela_frameworks_syst.Ota.{Progress, calc_progress, sync_progress}
use openvela_frameworks_syst.Ota.Bounds.{Inv}
use openvela_frameworks_syst.Ota.Loop.{Round, Ota, synced, round, executes_command, test_value}
use openvela_frameworks_syst.Ota.Loop.Rounds.{round_finished, IsDone, synced_wrapped}

abbrev start : Progress
start = record {
  current = pos 98;
  prev_node = pos 100;
  next_node = pos 100;
  slow_tick_count = 0;
  fast_tick_count = 0;
}

start-Inv : Inv start
start-Inv = omega arith

abbrev done_round : Round
done_round = record {
  shows = λ p. true;
  sets_progress = true;
  success_exists = true;
  current_prop = some (pos 100);
  next_prop = some (pos 100);
}

done_round-IsDone : IsDone done_round
done_round-IsDone = record { shows = λ p. refl; sets_progress = refl; current_prop = refl }

abbrev at_start : Ota
at_start = record { progress = start; count_tick_ms = 0 }

abbrev at_end : Ota
at_end = record { progress = record start { current = pos 100 }; count_tick_ms = 10000 }

round_finished_example :
    (is_neg (round 40000 false done_round at_end).state.progress.prev_node ≡ true)
    ⊎ ((pos 100 ≤ℤ (round 40000 false done_round at_end).state.progress.prev_node)
        × (pos 100 ≤ℤ (round 40000 false done_round at_end).state.progress.current))
unfolding round calc_progress
round_finished_example = round_finished 40000 done_round at_end refl

synced_wrapped_example :
    synced 40000 false done_round (record at_start { count_tick_ms = 429500 * 10000 % 2 ^ 32 })
    ≡ start
synced_wrapped_example =
    synced_wrapped false done_round (record at_start { count_tick_ms = 429500 * 10000 % 2 ^ 32 })
      429500 (omega arith) (omega arith) refl

-- The program ends without the command after an upgrade that reached node 100.
executes_nothing : executes_command (some (pos 100)) (some (pos 100)) start ≡ false
unfolding executes_command sync_progress
executes_nothing = refl

-- The last test value is the failure that the help text names.
test_value_6 : test_value 6 ≡ some (negsuc 0, pos 100)
unfolding test_value
test_value_6 = refl
