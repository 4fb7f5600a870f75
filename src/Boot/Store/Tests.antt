-- ===== src/Boot/Store/Tests.antt =====
-- The theorems on bootctl at concrete flags and stores, and runs of the commands.
use openvela_frameworks_syst.Prelude.{
  ℕ, ◌≤◌, ◌≡◌, refl, Bool, true, false, some, [], ◌∷◌, arith, ◌==◌, ◌||◌,
}
use openvela_frameworks_syst.Prelude.Int.{pos, negsuc, is_neg}
use openvela_frameworks_syst.Boot.{
  Bootctl, image_a, image_b, cleared, boot_flags, mark_success, success_needed,
}
use openvela_frameworks_syst.Boot.Invariant.{
  Inv, update, done, success, reboot, run, run-Inv, boot_flags-exclusive,
}
use openvela_frameworks_syst.Boot.Upgrade.{
  IsConfirmed, upgraded, upgrade_commits, upgrade_falls_back, retry, retries, upgrade_never_tried,
}
use openvela_frameworks_syst.Boot.Command.{main}
use openvela_frameworks_syst.Boot.Store.{
  Key, slot_a_active, slot_a_bootable, slot_a_successful, slot_b_active, slot_b_bootable,
  slot_b_successful, slot_try, write_config, read_config, bootctl_active, bootctl_update,
  bootctl_done, bootctl_success, bootctl_boot, set_then, Kvdb, key_index,
}
use openvela_frameworks_syst.Boot.Store.Memory.{Memory, memory, memory-laws, faulty, faulty-laws}
use openvela_frameworks_syst.Boot.Store.Refine.{written, write_config_lem}
use openvela_frameworks_syst.Boot.Store.Commands.{execute, execute_all, execute_all_refines}
use openvela_frameworks_syst.Boot.Store.Crash.{
  interrupted_update, interrupted_done, half_done_both_active,
}

-- The flags of a device that runs slot A, confirmed.
abbrev running_a : Bootctl
running_a = record {
  slot_a = record { active = true; bootable = true; successful = true };
  slot_b = cleared;
  try = false;
}

abbrev blank : Bootctl
blank = record { slot_a = cleared; slot_b = cleared; try = false }

-- The same in a store, with a budget of writes.
abbrev properties_a : Key → Bool
properties_a slot_a_active = true
properties_a slot_a_bootable = true
properties_a slot_a_successful = true
properties_a slot_b_active = false
properties_a slot_b_bootable = false
properties_a slot_b_successful = false
properties_a slot_try = false

abbrev store_a : ℕ → Memory
store_a n = record { budget = n; property = properties_a }

running_a-IsConfirmed : IsConfirmed image_a false running_a
running_a-IsConfirmed = ground arith

run-Inv_example : Inv (run blank (reboot ∷ success ∷ update ∷ done ∷ reboot ∷ []))
run-Inv_example = run-Inv blank (success ∷ update ∷ done ∷ reboot ∷ []) refl refl

running_a-Inv : Inv running_a
running_a-Inv = ground arith

boot_flags-exclusive_example :
    ((boot_flags running_a).1.slot_a.active ≡ true)
    × ((boot_flags running_a).1.slot_b.active ≡ false)
    × ((boot_flags running_a).1.slot_a.bootable ≡ true)
unfolding boot_flags
boot_flags-exclusive_example = boot_flags-exclusive running_a running_a-Inv

upgrade_commits_example :
    ((boot_flags (upgraded running_a)).0 ≡ image_b)
    × IsConfirmed image_b false (mark_success (boot_flags (upgraded running_a)).1)
    × ((mark_success (boot_flags (upgraded running_a)).1).slot_a.successful ≡ true)
upgrade_commits_example = upgrade_commits running_a image_a running_a-IsConfirmed

upgrade_falls_back_example :
    ((boot_flags (boot_flags (upgraded running_a)).1).0 ≡ image_a)
    × IsConfirmed image_a true (boot_flags (boot_flags (upgraded running_a)).1).1
    × ((boot_flags (boot_flags (upgraded running_a)).1).1.slot_b.bootable ≡ false)
upgrade_falls_back_example = upgrade_falls_back running_a image_a running_a-IsConfirmed

-- The flags after that failed upgrade.
abbrev after_failure : Bootctl
after_failure = record running_a { try = true }

upgrade_never_tried_example : (retry (retries 3 after_failure)).0 ≡ image_a
upgrade_never_tried_example = upgrade_never_tried 3 image_a after_failure (ground arith)

write_config_lem_example :
    (n : ℕ) × (n ≤ 7)
    × (read_config memory (write_config memory after_failure (store_a 4)).1
        ≡ written n after_failure (read_config memory (store_a 4)))
    × (is_neg (write_config memory after_failure (store_a 4)).0 ≡ false → n ≡ 7)
write_config_lem_example = write_config_lem memory memory-laws after_failure (store_a 4)

execute_all_refines_example :
    read_config memory (execute_all memory (success ∷ update ∷ done ∷ reboot ∷ []) (store_a 100))
    ≡ run (read_config memory (store_a 100)) (success ∷ update ∷ done ∷ reboot ∷ [])
unfolding execute write_config read_config set_then bootctl_success bootctl_update bootctl_done
    success_needed
execute_all_refines_example =
    execute_all_refines memory memory-laws (success ∷ update ∷ done ∷ reboot ∷ []) (store_a 100)
      (refl, (refl, (refl, (refl, tt))))

interrupted_update_example :
    (boot_flags (read_config memory (bootctl_update memory (store_a 5)).1)).0 ≡ image_a
unfolding read_config
interrupted_update_example =
    interrupted_update memory memory-laws (store_a 5) image_a running_a-IsConfirmed

-- The ninth write fails, which is the second of bootctl_done.
abbrev ninth : Kvdb
ninth = faulty (λ i k. i == 8)

interrupted_done_example :
    (bootctl_boot ninth
      (bootctl_boot ninth (bootctl_done ninth (bootctl_update ninth (store_a 0)).1).1).1).0
    ≡ image_a
unfolding read_config bootctl_update bootctl_done write_config set_then boot_flags
interrupted_done_example =
    interrupted_done ninth (faulty-laws (λ i k. i == 8)) (store_a 0) image_a running_a-IsConfirmed
      refl refl

-- Slot B runs, and the store refuses its active flag.
abbrev store_b : Memory
store_b = record {
  budget = 0;
  property = λ k. key_index k == 3 || (key_index k == 4 || key_index k == 5);
}

abbrev refusing : Kvdb
refusing = faulty (λ i k. key_index k == 3)

half_done_both_active_example :
    let after = read_config refusing (bootctl_done refusing store_b).1 in
    (after.slot_a.active ≡ true) × (after.slot_b.active ≡ true)
unfolding read_config
half_done_both_active_example =
    half_done_both_active refusing (faulty-laws (λ i k. key_index k == 3)) store_b refl refl
      (λ v t. refl) (λ v t. refl)

-- The command line: an update that runs out of writes returns the error, and `slot` prints.
main_slot :
    main memory ("bootctl" ∷ "slot" ∷ []) (store_a 0) ≡ (pos 0, some (some image_a), store_a 0)
unfolding main bootctl_active read_config
main_slot = refl

main_update_fails : (main memory ("bootctl" ∷ "update" ∷ []) (store_a 6)).0 ≡ negsuc 4
unfolding main bootctl_update write_config set_then read_config
main_update_fails = refl
