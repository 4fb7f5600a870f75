-- ===== src/Boot/Store/Commands.antt =====
-- Histories of bootctl commands over the property store, against the state machine of the flags.
use openvela_frameworks_syst.Prelude.{
  ◌≡◌, refl, ap, ◌∙◌, false, some, arith, inl, inr, Bool-cases, List, [], ◌∷◌,
}
use openvela_frameworks_syst.Prelude.Int.{ℤ, is_neg}
use openvela_frameworks_syst.Boot.{
  Bootctl, update_flags, done_flags, success_needed, success_flags, mark_success, boot_flags,
}
use openvela_frameworks_syst.Boot.Invariant.{Inv, Command, update, done, success, reboot, step, run}
use openvela_frameworks_syst.Boot.Store.{
  Kvdb, KvdbLaws, write_config, read_config, bootctl_update, bootctl_done, bootctl_success,
  bootctl_active, bootctl_boot,
}
use openvela_frameworks_syst.Boot.Store.Refine.{write_config-ok}

module _ (kv : Kvdb) where
  -- A command over the store; of a reboot, the return of its write, which bootctl_boot drops.
  unfoldable pub execute : Command → kv.Store → ℤ × kv.Store
  execute update s = bootctl_update kv s
  execute done s = bootctl_done kv s
  execute success s = bootctl_success kv s
  execute reboot s = write_config kv (boot_flags (read_config kv s)).1 s

  pub execute_all : List Command → kv.Store → kv.Store
  execute_all [] s = s
  execute_all (c ∷ cs) s = execute_all cs (execute c s).1

  -- No command of the history meets an error.
  abbrev pub AllFine : List Command → kv.Store → Type 0
  AllFine [] s = Unit {0}
  AllFine (c ∷ cs) s = (is_neg (execute c s).0 ≡ false) × AllFine cs (execute c s).1

module _ (kv : Kvdb) (laws : KvdbLaws kv) where
  success_refines :
      (s : kv.Store)
      → is_neg (bootctl_success kv s).0 ≡ false
      → read_config kv (bootctl_success kv s).1 ≡ mark_success (read_config kv s)
  unfolding bootctl_success mark_success
  success_refines s fine = elim (Bool-cases (success_needed (read_config kv s))) [
    | inl needed ↦
        rw needed (write_config-ok kv laws (success_flags (read_config kv s)) s (rw needed at fine))
    | inr idle ↦ rw idle refl
  ]

  execute_refines :
      (c : Command) (s : kv.Store)
      → is_neg (execute kv c s).0 ≡ false
      → read_config kv (execute kv c s).1 ≡ step (read_config kv s) c
  unfolding execute step bootctl_update bootctl_done
  execute_refines update s fine = write_config-ok kv laws (update_flags (read_config kv s)) s fine
  execute_refines done s fine = write_config-ok kv laws (done_flags (read_config kv s)) s fine
  execute_refines success s fine = success_refines s fine
  execute_refines reboot s fine = write_config-ok kv laws (boot_flags (read_config kv s)).1 s fine

  -- Over every store that keeps the laws, a history of bootctl commands and reboots that meets no
  -- error leaves in the store the flags to which the state machine goes from those at the start.
  pub execute_all_refines :
      (cs : List Command) (s : kv.Store)
      → AllFine kv cs s
      → read_config kv (execute_all kv cs s) ≡ run (read_config kv s) cs
  unfolding execute_all run
  execute_all_refines [] s fine = refl
  execute_all_refines (c ∷ cs) s fine =
      execute_all_refines cs (execute kv c s).1 fine.1
      ∙ ap (λ boot. run boot cs) (execute_refines c s fine.0)

  active-boot_flags :
      (s : kv.Store) (boot : Bootctl)
      → Inv boot
      → read_config kv s ≡ (boot_flags boot).1
      → bootctl_active kv s ≡ some (boot_flags boot).0
  unfolding bootctl_active boot_flags
  active-boot_flags s boot v e = rw e (ground arith)

  -- Over every store that keeps the laws, with exactly one slot active and the active and successful
  -- ones bootable: after a bootctl_boot whose write meets no error, bootctl_active returns the slot
  -- that was booted.
  bootctl_active-bootctl_boot :
      (s : kv.Store)
      → Inv (read_config kv s)
      → is_neg (execute kv reboot s).0 ≡ false
      → bootctl_active kv (bootctl_boot kv s).1 ≡ some (bootctl_boot kv s).0
  unfolding bootctl_boot execute
  bootctl_active-bootctl_boot s v fine =
      active-boot_flags _ (read_config kv s) v
        (write_config-ok kv laws (boot_flags (read_config kv s)).1 s fine)
