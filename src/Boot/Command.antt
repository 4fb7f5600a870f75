-- ===== src/Boot/Command.antt =====
-- The command line of bootctl (bootctl/bootctl.c, `main` without CONFIG_UTILS_BOOTCTL_ENTRY).
use text.Mathlib.Text.{◌==◌ as str_eq}
use openvela_frameworks_syst.Prelude.{String, Option, none, some, List, [], ◌∷◌, if◌then◌else◌}
use openvela_frameworks_syst.Prelude.Int.{ℤ, pos}
use openvela_frameworks_syst.Boot.{Slot}
use openvela_frameworks_syst.Boot.Store.{
  Kvdb, bootctl_active, bootctl_update, bootctl_done, bootctl_success,
}

module _ (kv : Kvdb) where
  -- What the program leaves: the exit status, the slot that it prints, if it prints one (`none`
  -- inside is the null pointer), and the store.
  abbrev pub Outcome : Type 0
  Outcome = ℤ × Option (Option Slot) × kv.Store

  abbrev quiet : ℤ × kv.Store → Outcome
  quiet (ret, s) = (ret, none, s)

  -- The argument list holds the program's name too, as `argv` does.
  unfoldable pub main : List String → kv.Store → Outcome
  main [] s = (pos 0, none, s)
  main (name ∷ []) s = (pos 0, none, (bootctl_success kv s).1)
  main (name ∷ command ∷ args) s =
      if str_eq command "update"
      then quiet (bootctl_update kv s)
      else if str_eq command "done"
      then quiet (bootctl_done kv s)
      else if str_eq command "slot"
      then (pos 0, some (bootctl_active kv s), s)
      else quiet (bootctl_success kv s)
