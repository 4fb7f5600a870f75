-- ===== src/Boot/Invariant.antt =====
-- The boot flags between two commands: bootctl/bootctl.c as a state machine.
use openvela_frameworks_syst.Prelude.{◌≡◌, ◌⊎◌, true, false, List, [], ◌∷◌, arith}
use openvela_frameworks_syst.Boot.{Bootctl, update_flags, done_flags, mark_success, boot_flags}
use openvela_frameworks_syst.Boot.Select.{flags_of, other}

-- Exactly one slot is active, and a slot that is active or successful is marked bootable.
pub record Inv (boot : Bootctl) : Type 0 where
  pub exclusive :
      ((boot.slot_a.active ≡ true) × (boot.slot_b.active ≡ false))
      ⊎ ((boot.slot_a.active ≡ false) × (boot.slot_b.active ≡ true))
  pub active_a : boot.slot_a.active ≡ true → boot.slot_a.bootable ≡ true
  pub active_b : boot.slot_b.active ≡ true → boot.slot_b.bootable ≡ true
  pub successful_a : boot.slot_a.successful ≡ true → boot.slot_a.bootable ≡ true
  pub successful_b : boot.slot_b.successful ≡ true → boot.slot_b.bootable ≡ true

-- The commands, and the reboot into bootctl_boot.
pub data Command : Type 0 where
  update done success reboot : Command

unfoldable pub step : Bootctl → Command → Bootctl
step boot update = update_flags boot
step boot done = done_flags boot
step boot success = mark_success boot
step boot reboot = (boot_flags boot).1

unfoldable pub run : Bootctl → List Command → Bootctl
run boot [] = boot
run boot (c ∷ cs) = run (step boot c) cs

update_flags-Inv : (boot : Bootctl) → Inv boot → Inv (update_flags boot)
unfolding update_flags
update_flags-Inv boot v = ground arith

done_flags-Inv : (boot : Bootctl) → Inv boot → Inv (done_flags boot)
unfolding done_flags
done_flags-Inv boot v = ground arith

mark_success-Inv : (boot : Bootctl) → Inv boot → Inv (mark_success boot)
unfolding mark_success
mark_success-Inv boot v = ground arith

boot_flags-Inv : (boot : Bootctl) → Inv boot → Inv (boot_flags boot).1
unfolding boot_flags
boot_flags-Inv boot v = ground arith

pub step-Inv : (boot : Bootctl) (c : Command) → Inv boot → Inv (step boot c)
unfolding step
step-Inv boot update v = update_flags-Inv boot v
step-Inv boot done v = done_flags-Inv boot v
step-Inv boot success v = mark_success-Inv boot v
step-Inv boot reboot v = boot_flags-Inv boot v

run_from-Inv : (boot : Bootctl) (cs : List Command) → Inv boot → Inv (run boot cs)
unfolding run
run_from-Inv boot [] v = v
run_from-Inv boot (c ∷ cs) v = run_from-Inv (step boot c) cs (step-Inv boot c v)

-- The first boot of a device: whatever the other five flags are, if neither slot is active.
first_boot-Inv :
    (boot : Bootctl)
    → boot.slot_a.active ≡ false
    → boot.slot_b.active ≡ false
    → Inv (boot_flags boot).1
unfolding boot_flags
first_boot-Inv boot p q = ground arith

-- Boot a device whose flags mark no slot active, then give it the commands update, done and success
-- and reboots in any order and number: exactly one slot is active, and a slot that is active or
-- successful is marked bootable.
pub run-Inv :
    (boot : Bootctl) (cs : List Command)
    → boot.slot_a.active ≡ false
    → boot.slot_b.active ≡ false
    → Inv (run boot (reboot ∷ cs))
unfolding run step
run-Inv boot cs p q = run_from-Inv (boot_flags boot).1 cs (first_boot-Inv boot p q)

-- For flags of which exactly one slot is active, and every active or successful slot is marked
-- bootable: the slot that bootctl_boot selects is the only active one in the flags that it writes,
-- and it is marked bootable in them.
pub boot_flags-exclusive :
    (boot : Bootctl)
    → Inv boot
    → let (s, after) = boot_flags boot in
      ((flags_of s after).active ≡ true)
      × ((flags_of (other s) after).active ≡ false)
      × ((flags_of s after).bootable ≡ true)
unfolding boot_flags
boot_flags-exclusive boot v = ground arith
