-- ===== src/Boot/Upgrade.antt =====
-- An upgrade through bootctl/bootctl.c: update, done, the trial boot, and what follows it.
use openvela_frameworks_syst.Prelude.{ℕ, zero, suc, ◌≡◌, Bool, true, false, arith}
use openvela_frameworks_syst.Boot.{
  Bootctl, Slot, image_a, image_b, update_flags, done_flags, mark_success, boot_flags,
}
use openvela_frameworks_syst.Boot.Select.{flags_of, other}

-- The system runs from slot `s`, confirmed; `try` is as given.
pub record IsConfirmed (s : Slot) (try : Bool) (boot : Bootctl) : Type 0 where
  pub active : (flags_of s boot).active ≡ true
  pub bootable : (flags_of s boot).bootable ≡ true
  pub successful : (flags_of s boot).successful ≡ true
  pub alone : (flags_of (other s) boot).active ≡ false
  pub tried : boot.try ≡ try

-- The flags after the image of the other slot has been written.
pub upgraded : Bootctl → Bootctl
upgraded boot = done_flags (update_flags boot)

module _ (boot : Bootctl) where
  -- From a confirmed slot with `try` clear, the boot after update and done selects the other slot,
  -- and success then leaves that slot confirmed with `try` clear, the old one still successful.
  pub upgrade_commits :
      (s : Slot)
      → IsConfirmed s false boot
      → let (t, trial) = boot_flags (upgraded boot) in
        (t ≡ other s)
        × IsConfirmed (other s) false (mark_success trial)
        × ((flags_of s (mark_success trial)).successful ≡ true)
  unfolding upgraded update_flags done_flags boot_flags mark_success
  upgrade_commits image_a v = ground arith
  upgrade_commits image_b v = ground arith

  -- From a confirmed slot with `try` clear: when the trial boot after update and done is followed
  -- by a reboot without success, the old slot is selected and confirmed again, the new one is not
  -- bootable, and `try` is left set.
  pub upgrade_falls_back :
      (s : Slot)
      → IsConfirmed s false boot
      → let trial = (boot_flags (upgraded boot)).1 in
        let (t, back) = boot_flags trial in
        (t ≡ s) × IsConfirmed s true back × ((flags_of (other s) back).bootable ≡ false)
  unfolding upgraded update_flags done_flags boot_flags
  upgrade_falls_back image_a v = ground arith
  upgrade_falls_back image_b v = ground arith

-- The old system marks its boot successful, upgrades again and reboots.
pub retry : Bootctl → Slot × Bootctl
unfolding upgraded
retry boot = boot_flags (upgraded (mark_success boot))

retry-IsConfirmed :
    (s : Slot) (boot : Bootctl)
    → IsConfirmed s true boot
    → ((retry boot).0 ≡ s) × IsConfirmed s true (retry boot).1
unfolding retry update_flags done_flags boot_flags mark_success
retry-IsConfirmed image_a boot v = ground arith
retry-IsConfirmed image_b boot v = ground arith

pub retries : ℕ → Bootctl → Bootctl
unfolding retry
retries zero boot = boot
retries (suc n) boot = retries n (retry boot).1

retries-IsConfirmed :
    (n : ℕ) (s : Slot) (boot : Bootctl)
    → IsConfirmed s true boot
    → IsConfirmed s true (retries n boot)
unfolding retries
retries-IsConfirmed zero s boot v = v
retries-IsConfirmed (suc n) s boot v =
    retries-IsConfirmed n s (retry boot).1 (retry-IsConfirmed s boot v).1

-- From a confirmed slot with `try` set, as a failed trial leaves it: however often the system marks
-- its boot successful, upgrades and reboots, the next such reboot selects the old slot. No later
-- upgrade gets its trial boot.
pub upgrade_never_tried :
    (n : ℕ) (s : Slot) (boot : Bootctl) → IsConfirmed s true boot → (retry (retries n boot)).0 ≡ s
upgrade_never_tried n s boot v =
    (retry-IsConfirmed s (retries n boot) (retries-IsConfirmed n s boot v)).0
