-- ===== src/Boot/Select.antt =====
-- What bootctl_boot (bootctl/bootctl.c) selects, for every value of the seven flags.
use openvela_frameworks_syst.Prelude.{◌≡◌, ◌⊎◌, true, arith}
use openvela_frameworks_syst.Boot.{SlotFlags, Bootctl, Slot, image_a, image_b, boot_flags}

-- The flags of a slot, and of the other one.
abbrev pub flags_of : Slot → Bootctl → SlotFlags
flags_of image_a boot = boot.slot_a
flags_of image_b boot = boot.slot_b

abbrev pub other : Slot → Slot
other image_a = image_b
other image_b = image_a

-- From every flag state, bootctl_boot selects a slot that is active in the flags that it writes.
boot_flags-active :
    (boot : Bootctl) → (flags_of (boot_flags boot).0 (boot_flags boot).1).active ≡ true
unfolding boot_flags
boot_flags-active boot = ground arith

-- For every flag state: when a boot is followed by a second one with no bootctl command between
-- them, and either slot is marked successful after the first, then the second selects a successful
-- slot.
boot_flags_second :
    (boot : Bootctl)
    → ((boot_flags boot).1.slot_a.successful ≡ true)
      ⊎ ((boot_flags boot).1.slot_b.successful ≡ true)
    → let (t, second) = boot_flags (boot_flags boot).1 in (flags_of t second).successful ≡ true
unfolding boot_flags
boot_flags_second boot h = ground arith
