-- ===== src/Boot.antt =====
-- bootctl/bootctl.c: the boot flags of the two slots, and what each command makes of them.
-- A command reads the flags, changes them and writes them back; this file is the change alone, and
-- Boot/Store.antt is the whole command over the property store.
pub mod Store
pub mod Command
pub mod Select
pub mod Invariant
pub mod Upgrade
use openvela_frameworks_syst.Prelude.{Bool, true, false, not, ◌&&◌, if◌then◌else◌}

-- struct bootctl_slot_s
pub record SlotFlags : Type 0 where
  pub active : Bool
  pub bootable : Bool
  pub successful : Bool

-- struct bootctl_s; `slot_a` and `slot_b` are `slot[0]` and `slot[1]`.
pub record Bootctl : Type 0 where
  pub slot_a : SlotFlags
  pub slot_b : SlotFlags
  pub try : Bool

-- The two image paths, g_bootctl_slot_a and g_bootctl_slot_b.
pub data Slot : Type 0 where
  image_a image_b : Slot

abbrev pub cleared : SlotFlags
cleared = record { active = false; bootable = false; successful = false }

-- bootctl_update between the read and the write.
pub update_flags : Bootctl → Bootctl
update_flags boot =
    if boot.slot_a.active
    then record boot { slot_b = cleared }
    else record boot { slot_a = cleared }

-- bootctl_done between the read and the write.
pub done_flags : Bootctl → Bootctl
done_flags boot =
    if boot.slot_a.active
    then record boot {
      slot_b = record (boot.slot_b) { bootable = true; active = true };
      slot_a = record (boot.slot_a) { active = false };
    }
    else record boot {
      slot_a = record (boot.slot_a) { bootable = true; active = true };
      slot_b = record (boot.slot_b) { active = false };
    }

-- The test of bootctl_success: the flags of the running slot are to be written.
pub success_needed : Bootctl → Bool
success_needed boot =
    if boot.slot_a.active then not boot.slot_a.successful else not boot.slot_b.successful

-- The flags that bootctl_success writes.
pub success_flags : Bootctl → Bootctl
success_flags boot =
    if boot.slot_a.active
    then record boot { try = false; slot_a = record (boot.slot_a) { successful = true } }
    else record boot { try = false; slot_b = record (boot.slot_b) { successful = true } }

-- What bootctl_success leaves in the flags: without the need there is no write.
pub mark_success : Bootctl → Bootctl
unfolding success_needed success_flags
mark_success boot = if success_needed boot then success_flags boot else boot

-- bootctl_boot from the label `success_slot`: the path to boot and the flags to write.
pub success_slot : Bootctl → Slot × Bootctl
success_slot boot =
    if boot.slot_a.active && boot.slot_a.successful
    then (image_a, boot)
    else if boot.slot_b.active && boot.slot_b.successful
    then (image_b, boot)
    else if boot.slot_a.successful
    then (image_a, record boot { slot_a = record (boot.slot_a) { active = true } })
    else if boot.slot_b.successful
    then (image_b, record boot { slot_b = record (boot.slot_b) { active = true; bootable = true } })
    else (image_a, record boot { slot_a = record (boot.slot_a) { active = true; bootable = true } })

-- The flags after `memset` and the three assignments of a first boot.
abbrev pub first_boot : Bootctl
first_boot = record {
  slot_a = record { active = true; bootable = true; successful = false };
  slot_b = cleared;
  try = true;
}

-- A slot that waits for its trial boot.
abbrev pub on_trial : SlotFlags → Bool
on_trial f = f.active && f.bootable && not f.successful

-- bootctl_boot between the read and the write.
pub boot_flags : Bootctl → Slot × Bootctl
unfolding success_slot
boot_flags boot =
    if not boot.slot_a.active && not boot.slot_b.active
    then success_slot first_boot
    else if on_trial boot.slot_a
    then (if boot.try
        then success_slot
            (record boot { slot_a = record (boot.slot_a) { active = false; bootable = false } })
        else (image_a, record boot { try = true }))
    else if on_trial boot.slot_b
    then (if boot.try
        then success_slot
            (record boot { slot_b = record (boot.slot_b) { active = false; bootable = false } })
        else (image_b, record boot { try = true }))
    else success_slot boot
