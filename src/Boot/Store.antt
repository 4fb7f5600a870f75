-- ===== src/Boot/Store.antt =====
-- bootctl/bootctl.c over the property store. The store (kvdb.h) is not part of the repository: it is
-- the parameter `kv`, with its documented behaviour as `KvdbLaws`.
pub mod Refine
pub mod Memory
pub mod Commands
pub mod Crash
mod Tests
use openvela_frameworks_syst.Prelude.{
  ℕ, ◌≡◌, Bool, true, false, Option, none, some, if◌then◌else◌, ◌==◌,
}
use openvela_frameworks_syst.Prelude.Int.{ℤ, pos, is_neg}
use openvela_frameworks_syst.Boot.{
  Bootctl, Slot, image_a, image_b, update_flags, done_flags, success_needed, success_flags,
  boot_flags,
}

-- The seven property names, in the order in which bootctl_write_config writes them.
pub data Key : Type 0 where
  slot_a_active slot_a_bootable slot_a_successful : Key
  slot_b_active slot_b_bootable slot_b_successful : Key
  slot_try : Key

-- The place of a name in that order.
abbrev pub key_index : Key → ℕ
key_index slot_a_active = 0
key_index slot_a_bootable = 1
key_index slot_a_successful = 2
key_index slot_b_active = 3
key_index slot_b_bootable = 4
key_index slot_b_successful = 5
key_index slot_try = 6

-- property_get_bool, property_set_bool and property_commit; a negative return is an error.
pub record Kvdb : Type 1 where
  pub Store : Type 0
  pub get_bool : Store → Key → Bool → Bool
  pub set_bool : Key → Bool → Store → ℤ × Store
  pub commit : Store → ℤ × Store

-- A write that succeeds changes its own property, one that fails changes none, and a commit none.
pub record KvdbLaws (kv : Kvdb) : Type 0 where
  pub get-set :
      (k j : Key) (v d : Bool) (s : kv.Store)
      → is_neg (kv.set_bool k v s).0 ≡ false
      → kv.get_bool (kv.set_bool k v s).1 j d
        ≡ (if key_index j == key_index k then v else kv.get_bool s j d)
  pub get-set_failed :
      (k j : Key) (v d : Bool) (s : kv.Store)
      → is_neg (kv.set_bool k v s).0 ≡ true
      → kv.get_bool (kv.set_bool k v s).1 j d ≡ kv.get_bool s j d
  pub get-commit :
      (j : Key) (d : Bool) (s : kv.Store) → kv.get_bool (kv.commit s).1 j d ≡ kv.get_bool s j d

module _ (kv : Kvdb) where
  open kv use {Store, get_bool, set_bool, commit}

  -- One `ret = property_set_bool(…); if (ret < 0) return ret;`, and what follows it.
  pub set_then : Key → Bool → (Store → ℤ × Store) → Store → ℤ × Store
  set_then k v next s = let (ret, s') = set_bool k v s in if is_neg ret then (ret, s') else next s'

  pub write_config : Bootctl → Store → ℤ × Store
  write_config boot = set_then slot_a_active boot.slot_a.active (
      set_then slot_a_bootable boot.slot_a.bootable (
        set_then slot_a_successful boot.slot_a.successful (
          set_then slot_b_active boot.slot_b.active (
            set_then slot_b_bootable boot.slot_b.bootable (
              set_then slot_b_successful boot.slot_b.successful
                (set_then slot_try boot.try commit))))))

  pub read_config : Store → Bootctl
  read_config s = record {
    slot_a = record {
      active = get_bool s slot_a_active false;
      bootable = get_bool s slot_a_bootable false;
      successful = get_bool s slot_a_successful false;
    };
    slot_b = record {
      active = get_bool s slot_b_active false;
      bootable = get_bool s slot_b_bootable false;
      successful = get_bool s slot_b_successful false;
    };
    try = get_bool s slot_try false;
  }

  pub bootctl_active : Store → Option Slot
  bootctl_active s =
      let boot = read_config s in
      if boot.slot_a.active then some image_a else if boot.slot_b.active then some image_b else none

  pub bootctl_update : Store → ℤ × Store
  bootctl_update s = write_config (update_flags (read_config s)) s

  pub bootctl_done : Store → ℤ × Store
  bootctl_done s = write_config (done_flags (read_config s)) s

  pub bootctl_success : Store → ℤ × Store
  bootctl_success s =
      let boot = read_config s in
      if success_needed boot then write_config (success_flags boot) s else (pos 0, s)

  -- The image that is booted, and the store at that moment: the return of the write is not looked at.
  pub bootctl_boot : Store → Slot × Store
  bootctl_boot s = let (path, boot) = boot_flags (read_config s) in (path, (write_config boot s).1)
