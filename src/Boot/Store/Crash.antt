-- ===== src/Boot/Store/Crash.antt =====
-- What a boot makes of the flags when the write of a bootctl command stopped half way.
use openvela_frameworks_syst.Prelude.{
  ℕ, zero, suc, ◌≤◌, refl, ◌≡◌, ◌∙◌, ap, Bool, true, false, arith, inl, inr, Bool-cases, else_at,
  ◌==◌,
}
use openvela_frameworks_syst.Prelude.Int.{ℤ, is_neg}
use openvela_frameworks_syst.Boot.{
  SlotFlags, Bootctl, Slot, image_a, image_b, cleared, update_flags, done_flags, boot_flags,
}
use openvela_frameworks_syst.Boot.Upgrade.{IsConfirmed}
use openvela_frameworks_syst.Boot.Store.{
  Key, key_index, slot_a_active, slot_a_bootable, slot_a_successful, slot_b_active, Kvdb, KvdbLaws,
  set_then, write_config, read_config, bootctl_boot, bootctl_update, bootctl_done,
}
use openvela_frameworks_syst.Boot.Store.Refine.{written, write_config_lem, write_config-ok}

abbrev confirmed : SlotFlags
confirmed = record { active = true; bootable = true; successful = true }

-- The slot that two boots in a row come to, with no command between them.
abbrev second_boot : Bootctl → Slot
second_boot boot = (boot_flags (boot_flags boot).1).0

-- The flags that bootctl_update makes of a confirmed slot with `try` clear: no other value is left.
settled : Slot → Bootctl
settled image_a = record { slot_a = confirmed; slot_b = cleared; try = false }
settled image_b = record { slot_a = cleared; slot_b = confirmed; try = false }

update_flags-settled :
    (s : Slot) (boot : Bootctl) → IsConfirmed s false boot → update_flags boot ≡ settled s
unfolding update_flags settled
update_flags-settled image_a boot v = ground arith
update_flags-settled image_b boot v = ground arith

half_settled :
    (n : ℕ) (s : Slot) → n ≤ 7 → second_boot (written n (done_flags (settled s)) (settled s)) ≡ s
unfolding written boot_flags done_flags settled
half_settled zero image_a h = refl
half_settled (suc zero) image_a h = refl
half_settled (suc (suc zero)) image_a h = refl
half_settled (suc (suc (suc zero))) image_a h = refl
half_settled (suc (suc (suc (suc zero)))) image_a h = refl
half_settled (suc (suc (suc (suc (suc zero))))) image_a h = refl
half_settled (suc (suc (suc (suc (suc (suc zero)))))) image_a h = refl
half_settled (suc (suc (suc (suc (suc (suc (suc zero))))))) image_a h = refl
half_settled (suc (suc (suc (suc (suc (suc (suc (suc n)))))))) image_a h = absurd (omega arith)
half_settled n image_b h = ground arith

half_done :
    (n : ℕ) (s : Slot) (boot : Bootctl)
    → IsConfirmed s false boot
    → n ≤ 7
    → second_boot (written n (done_flags (update_flags boot)) (update_flags boot)) ≡ s
half_done n s boot v h =
    ap (λ b. second_boot (written n (done_flags b) b)) (update_flags-settled s boot v)
    ∙ half_settled n s h

half_updated :
    (n : ℕ) (s : Slot) (boot : Bootctl)
    → IsConfirmed s false boot
    → (boot_flags (written n (update_flags boot) boot)).0 ≡ s
unfolding written boot_flags update_flags
half_updated n image_a boot v = ground arith
half_updated n image_b boot v = ground arith

done_flags-active :
    (boot : Bootctl)
    → boot.slot_a.active ≡ false
    → boot.slot_b.active ≡ true
    → (done_flags boot).slot_a.active ≡ true
unfolding done_flags
done_flags-active boot a b = ground arith

module _ (kv : Kvdb) (laws : KvdbLaws kv) (s : kv.Store) (slot : Slot) where
  -- Over every store that keeps the laws, with a confirmed slot and `try` clear: wherever an error
  -- stops the writes of bootctl_update, or if none does, the next boot selects the confirmed slot.
  pub interrupted_update :
      IsConfirmed slot false (read_config kv s)
      → (boot_flags (read_config kv (bootctl_update kv s).1)).0 ≡ slot
  unfolding bootctl_update
  interrupted_update v =
      let (n, le, read, all) = write_config_lem kv laws (update_flags (read_config kv s)) s in
      ap (λ boot. (boot_flags boot).0) read ∙ half_updated n slot (read_config kv s) v

  -- The store after a bootctl_update and a bootctl_done.
  abbrev pub after_done : kv.Store
  after_done = (bootctl_done kv (bootctl_update kv s).1).1

  -- Over every store that keeps the laws, with a confirmed slot and `try` clear: after a
  -- bootctl_update that meets no error and then a bootctl_done, wherever an error stops the writes
  -- of bootctl_done, or if none does, a bootctl_boot whose write meets no error and then a second
  -- one, with no command between them: the second one selects the confirmed slot.
  pub interrupted_done :
      IsConfirmed slot false (read_config kv s)
      → is_neg (bootctl_update kv s).0 ≡ false
      → is_neg (write_config kv (boot_flags (read_config kv after_done)).1 after_done).0 ≡ false
      → (bootctl_boot kv (bootctl_boot kv after_done).1).0 ≡ slot
  unfolding bootctl_update bootctl_done bootctl_boot
  interrupted_done v fine booted =
      let old = update_flags (read_config kv s) in
      let s' = (bootctl_update kv s).1 in
      let same : read_config kv s' ≡ old = write_config-ok kv laws old s fine in
      let (n, le, read, all) = write_config_lem kv laws (done_flags (read_config kv s')) s' in
      ap (λ boot. (boot_flags boot).0)
        (write_config-ok kv laws (boot_flags (read_config kv after_done)).1 after_done booted)
      ∙ ap second_boot (read ∙ ap (λ boot. written n (done_flags boot) boot) same)
      ∙ half_done n slot (read_config kv s) v le

module _ (kv : Kvdb) (laws : KvdbLaws kv) where
  -- A write of another property, whether it succeeds or fails.
  get-set_apart :
      (k j : Key) (v : Bool) (s : kv.Store)
      → (key_index j == key_index k) ≡ false
      → kv.get_bool (kv.set_bool k v s).1 j false ≡ kv.get_bool s j false
  get-set_apart k j v s apart = elim (Bool-cases (is_neg (kv.set_bool k v s).0)) [
    | inl bad ↦ laws.get-set_failed k j v false s bad
    | inr good ↦ laws.get-set k j v false s good ∙ else_at apart _ _
  ]

  -- A step of the write keeps a property that neither it nor what follows it touches.
  set_then-kept :
      (k j : Key) (v : Bool) (next : kv.Store → ℤ × kv.Store) (s : kv.Store)
      → (key_index j == key_index k) ≡ false
      → ((t : kv.Store) → kv.get_bool (next t).1 j false ≡ kv.get_bool t j false)
      → kv.get_bool (set_then kv k v next s).1 j false ≡ kv.get_bool s j false
  unfolding set_then
  set_then-kept k j v next s apart later = elim (Bool-cases (is_neg (kv.set_bool k v s).0)) [
    | inl bad ↦ rw bad (get-set_apart k j v s apart)
    | inr good ↦ rw good (later (kv.set_bool k v s).1 ∙ get-set_apart k j v s apart)
  ]

  set_then_taken :
      (k : Key) (v : Bool) (next : kv.Store → ℤ × kv.Store) (s : kv.Store)
      → is_neg (kv.set_bool k v s).0 ≡ false
      → set_then kv k v next s ≡ next (kv.set_bool k v s).1
  unfolding set_then
  set_then_taken k v next s good = rw good refl

  set_then_stopped :
      (k : Key) (v : Bool) (next : kv.Store → ℤ × kv.Store) (s : kv.Store)
      → is_neg (kv.set_bool k v s).0 ≡ true
      → set_then kv k v next s ≡ kv.set_bool k v s
  unfolding set_then
  set_then_stopped k v next s bad = rw bad refl

  -- The last step before the error at the flag of slot B keeps the two active flags.
  stopped-kept :
      (v : Bool) (next : kv.Store → ℤ × kv.Store) (j : Key) (t : kv.Store)
      → is_neg (kv.set_bool slot_b_active v t).0 ≡ true
      → kv.get_bool (set_then kv slot_b_active v next t).1 j false ≡ kv.get_bool t j false
  stopped-kept v next j t bad =
      ap (λ r. kv.get_bool r.1 j false) (set_then_stopped slot_b_active v next t bad)
      ∙ laws.get-set_failed slot_b_active j v false t bad

  -- Over every store that keeps the laws and takes the active flag of slot A but not that of slot
  -- B: when slot B is active and slot A is not, bootctl_done leaves both slots active.
  pub half_done_both_active :
      (s : kv.Store)
      → (read_config kv s).slot_a.active ≡ false
      → (read_config kv s).slot_b.active ≡ true
      → ((v : Bool) (t : kv.Store) → is_neg (kv.set_bool slot_a_active v t).0 ≡ false)
      → ((v : Bool) (t : kv.Store) → is_neg (kv.set_bool slot_b_active v t).0 ≡ true)
      → let after = read_config kv (bootctl_done kv s).1 in
        (after.slot_a.active ≡ true) × (after.slot_b.active ≡ true)
  unfolding bootctl_done write_config read_config
  half_done_both_active s a b takes refuses =
      let new = done_flags (read_config kv s) in
      let active : new.slot_a.active ≡ true = done_flags-active (read_config kv s) a b in
      let s₁ = (kv.set_bool slot_a_active new.slot_a.active s).1 in
      let kept : (j : Key)
          → (key_index j == key_index slot_a_bootable) ≡ false
          → (key_index j == key_index slot_a_successful) ≡ false
          → kv.get_bool (write_config kv new s).1 j false ≡ kv.get_bool s₁ j false =
        λ j c d.
          ap (λ r. kv.get_bool r.1 j false)
            (set_then_taken slot_a_active new.slot_a.active _ s (takes new.slot_a.active s))
          ∙ set_then-kept slot_a_bootable j new.slot_a.bootable _ s₁ c (λ t.
            set_then-kept slot_a_successful j new.slot_a.successful _ t d
              (λ t'. stopped-kept new.slot_b.active _ j t' (refuses new.slot_b.active t'))) in
      (
        kept slot_a_active refl refl
            ∙ laws.get-set slot_a_active slot_a_active new.slot_a.active false s
                (takes new.slot_a.active s)
            ∙ active,
        kept slot_b_active refl refl
            ∙ get-set_apart slot_a_active slot_b_active new.slot_a.active s refl
            ∙ b,
      )
