-- ===== src/Boot/Store/Refine.antt =====
-- The commands of bootctl/bootctl.c over the property store do to the flags what Boot.antt says, and
-- an error stops the write after some of the seven flags.
use openvela_frameworks_syst.Prelude.{
  ℕ, suc, ◌≤◌, ◌≡◌, refl, ap, ◌∙◌, inl, inr, Bool-cases, Bool, false, arith, ltb, if◌then◌else◌,
}
use openvela_frameworks_syst.Prelude.Int.{ℤ, is_neg}
use openvela_frameworks_syst.Boot.{Bootctl}
use openvela_frameworks_syst.Boot.Store.{
  Key, slot_a_active, slot_a_bootable, slot_a_successful, slot_b_active, slot_b_bootable,
  slot_b_successful, slot_try, key_index, Kvdb, KvdbLaws, set_then, write_config, read_config,
}

-- The flag that a property holds.
abbrev flag : Bootctl → Key → Bool
flag boot slot_a_active = boot.slot_a.active
flag boot slot_a_bootable = boot.slot_a.bootable
flag boot slot_a_successful = boot.slot_a.successful
flag boot slot_b_active = boot.slot_b.active
flag boot slot_b_bootable = boot.slot_b.bootable
flag boot slot_b_successful = boot.slot_b.successful
flag boot slot_try = boot.try

-- The first `n` flags of `new`, in the order of the write, and the others of `old`.
unfoldable pub written : ℕ → Bootctl → Bootctl → Bootctl
written n new old = record {
  slot_a = record {
    active = if ltb 0 n then new.slot_a.active else old.slot_a.active;
    bootable = if ltb 1 n then new.slot_a.bootable else old.slot_a.bootable;
    successful = if ltb 2 n then new.slot_a.successful else old.slot_a.successful;
  };
  slot_b = record {
    active = if ltb 3 n then new.slot_b.active else old.slot_b.active;
    bootable = if ltb 4 n then new.slot_b.bootable else old.slot_b.bootable;
    successful = if ltb 5 n then new.slot_b.successful else old.slot_b.successful;
  };
  try = if ltb 6 n then new.try else old.try;
}

pub written-all : (new old : Bootctl) → written 7 new old ≡ new
unfolding written
written-all new old = refl

flag-index : (boot : Bootctl) (j k : Key) → key_index j ≡ key_index k → flag boot j ≡ flag boot k
flag-index boot j k e = ground arith

index-le : (k : Key) → key_index k ≤ 7
index-le k = ground arith

module _ (kv : Kvdb) (laws : KvdbLaws kv) (new old : Bootctl) where
  -- The store holds the first `n` flags.
  abbrev Holds : ℕ → kv.Store → Type 0
  Holds n s =
      (j : Key) → kv.get_bool s j false ≡ (if ltb (key_index j) n then flag new j else flag old j)

  -- A write that ends so: some of the flags are there, all of them unless it returns an error.
  abbrev Ends : ℤ × kv.Store → Type 0
  Ends r = (n : ℕ) × (n ≤ 7) × Holds n r.1 × (is_neg r.0 ≡ false → n ≡ 7)

  set_then-Ends :
      (k : Key) (next : kv.Store → ℤ × kv.Store) (s : kv.Store)
      → Holds (key_index k) s
      → ((s' : kv.Store) → Holds (suc (key_index k)) s' → Ends (next s'))
      → Ends (set_then kv k (flag new k) next s)
  unfolding set_then
  set_then-Ends k next s here after = elim (Bool-cases (is_neg (kv.set_bool k (flag new k) s).0)) [
    | inl failed ↦ rw failed (
      key_index k,
      index-le k,
      λ j. laws.get-set_failed k j (flag new k) false s failed ∙ here j,
      λ e. absurd (cc),
    )
    | inr fine ↦ rw fine (
        after _ λ j.
          ground (arith, laws.get-set k j (flag new k) false s fine, here j, flag-index new j k))
  ]

  write_config-Ends : (s : kv.Store) → Holds 0 s → Ends (write_config kv new s)
  unfolding write_config
  write_config-Ends s h = set_then-Ends slot_a_active _ s h λ s₁ h₁.
      set_then-Ends slot_a_bootable _ s₁ h₁ λ s₂ h₂.
        set_then-Ends slot_a_successful _ s₂ h₂ λ s₃ h₃.
          set_then-Ends slot_b_active _ s₃ h₃ λ s₄ h₄.
            set_then-Ends slot_b_bootable _ s₄ h₄ λ s₅ h₅.
              set_then-Ends slot_b_successful _ s₅ h₅ λ s₆ h₆.
                set_then-Ends slot_try _ s₆ h₆
                  λ s₇ h₇. (7, omega arith, λ j. laws.get-commit j false s₇ ∙ h₇ j, λ e. refl)

  Holds-read_config : (n : ℕ) (s : kv.Store) → Holds n s → read_config kv s ≡ written n new old
  unfolding read_config written
  Holds-read_config n s h = ground (
    arith,
    h slot_a_active,
    h slot_a_bootable,
    h slot_a_successful,
    h slot_b_active,
    h slot_b_bootable,
    h slot_b_successful,
    h slot_try,
  )

module _ (kv : Kvdb) (laws : KvdbLaws kv) (new : Bootctl) (s : kv.Store) where
  Holds-start : Holds kv laws new (read_config kv s) 0 s
  unfolding read_config
  Holds-start slot_a_active = refl
  Holds-start slot_a_bootable = refl
  Holds-start slot_a_successful = refl
  Holds-start slot_b_active = refl
  Holds-start slot_b_bootable = refl
  Holds-start slot_b_successful = refl
  Holds-start slot_try = refl

  -- Over every store that keeps the laws, a write of the flags leaves the first few of the new flags
  -- and the others as they were, in the order of the write; if it returns no error, all of the new.
  pub write_config_lem :
      (n : ℕ) × (n ≤ 7)
      × (read_config kv (write_config kv new s).1 ≡ written n new (read_config kv s))
      × (is_neg (write_config kv new s).0 ≡ false → n ≡ 7)
  write_config_lem =
      let (n, le, holds, all) = write_config-Ends kv laws new (read_config kv s) s Holds-start in
      (n, le, Holds-read_config kv laws new (read_config kv s) n _ holds, all)

  pub write_config-ok :
      is_neg (write_config kv new s).0 ≡ false → read_config kv (write_config kv new s).1 ≡ new
  write_config-ok fine =
      let (n, le, read, all) = write_config_lem in
      read
      ∙ ap (λ k. written k new (read_config kv s)) (all fine)
      ∙ written-all new (read_config kv s)
