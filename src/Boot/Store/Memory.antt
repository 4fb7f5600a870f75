-- ===== src/Boot/Store/Memory.antt =====
-- Property stores in memory: one that takes `budget` more writes and then fails, and one in which
-- chosen writes fail.
use openvela_frameworks_syst.Prelude.{
  ℕ, zero, suc, ◌≡◌, refl, Bool, true, false, ◌==◌, if◌then◌else◌,
}
use openvela_frameworks_syst.Prelude.Int.{ℤ, pos, negsuc, is_neg}
use openvela_frameworks_syst.Boot.Store.{Key, key_index, Kvdb, KvdbLaws}

pub record Memory : Type 0 where
  pub budget : ℕ
  pub property : Key → Bool

abbrev write : Key → Bool → ℕ → Memory → ℤ × Memory
write k v zero s = (negsuc 4, s)
write k v (suc n) s = (
  pos 0,
  record { budget = n; property = λ j. if key_index j == key_index k then v else s.property j },
)

abbrev pub memory : Kvdb
memory = record {
  Store = Memory;
  get_bool = λ s k d. s.property k;
  set_bool = λ k v s. write k v s.budget s;
  commit = λ s. (pos 0, s);
}

write-get :
    (k j : Key) (v : Bool) (n : ℕ) (s : Memory)
    → is_neg (write k v n s).0 ≡ false
    → (write k v n s).1.property j ≡ (if key_index j == key_index k then v else s.property j)
write-get k j v zero s h = absurd (cc)
write-get k j v (suc n) s h = refl

write-get_failed :
    (k j : Key) (v : Bool) (n : ℕ) (s : Memory)
    → is_neg (write k v n s).0 ≡ true
    → (write k v n s).1.property j ≡ s.property j
write-get_failed k j v zero s h = refl
write-get_failed k j v (suc n) s h = absurd (cc)

pub memory-laws : KvdbLaws memory
memory-laws = record {
  get-set = λ k j v d s h. write-get k j v s.budget s h;
  get-set_failed = λ k j v d s h. write-get_failed k j v s.budget s h;
  get-commit = λ j d s. refl;
}

-- The store in which the write number `budget` of the name `k` fails if `fails` says so.
abbrev choose : Bool → Key → Bool → Memory → ℤ × Memory
choose true k v s = (negsuc 4, record s { budget = suc s.budget })
choose false k v s = (
  pos 0,
  record {
    budget = suc s.budget;
    property = λ j. if key_index j == key_index k then v else s.property j;
  },
)

abbrev pub faulty : (ℕ → Key → Bool) → Kvdb
faulty fails = record {
  Store = Memory;
  get_bool = λ s k d. s.property k;
  set_bool = λ k v s. choose (fails s.budget k) k v s;
  commit = λ s. (pos 0, s);
}

choose-get :
    (b : Bool) (k j : Key) (v : Bool) (s : Memory)
    → is_neg (choose b k v s).0 ≡ false
    → (choose b k v s).1.property j ≡ (if key_index j == key_index k then v else s.property j)
choose-get true k j v s h = absurd (cc)
choose-get false k j v s h = refl

choose-get_failed :
    (b : Bool) (k j : Key) (v : Bool) (s : Memory)
    → is_neg (choose b k v s).0 ≡ true
    → (choose b k v s).1.property j ≡ s.property j
choose-get_failed true k j v s h = refl
choose-get_failed false k j v s h = absurd (cc)

pub faulty-laws : (fails : ℕ → Key → Bool) → KvdbLaws (faulty fails)
faulty-laws fails = record {
  get-set = λ k j v d s h. choose-get (fails s.budget k) k j v s h;
  get-set_failed = λ k j v d s h. choose-get_failed (fails s.budget k) k j v s h;
  get-commit = λ j d s. refl;
}
