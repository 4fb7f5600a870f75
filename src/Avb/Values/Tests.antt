-- ===== src/Avb/Values/Tests.antt =====
-- The theorem on persistent values at a store that keeps a function of the names.
use openvela_frameworks_syst.Prelude.{
  ℕ, ◌≤◌, ◌<◌, ◌≡◌, ◌≢◌, ◌⊎◌, inl, inr, refl, ap, Bool, true, false, arith, some, List, [], ◌∷◌,
  ◌==◌, Bool-cases, then_at, else_at, if◌then◌else◌,
}
use openvela_frameworks_syst.Prelude.Int.{pos}
use openvela_frameworks_syst.Avb.{ok, error_invalid_value_size, error_insufficient_space}
use openvela_frameworks_syst.Avb.Values.{
  Stored, missing, Properties, PropertiesLaws, fitting, read_persistent_value,
  write_persistent_value,
}
use openvela_frameworks_syst.Avb.Values.Names.{kept, read_persistent_value-write_persistent_value}

abbrev same : List ℕ → List ℕ → Bool
same [] [] = true
same [] (y ∷ ys) = false
same (x ∷ xs) [] = false
same (x ∷ xs) (y ∷ ys) = let rest = same xs ys in if x == y then rest else false

same_self : (a : List ℕ) → same a a ≡ true
same_self [] = refl
same_self (x ∷ xs) = let equal : (x == x) ≡ true = ground arith in rw equal (same_self xs)

same-exact : (a b : List ℕ) → same a b ≡ true → a ≡ b
same-exact [] [] e = refl
same-exact [] (y ∷ ys) e = absurd (cc)
same-exact (x ∷ xs) [] e = absurd (cc)
same-exact (x ∷ xs) (y ∷ ys) e =
    let heads : x ≡ y = ground (arith, e) in
    let tails : same xs ys ≡ true = ground (arith, e) in
    rw heads (ap (λ l. y ∷ l) (same-exact xs ys tails))

abbrev store : Properties
store = record {
  Store = List ℕ → ℕ → Stored;
  get_buffer = λ s key size. s key size;
  set_buffer =
      λ key value s. (pos 0, λ k size. if same k key then fitting value size else s k size);
  get_bool = λ s key default. default;
}

different : (a b : List ℕ) → a ≢ b → same a b ≡ false
different a b differ = elim (Bool-cases (same a b)) [
  | inl e ↦ absurd (differ (same-exact a b e))
  | inr e ↦ e
]

store-laws : PropertiesLaws store
store-laws = record {
  get-set = λ key value size s filled fine. then_at (same_self key) _ _;
  get-set_other = λ key other value size s differ. else_at (different other key differ) _ _;
  get-set_failed = λ key other value size s bad. absurd (cc);
}

-- Two names that differ in the fourth byte, where three are kept.
abbrev name : List ℕ
name = 97 ∷ 98 ∷ 99 ∷ 100 ∷ []

abbrev other : List ℕ
other = 97 ∷ 98 ∷ 99 ∷ 101 ∷ []

abbrev empty : List ℕ → ℕ → Stored
empty key size = missing

read_persistent_value-write_persistent_value_example :
    let (result, s') = write_persistent_value store 12 64 name (7 ∷ 8 ∷ []) empty in
    let before = read_persistent_value store 12 64 other 4 empty in
    let after = read_persistent_value store 12 64 other 4 s' in
    ((result ≡ error_invalid_value_size) × (after ≡ before))
    ⊎ ((result ≡ ok)
        × (kept 12 other ≢ kept 12 name → after ≡ before)
        × (kept 12 other ≡ kept 12 name → 2 ≤ 4 → after ≡ (ok, some 2, 7 ∷ 8 ∷ []))
        × (kept 12 other ≡ kept 12 name → 4 < 2 → after ≡ (error_insufficient_space, some 64, [])))
read_persistent_value-write_persistent_value_example =
    read_persistent_value-write_persistent_value store store-laws 12 64 name (7 ∷ 8 ∷ []) other 4
      empty (omega arith) (omega arith)
