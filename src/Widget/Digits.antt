-- ===== src/Widget/Digits.antt =====
-- The digits of the progress in ui/extra/lv_upgrade.c: the value is stored twice.
use openvela_frameworks_syst.Prelude.{
  ℕ, ◌^◌, ◌%◌, ◌<◌, ◌≡◌, inl, inr, ap, sym, ◌∙◌, Bool-cases, true, arith,
}
use openvela_frameworks_syst.Prelude.Int.{ℤ, pos, negsuc, pos_part}
use openvela_frameworks_syst.Widget.{
  Upgrade, digits, sum_digits, get_value, same_value, store_progress, to_int8,
}

-- The digits of a number below 2^31 give its last three decimal places.
pub sum_digits-digits : (v : ℕ) → v < 2 ^ 31 → sum_digits (digits v) 1 ≡ v % 1000
unfolding digits sum_digits
sum_digits-digits v h = ground arith

-- The comment's "sync": where `value` is not negative, the digits say the same.
abbrev pub InSync : Upgrade → Type 0
InSync u = (v : ℕ) → u.value ≡ pos v → get_value u ≡ v

same_value-true : (v : ℕ) (z : ℤ) → same_value z v ≡ true → z ≡ pos v
same_value-true v (pos n) e = ap pos (ground (arith, e))
same_value-true v (negsuc n) e = ground (arith, e)

pos-injective : {a b : ℕ} → pos a ≡ pos b → a ≡ b
pos-injective e = ap pos_part e

small-to_int8 : (v : ℕ) → v < 128 → to_int8 v ≡ pos v
small-to_int8 v h = ground arith

small-digits : (v : ℕ) → v < 128 → sum_digits (digits v) 1 ≡ v
small-digits v h = sum_digits-digits v (ground arith) ∙ ground arith

-- For a widget whose two copies of the progress agree, and a progress below 128: after the progress
-- is set, lv_upgrade_get_value returns it, and the copies agree.
pub get_value-store_progress :
    (v : ℕ) (u : Upgrade)
    → v < 128
    → InSync u
    → (get_value (store_progress v u) ≡ v) × InSync (store_progress v u)
unfolding store_progress get_value
get_value-store_progress v u h sync = elim (Bool-cases (same_value u.value v)) [
  | inl e ↦ rw e (sync v (same_value-true v u.value e), sync)
  | inr e ↦
      rw e
        (small-digits v h, λ w ew. small-digits v h ∙ pos-injective (sym (small-to_int8 v h) ∙ ew))
]
