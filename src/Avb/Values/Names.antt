-- ===== src/Avb/Values/Names.antt =====
-- The persistent values of verify/avb_verify.c: what is read after a write, under which names.
use openvela_frameworks_syst.Prelude.{
  ℕ, zero, suc, ◌+◌, ◌-◌, ◌≤◌, ◌<◌, ◌≡◌, ◌≢◌, ◌⊎◌, inl, inr, refl, ap, sym, ◌∙◌, arith, some, List,
  [], ◌∷◌, ◌++◌, length, take, drop, drop-length_append, ltb, Bool-cases, then_at, else_at,
}
use openvela_frameworks_syst.Prelude.Int.{is_neg}
use openvela_frameworks_syst.Avb.{ok, error_invalid_value_size, error_insufficient_space}
use openvela_frameworks_syst.Avb.Values.{
  Properties, PropertiesLaws, persist, read_value, fitting, value_key, read_persistent_value,
  write_persistent_value,
}

take-append : (p xs : List ℕ) (m k : ℕ) → length p + m ≡ k → take k (p ++ xs) ≡ p ++ take m xs
take-append [] xs m k e = let e' : k ≡ m = omega arith in rw e' refl
take-append (x ∷ p) xs m zero e = absurd (omega arith)
take-append (x ∷ p) xs m (suc k) e = ap (λ l. x ∷ l) (take-append p xs m k (omega arith))

append-injective : (p xs ys : List ℕ) → p ++ xs ≡ p ++ ys → xs ≡ ys
append-injective p xs ys e =
    sym (drop-length_append p xs) ∙ ap (λ l. drop (length p) l) e ∙ drop-length_append p ys

-- What is left of a name in its key.
abbrev pub kept : ℕ → List ℕ → List ℕ
kept name_max name = take (name_max - 9) name

module _ (props : Properties) (laws : PropertiesLaws props) (name_max value_max : ℕ) where
  open props use {Store}

  value_key_lem :
      (name : List ℕ)
      → 9 ≤ name_max
      → value_key props name_max value_max name ≡ persist ++ kept name_max name
  value_key_lem name room = take-append persist name (name_max - 9) (name_max - 1) (omega arith)

  value_key-differs :
      (name other : List ℕ)
      → 9 ≤ name_max
      → kept name_max other ≢ kept name_max name
      → value_key props name_max value_max other ≢ value_key props name_max value_max name
  value_key-differs name other room differ e = differ (
      append-injective persist (kept name_max other) (kept name_max name)
        (sym (value_key_lem other room) ∙ e ∙ value_key_lem name room))

  -- With the configuration's persistent values, names that are kept in at least 9 bytes, and a
  -- value that is not empty: a write that succeeds is read back, by a buffer of the size of the
  -- value or a larger one, and a smaller one gets the error for it and PROP_VALUE_MAX; a write that
  -- fails changes nothing that is read. Names are told apart by their first PROP_NAME_MAX - 9 bytes
  -- only: a name that differs there reads what it did before, and one that does not reads the value
  -- just written.
  pub read_persistent_value-write_persistent_value :
      (name value other : List ℕ) (size : ℕ) (s : Store)
      → 9 ≤ name_max
      → 1 ≤ length value
      → let (result, s') = write_persistent_value props name_max value_max name value s in
        let before = read_persistent_value props name_max value_max other size s in
        let after = read_persistent_value props name_max value_max other size s' in
        ((result ≡ error_invalid_value_size) × (after ≡ before))
        ⊎ ((result ≡ ok)
            × (kept name_max other ≢ kept name_max name → after ≡ before)
            × (kept name_max other ≡ kept name_max name
                → length value ≤ size
                → after ≡ (ok, some (length value), value))
            × (kept name_max other ≡ kept name_max name
                → size < length value
                → after ≡ (error_insufficient_space, some value_max, [])))
  unfolding write_persistent_value read_persistent_value
  read_persistent_value-write_persistent_value name value other size s room filled =
      let key = value_key props name_max value_max name in
      let other_key = value_key props name_max value_max other in
      elim (Bool-cases (is_neg (props.set_buffer key value s).0)) [
        | inl bad ↦ inl (
          then_at bad _ _,
          ap (read_value value_max) (laws.get-set_failed key other_key value size s bad),
        )
        | inr good ↦
            let stored = laws.get-set key value size s filled good in
            let here : (e : kept name_max other ≡ kept name_max name)
                → props.get_buffer (props.set_buffer key value s).1 other_key size
                  ≡ fitting value size =
              λ e.
                ap (λ k. props.get_buffer (props.set_buffer key value s).1 k size)
                  (value_key_lem other room
                    ∙ ap (λ l. persist ++ l) e
                    ∙ sym (value_key_lem name room))
                ∙ stored in
            inr (
              else_at good _ _,
              (λ differ. ap (read_value value_max) (
                  laws.get-set_other key other_key value size s
                    (value_key-differs name other room differ))),
              (λ e fits.
                  ap (read_value value_max)
                    (here e ∙ else_at {b = ltb size (length value)} (ground (arith, fits)) _ _)),
              (λ e small.
                  ap (read_value value_max)
                    (here e ∙ then_at {b = ltb size (length value)} (ground (arith, small)) _ _)),
            )
      ]
