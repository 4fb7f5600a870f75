-- ===== src/Avb/Rollback.antt =====
-- The rollback indexes of verify/avb_verify.c. The property store (kvdb.h) and avb_slot_verify
-- (libavb) are not part of the repository: the store is the parameter `props`, and what
-- avb_slot_verify returns is an argument.
use openvela_frameworks_syst.Prelude.{
  ℕ, zero, suc, ◌+◌, ◌≤◌, ◌≡◌, ◌≢◌, ◌⊎◌, inl, inr, refl, ap, sym, ◌∙◌, Bool, true, false, not, ◌&&◌,
  arith, Option, none, some, List, [], ◌∷◌, get_elem?, ◌==◌, Bool-cases, if◌then◌else◌,
}
use openvela_frameworks_syst.Prelude.Int.{ℤ, pos, negsuc, is_neg}
use openvela_frameworks_syst.Avb.{AvbIoResult, ok, error_io}

-- property_get_int64 with the default 0 and property_set_int64 for `persist.avb.rollback.<n>`; the 64
-- bits are taken as the unsigned number that the code makes of them.
pub record Props : Type 1 where
  pub Store : Type 0
  pub get_int64 : Store → ℕ → ℕ
  pub set_int64 : ℕ → ℕ → Store → ℤ × Store

-- A write that succeeds changes its own property, and one that fails changes none.
pub record PropsLaws (props : Props) : Type 0 where
  pub get-set :
      (n v : ℕ) (s : props.Store)
      → is_neg (props.set_int64 n v s).0 ≡ false
      → props.get_int64 (props.set_int64 n v s).1 n ≡ v
  pub get-set_other :
      (n j v : ℕ) (s : props.Store)
      → j ≢ n
      → props.get_int64 (props.set_int64 n v s).1 j ≡ props.get_int64 s j
  pub get-set_failed :
      (n j v : ℕ) (s : props.Store)
      → is_neg (props.set_int64 n v s).0 ≡ true
      → props.get_int64 (props.set_int64 n v s).1 j ≡ props.get_int64 s j

module _ (props : Props) where
  open props use {Store, get_int64, set_int64}

  -- The two functions where the rollback protection is configured.
  abbrev pub read_rollback_index : ℕ → Store → ℕ
  read_rollback_index n s = get_int64 s n

  abbrev pub write_rollback_index : ℕ → ℕ → Store → AvbIoResult × Store
  write_rollback_index n v s =
      let (ret, s') = set_int64 n v s in (if is_neg ret then error_io else ok, s')

  -- `if (ret != AVB_IO_RESULT_OK) goto out;`, and what follows it.
  abbrev pub on_ok : AvbIoResult × Store → (Store → AvbIoResult × Store) → AvbIoResult × Store
  on_ok (ok, s) rest = rest s
  on_ok (result, s) rest = (result, s)

  -- The loop of avb_verify from the location `n` on.
  pub update_indexes : Bool → ℕ → List ℕ → Store → AvbIoResult × Store
  update_indexes update n [] s = (ok, s)
  update_indexes update n (zero ∷ indexes) s = update_indexes update (suc n) indexes s
  update_indexes update n (suc v ∷ indexes) s =
      if not (read_rollback_index n s == suc v) && update
      then on_ok (write_rollback_index n (suc v) s) (λ s'. update_indexes update (suc n) indexes s')
      else update_indexes update (suc n) indexes s

  -- avb_verify behind avb_slot_verify, which gave a return code and perhaps the slot's data: on the
  -- left that code, on the right the result of the loop.
  pub avb_verify : ℤ → Option (List ℕ) → Bool → Store → (ℤ ⊎ AvbIoResult) × Store
  unfolding update_indexes
  avb_verify ret none update s = (inl ret, s)
  avb_verify (pos zero) (some indexes) update s =
      let (result, s') = update_indexes update 0 indexes s in (inr result, s')
  avb_verify (pos (suc n)) (some indexes) update s = (inl (pos (suc n)), s)
  avb_verify (negsuc n) (some indexes) update s = (inl (negsuc n), s)

module _ (props : Props) (laws : PropsLaws props) where
  open props use {Store, get_int64, set_int64}

  -- What the head of the list does: nothing and an error, or its index is stored.
  abbrev HeadStep : ℕ → ℕ → List ℕ → Store → Store → Type 0
  HeadStep n v indexes s s₁ =
      ((update_indexes props true n (v ∷ indexes) s ≡ (error_io, s₁))
        × ((j : ℕ) → get_int64 s₁ j ≡ get_int64 s j))
      ⊎ ((update_indexes props true n (v ∷ indexes) s
            ≡ update_indexes props true (suc n) indexes s₁)
          × ((v ≡ 0) ⊎ (get_int64 s₁ n ≡ v))
          × ((j : ℕ) → j ≢ n → get_int64 s₁ j ≡ get_int64 s j)
          × ((get_int64 s₁ n ≡ get_int64 s n) ⊎ ((get_int64 s₁ n ≡ v) × (v ≢ 0))))

  head_step : (n v : ℕ) (indexes : List ℕ) (s : Store) → (s₁ : Store) × HeadStep n v indexes s s₁
  unfolding update_indexes
  head_step n zero indexes s = (s, inr (refl, inl refl, (λ j other. refl), inl refl))
  head_step n (suc v) indexes s = elim (Bool-cases (get_int64 s n == suc v)) [
    | inl e ↦ (s, inr (rw e refl, inr (ground (arith, e)), (λ j other. refl), inl refl))
    | inr e ↦
        let s₁ = (set_int64 n (suc v) s).1 in
        elim (Bool-cases (is_neg (set_int64 n (suc v) s).0)) [
          | inl bad ↦ (s₁, inl (rw e (rw bad refl), λ j. laws.get-set_failed n j (suc v) s bad))
          | inr good ↦
              let stored = laws.get-set n (suc v) s good in
              (
                s₁,
                inr (
                  rw e (rw good refl),
                  inr stored,
                  (λ j other. laws.get-set_other n j (suc v) s other),
                  inr (stored, λ z. absurd (omega (arith, z))),
                ),
              )
        ]
  ]

  -- A stored index is as before, or the one that the image has for it.
  abbrev Origin : ℕ → List ℕ → Store → Store → Type 0
  Origin n indexes s s' =
      (j : ℕ)
      → (get_int64 s' j ≡ get_int64 s j)
        ⊎ ((i : ℕ) × (j ≡ n + i)
            × (get_elem? indexes i ≡ some (get_int64 s' j))
            × (get_int64 s' j ≢ 0))

  Origin-cons :
      (n v : ℕ) (indexes : List ℕ) (s s₁ s' : Store)
      → ((j : ℕ) → j ≢ n → get_int64 s₁ j ≡ get_int64 s j)
      → (get_int64 s₁ n ≡ get_int64 s n) ⊎ ((get_int64 s₁ n ≡ v) × (v ≢ 0))
      → Origin (suc n) indexes s₁ s'
      → Origin n (v ∷ indexes) s s'
  Origin-cons n v indexes s s₁ s' others here origin j = elim (origin j) [
    | inr (i, at, e, used) ↦ inr (suc i, omega arith, e, used)
    | inl kept ↦ elim (Bool-cases (j == n)) [
      | inr e ↦ inl (kept ∙ others j (ground (arith, e)))
      | inl e ↦
          let same : j ≡ n = ground (arith, e) in
          elim here [
            | inl old ↦ inl (kept ∙ (ap (get_int64 s₁) same ∙ old ∙ ap (get_int64 s) (sym same)))
            | inr (new, used) ↦
                let value : v ≡ get_int64 s' j =
                  sym new ∙ sym (ap (get_int64 s₁) same) ∙ sym kept in
                inr (0, omega arith, ap some value, λ z. used (value ∙ z))
          ]
    ]
  ]

  update_indexes-Origin :
      (n : ℕ) (indexes : List ℕ) (s : Store)
      → Origin n indexes s (update_indexes props true n indexes s).1
  unfolding update_indexes
  update_indexes-Origin n [] s = λ j. inl refl
  update_indexes-Origin n (v ∷ indexes) s =
      let (s₁, step) = head_step n v indexes s in
      elim step [
        | inl (e, same) ↦ rw e (λ j. inl (same j))
        | inr (e, stored, others, here) ↦
            rw e (
              Origin-cons n v indexes s s₁ _ others here (update_indexes-Origin (suc n) indexes s₁))
      ]

  -- The location `n` is not touched behind it.
  behind_kept :
      (n : ℕ) (indexes : List ℕ) (s : Store)
      → get_int64 (update_indexes props true (suc n) indexes s).1 n ≡ get_int64 s n
  behind_kept n indexes s = elim (update_indexes-Origin (suc n) indexes s n) [
    | inl e ↦ e
    | inr (i, at, e, used) ↦ absurd (omega (arith, at))
  ]

  stored_cons :
      (n w : ℕ) (indexes : List ℕ) (s₁ : Store)
      → (w ≡ 0) ⊎ (get_int64 s₁ n ≡ w)
      → ((i v : ℕ)
          → get_elem? indexes i ≡ some v
          → v ≢ 0
          → get_int64 (update_indexes props true (suc n) indexes s₁).1 (suc n + i) ≡ v)
      → (i v : ℕ) → get_elem? (w ∷ indexes) i ≡ some v
      → v ≢ 0
      → get_int64 (update_indexes props true (suc n) indexes s₁).1 (n + i) ≡ v
  stored_cons n w indexes s₁ (inl none_there) later zero v e used =
      let same : w ≡ v = cc in absurd (used (sym same ∙ none_there))
  stored_cons n w indexes s₁ (inr new) later zero v e used =
      let same : w ≡ v = cc in
      let at : n + 0 ≡ n = omega arith in rw at (behind_kept n indexes s₁ ∙ new ∙ same)
  stored_cons n w indexes s₁ head later (suc i) v e used =
      let at : n + suc i ≡ suc n + i = omega arith in rw at (later i v e used)

  update_indexes_stored :
      (n : ℕ) (indexes : List ℕ) (s : Store)
      → (update_indexes props true n indexes s).0 ≡ ok
      → (i v : ℕ) → get_elem? indexes i ≡ some v
      → v ≢ 0
      → get_int64 (update_indexes props true n indexes s).1 (n + i) ≡ v
  update_indexes_stored n [] s fine i v e used = absurd (cc)
  update_indexes_stored n (w ∷ indexes) s fine i v e used =
      let (s₁, step) = head_step n w indexes s in
      elim step [
        | inl (runs, same) ↦
            let bad : error_io ≡ ok = sym (ap (λ r. r.0) runs) ∙ fine in absurd (cc)
        | inr (runs, stored, others, here) ↦
            let fine' : (update_indexes props true (suc n) indexes s₁).0 ≡ ok =
              sym (ap (λ r. r.0) runs) ∙ fine in
            rw runs (
              stored_cons n w indexes s₁ stored (update_indexes_stored (suc n) indexes s₁ fine') i v
                e used)
      ]

  never_lower :
      (indexes : List ℕ) (s : Store)
      → ((i v : ℕ) → get_elem? indexes i ≡ some v → v ≢ 0 → get_int64 s i ≤ v)
      → (j : ℕ) {s' : Store}
      → (get_int64 s' j ≡ get_int64 s j)
        ⊎ ((i : ℕ) × (j ≡ 0 + i)
            × (get_elem? indexes i ≡ some (get_int64 s' j))
            × (get_int64 s' j ≢ 0))
      → get_int64 s j ≤ get_int64 s' j
  never_lower indexes s rising j {s'} (inl e) = omega (arith, e)
  never_lower indexes s rising j {s'} (inr (i, at, e, used)) =
      let same : i ≡ j = omega (arith, at) in
      let below : get_int64 s i ≤ get_int64 s' j = rising i (get_int64 s' j) e used in
      rw same at below

  abbrev the_right : AvbIoResult → ℤ ⊎ AvbIoResult
  the_right result = inr result

  right-ok : (result : AvbIoResult) → (the_right result) ≡ the_right ok → result ≡ ok
  right-ok result e = cc

  -- For a store that keeps what is written, and an image none of whose indexes other than 0 is
  -- below the stored one at its location: no stored index is lower after avb_verify, also when a
  -- write failed on the way. Where avb_verify, with the update allowed, ends with `ok`, the store
  -- holds every index of the image that is not 0.
  pub avb_verify_lem :
      (indexes : List ℕ) (s : Store)
      → ((i v : ℕ) → get_elem? indexes i ≡ some v → v ≢ 0 → get_int64 s i ≤ v)
      → ((j : ℕ) → get_int64 s j ≤ get_int64 (avb_verify props (pos 0) (some indexes) true s).1 j)
        × ((avb_verify props (pos 0) (some indexes) true s).0 ≡ inr ok
            → (i v : ℕ) → get_elem? indexes i ≡ some v
            → v ≢ 0
            → get_int64 (avb_verify props (pos 0) (some indexes) true s).1 i ≡ v)
  unfolding avb_verify
  avb_verify_lem indexes s rising = (
    λ j. never_lower indexes s rising j (update_indexes-Origin 0 indexes s j),
    λ fine i v e used.
        let at : i ≡ 0 + i = omega arith in
        ap (get_int64 _) at ∙ update_indexes_stored 0 indexes s (right-ok _ fine) i v e used,
  )

module _ (props : Props) where
  open props use {Store, get_int64}

  update_indexes-off :
      (n : ℕ) (indexes : List ℕ) (s : Store) → update_indexes props false n indexes s ≡ (ok, s)
  unfolding update_indexes
  update_indexes-off n [] s = refl
  update_indexes-off n (zero ∷ indexes) s = update_indexes-off (suc n) indexes s
  update_indexes-off n (suc v ∷ indexes) s = elim (Bool-cases (get_int64 s n == suc v)) [
    | inl e ↦ rw e (update_indexes-off (suc n) indexes s)
    | inr e ↦ rw e (update_indexes-off (suc n) indexes s)
  ]

  -- With the flag that forbids the update: avb_verify leaves the store as it is, whatever
  -- avb_slot_verify returned.
  avb_verify-kept :
      (ret : ℤ) (slot_data : Option (List ℕ)) (s : Store)
      → (avb_verify props ret slot_data false s).1 ≡ s
  unfolding avb_verify
  avb_verify-kept ret none s = refl
  avb_verify-kept (pos zero) (some indexes) s = ap (λ r. r.1) (update_indexes-off 0 indexes s)
  avb_verify-kept (pos (suc n)) (some indexes) s = refl
  avb_verify-kept (negsuc n) (some indexes) s = refl
