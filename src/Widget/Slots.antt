-- ===== src/Widget/Slots.antt =====
-- ui/extra/lv_upgrade.c: how the images of a widget that shows no digits are filled in.
use openvela_frameworks_syst.Prelude.{
  ℕ, zero, suc, ◌+◌, ◌≤◌, ◌<◌, ◌≡◌, refl, ap, sym, ◌∙◌, true, false, arith, Option, none, some,
  List, [], ◌∷◌, ◌++◌, map, length, length-append, set, replicate, leb, ltb, ◌||◌, ◌==◌, inl, inr,
  Bool-cases,
}
use openvela_frameworks_syst.Prelude.Int.{negsuc}
use mathlib.Core.List.{append-nil, append_assoc}
use openvela_frameworks_syst.Widget.{
  Image, ImageData, Upgrade, UpgradeType, num, bar, circle, anim, custom_anim, invalid, is_num,
  set_type, first_null, set_image_data, set_image_array_size, constructed,
}
use openvela_frameworks_syst.Widget.Closest.{Filled}
use openvela_frameworks_syst.Widget.Digits.{InSync}

-- The calls of lv_upgrade_set_image_data for these images, in order.
unfoldable pub fill : List ImageData → Upgrade → Upgrade
unfolding set_image_data
fill [] u = u
fill (d ∷ ds) u = fill ds (set_image_data d.key d.image u)

abbrev slots : List ImageData → ℕ → List (Option ImageData)
slots done left = map some done ++ replicate left none

first_null-slots :
    (done : List ImageData) (left n : ℕ)
    → n ≡ length done + left
    → first_null n (slots done left) ≡ length done
unfolding first_null
first_null-slots [] zero zero e = refl
first_null-slots [] zero (suc n) e = absurd (omega arith)
first_null-slots [] (suc left) zero e = absurd (omega arith)
first_null-slots [] (suc left) (suc n) e = refl
first_null-slots (d ∷ done) left zero e = absurd (omega arith)
first_null-slots (d ∷ done) left (suc n) e = ap suc (first_null-slots done left n (omega arith))

set-slots :
    (done : List ImageData) (left : ℕ) (d : ImageData)
    → set (slots done (suc left)) (length done) (some d) ≡ slots (done ++ (d ∷ [])) left
set-slots [] left d = refl
set-slots (x ∷ done) left d = ap (λ l. some x ∷ l) (set-slots done left d)

-- The array after some calls.
Partly : UpgradeType → List ImageData → ℕ → Upgrade → Type 0
Partly type done left u =
    (u.type ≡ type) × (u.image_array ≡ slots done left) × (u.image_array_size ≡ length done + left)

set_image_data-Partly :
    (type : UpgradeType) (done : List ImageData) (left : ℕ) (d : ImageData) (u : Upgrade)
    → is_num type ≡ false
    → Partly type done (suc left) u
    → Partly type (done ++ (d ∷ [])) left (set_image_data d.key d.image u)
unfolding set_image_data Partly
set_image_data-Partly type done left d u other (same, array, size) =
    let plain : is_num u.type ≡ false = ap is_num same ∙ other in
    let place : first_null u.image_array_size u.image_array ≡ length done =
      rw array (first_null-slots done (suc left) u.image_array_size size) in
    let free : leb u.image_array_size (length done) ≡ false = ground (arith, size) in
    rw plain (
      rw place (
        rw free (
          same,
          rw array (set-slots done left d),
          omega (arith, size, length-append done (d ∷ [])),
        )))

fill-Partly :
    (type : UpgradeType) (ds done : List ImageData) (u : Upgrade)
    → is_num type ≡ false
    → Partly type done (length ds) u
    → Partly type (done ++ ds) 0 (fill ds u)
unfolding fill
fill-Partly type [] done u other partly = rw (append-nil done) partly
fill-Partly type (d ∷ ds) done u other partly =
    let next =
      fill-Partly type ds (done ++ (d ∷ [])) (set_image_data d.key d.image u) other
        (set_image_data-Partly type done (length ds) d u other partly) in
    rw (sym (append_assoc done (d ∷ []) ds)) next

start-Partly :
    (type : UpgradeType) (ds : List ImageData) (u : Upgrade)
    → u.type ≡ type
    → u.image_array_size ≡ 0
    → 2 ≤ length ds
    → length ds < 256
    → Partly type [] (length ds) (set_image_array_size (length ds) u)
unfolding set_image_array_size Partly
start-Partly type ds u same empty two small =
    let none_yet : ltb 0 u.image_array_size ≡ false = ground (arith, empty) in
    let some_size : (length ds == 0) ≡ false = ground arith in
    rw none_yet (rw some_size (same, refl, omega arith))

-- The same for any widget that has no array yet.
pub fill-Filled_from :
    (type : UpgradeType) (ds : List ImageData) (u : Upgrade)
    → u.type ≡ type
    → u.image_array_size ≡ 0
    → is_num type ≡ false
    → 2 ≤ length ds
    → length ds < 256
    → Filled ds (fill ds (set_image_array_size (length ds) u))
unfolding Partly
fill-Filled_from type ds u is_type empty other two small =
    let (same, array, size) =
      fill-Partly type ds [] _ other (start-Partly type ds u is_type empty two small) in
    (array ∙ append-nil (map some ds), omega (arith, size), two, small)

-- For a widget that is not of the type NUM and 2 to 255 images: after the size of the array is set
-- on a new widget to their number and they are set one by one, the array holds exactly these images
-- in their order.
pub fill-Filled :
    (type : UpgradeType) (ds : List ImageData)
    → is_num type ≡ false
    → 2 ≤ length ds
    → length ds < 256
    → Filled ds (fill ds (set_image_array_size (length ds) (constructed type)))
unfolding constructed
fill-Filled type ds other two small =
    fill-Filled_from type ds (constructed type) refl refl other two small

-- For a widget that is not of the type NUM and whose array is full of 2 to 255 images: a further
-- image changes nothing.
set_image_data_full :
    (key : ℕ) (image : Image) (ds : List ImageData) (u : Upgrade)
    → is_num u.type ≡ false
    → Filled ds u
    → set_image_data key image u ≡ u
unfolding set_image_data
set_image_data_full key image ds u other (array, size, two, small) =
    let full : u.image_array ≡ slots ds 0 = array ∙ sym (append-nil (map some ds)) in
    let place : first_null u.image_array_size u.image_array ≡ length ds =
      rw full (first_null-slots ds 0 u.image_array_size (omega (arith, size))) in
    let none_left : leb u.image_array_size (length ds) ≡ true = ground (arith, size) in
    rw other (rw place (rw none_left))

fill-value : (ds : List ImageData) (u : Upgrade) → (fill ds u).value ≡ u.value
unfolding fill set_image_data
fill-value [] u = refl
fill-value (d ∷ ds) u = fill-value ds (set_image_data d.key d.image u) ∙ ground arith

start-value : (n : ℕ) (u : Upgrade) → (set_image_array_size n u).value ≡ u.value
unfolding set_image_array_size
start-value n u = elim (Bool-cases (ltb 0 u.image_array_size || n == 0)) [
  | inl e ↦ rw e refl
  | inr e ↦ rw e refl
]

-- A widget that has shown no progress yet.
pub fill-InSync_from :
    (ds : List ImageData) (u : Upgrade)
    → u.value ≡ negsuc 0
    → InSync (fill ds (set_image_array_size (length ds) u))
fill-InSync_from ds u unset v e =
    absurd
      (cc (fill-value ds (set_image_array_size (length ds) u), start-value (length ds) u, unset, e))

-- A new widget has shown no progress.
pub fill-InSync :
    (type : UpgradeType) (ds : List ImageData)
    → InSync (fill ds (set_image_array_size (length ds) (constructed type)))
unfolding constructed
fill-InSync type ds = fill-InSync_from ds (constructed type) refl

-- A widget that has no images yet.
pub record Bare (mode : UpgradeType) (u : Upgrade) : Type 0 where
  pub typed : u.type ≡ mode
  pub empty : u.image_array_size ≡ 0
  pub unset : u.value ≡ negsuc 0

pub set_type-Bare : (mode : UpgradeType) → Bare mode (set_type mode (constructed num))
unfolding set_type constructed
set_type-Bare num = record { typed = refl; empty = refl; unset = refl }
set_type-Bare bar = record { typed = refl; empty = refl; unset = refl }
set_type-Bare circle = record { typed = refl; empty = refl; unset = refl }
set_type-Bare anim = record { typed = refl; empty = refl; unset = refl }
set_type-Bare custom_anim = record { typed = refl; empty = refl; unset = refl }
set_type-Bare invalid = record { typed = refl; empty = refl; unset = refl }
