-- ===== src/Widget/Closest.antt =====
-- ui/extra/lv_upgrade.c: the image that the widget shows for a value.
use openvela_frameworks_syst.Prelude.{
  ℕ, zero, suc, ◌+◌, ◌-◌, ◌^◌, ◌%◌, ◌≤◌, ◌<◌, ◌≡◌, ◌⊎◌, inl, inr, refl, ap, sym, ◌∙◌, Bool, true,
  false, not, ◌&&◌, arith, Option, none, some, List, [], ◌∷◌, map, length, take, take-all,
  get_elem?, ltb, ◌==◌, Bool-cases, if◌then◌else◌,
}
use openvela_frameworks_syst.Widget.{ImageData, Upgrade}

-- `abs(value - key)`: the difference is a uint32_t, which `abs` reads as an `int`.
pub abs_diff : ℕ → ℕ → ℕ
abs_diff value key =
    let d = (value + (2 ^ 32 - key)) % 2 ^ 32 in if ltb d (2 ^ 31) then d else 2 ^ 32 - d

-- The loop from the entry `i` on; a null pointer crashes it.
pub closest_from : ℕ → List (Option ImageData) → ℕ → ℕ → ℕ → Option (ℕ × ℕ)
unfolding abs_diff
closest_from value [] i min_diff target = some (min_diff, target)
closest_from value (none ∷ xs) i min_diff target = none
closest_from value (some x ∷ xs) i min_diff target =
    let diff = abs_diff value x.key in
    closest_from value xs (suc i) (if ltb diff min_diff then diff else min_diff)
      (if ltb diff min_diff then i else target)

-- What is returned; the index 0 less 1 is 255 in a uint8_t.
abbrev pub below_last : ℕ → Option (ℕ × ℕ) → Option ℕ
below_last size none = none
below_last size (some (min_diff, target)) =
    some (if not (min_diff == 0) && suc target == size then (target + 255) % 256 else target)

-- The first entry is read before the loop, the size is `image_array_size`.
abbrev closest_in : ℕ → ℕ → List (Option ImageData) → Option ℕ
closest_in size value [] = none
closest_in size value (none ∷ xs) = none
closest_in size value (some x ∷ xs) =
    below_last size (closest_from value (take (size - 1) xs) 1 (abs_diff value x.key) 0)

-- lv_get_closest_element_index
pub closest_element_index : ℕ → Upgrade → Option ℕ
unfolding closest_from
closest_element_index value u = closest_in u.image_array_size value u.image_array

-- The distance at an index is that number.
pub DiffAt : ℕ → List ImageData → ℕ → ℕ → Type 0
DiffAt value ds j n = (d : ImageData) × (get_elem? ds j ≡ some d) × (abs_diff value d.key ≡ n)

-- What the loop has found after the entries from `i` on.
Scanned : ℕ → List ImageData → ℕ → ℕ → ℕ → ℕ × ℕ → Type 0
Scanned value ds i best target r =
    (r.0 ≤ best)
    × ((j : ℕ) (d : ImageData) → get_elem? ds j ≡ some d → r.0 ≤ abs_diff value d.key)
    × (((r.0 ≡ best) × (r.1 ≡ target)) ⊎ ((j : ℕ) × (r.1 ≡ i + j) × DiffAt value ds j r.0))

least-cons :
    (value n : ℕ) (d : ImageData) (ds : List ImageData)
    → n ≤ abs_diff value d.key
    → ((j : ℕ) (x : ImageData) → get_elem? ds j ≡ some x → n ≤ abs_diff value x.key)
    → (j : ℕ) (x : ImageData) → get_elem? (d ∷ ds) j ≡ some x
    → n ≤ abs_diff value x.key
least-cons value n d ds here later zero x e =
    let same : d ≡ x = cc in
    let keys : abs_diff value d.key ≡ abs_diff value x.key = cc in omega arith
least-cons value n d ds here later (suc j) x e = later j x e

found-cons :
    (value : ℕ) (d : ImageData) (ds : List ImageData) (i best target : ℕ) (r : ℕ × ℕ)
    (closer : Bool)
    → ((r.0 ≡ (if closer then abs_diff value d.key else best))
        × (r.1 ≡ (if closer then i else target)))
      ⊎ ((j : ℕ) × (r.1 ≡ suc i + j) × DiffAt value ds j r.0)
    → ((r.0 ≡ best) × (r.1 ≡ target)) ⊎ ((j : ℕ) × (r.1 ≡ i + j) × DiffAt value (d ∷ ds) j r.0)
unfolding DiffAt
found-cons value d ds i best target r true (inl (diff, here)) =
    inr (0, omega arith, (d, refl, sym diff))
found-cons value d ds i best target r false (inl kept) = inl kept
found-cons value d ds i best target r closer (inr (j, at, diff)) = inr (suc j, omega arith, diff)

Scanned-cons :
    (value : ℕ) (d : ImageData) (ds : List ImageData) (i best target : ℕ) (r : ℕ × ℕ)
    → Scanned value ds
        (suc i)
        (if ltb (abs_diff value d.key) best then abs_diff value d.key else best)
        (if ltb (abs_diff value d.key) best then i else target)
        r
    → Scanned value (d ∷ ds) i best target r
unfolding Scanned
Scanned-cons value d ds i best target r (below, least, found) = (
  ground arith,
  least-cons value r.0 d ds (ground arith) least,
  found-cons value d ds i best target r (ltb (abs_diff value d.key) best) found,
)

closest_from_lem :
    (value : ℕ) (ds : List ImageData) (i best target : ℕ)
    → (r : ℕ × ℕ) × (closest_from value (map some ds) i best target ≡ some r)
      × Scanned value ds i best target r
unfolding closest_from Scanned
closest_from_lem value [] i best target =
    ((best, target), refl, (omega arith, (λ j d e. absurd (cc)), inl (refl, refl)))
closest_from_lem value (d ∷ ds) i best target =
    let diff = abs_diff value d.key in
    let (r, runs, scanned) =
      closest_from_lem value ds (suc i) (if ltb diff best then diff else best)
        (if ltb diff best then i else target) in
    (r, runs, Scanned-cons value d ds i best target r scanned)

pub length-map-some : (ds : List ImageData) → length (map some ds) ≡ length ds
length-map-some [] = refl
length-map-some (d ∷ ds) = ap suc (length-map-some ds)

pub get_elem?-lt :
    (ds : List ImageData) (j : ℕ) (d : ImageData) → get_elem? ds j ≡ some d → j < length ds
get_elem?-lt [] j d e = absurd (cc)
get_elem?-lt (x ∷ ds) zero d e = omega arith
get_elem?-lt (x ∷ ds) (suc j) d e = omega (arith, get_elem?-lt ds j d e)

-- The distances are at least the first number, which is the distance at the second.
Least : ℕ → List ImageData → ℕ × ℕ → Type 0
Least value ds r =
    ((j : ℕ) (d : ImageData) → get_elem? ds j ≡ some d → r.0 ≤ abs_diff value d.key)
    × DiffAt value ds r.1 r.0

first-Least :
    (value : ℕ) (d : ImageData) (ds : List ImageData) (r : ℕ × ℕ)
    → Scanned value ds 1 (abs_diff value d.key) 0 r
    → Least value (d ∷ ds) r
unfolding Scanned Least DiffAt
first-Least value d ds r (below, least, inl (diff, at)) =
    (least-cons value r.0 d ds below least, (d, rw at, sym diff))
first-Least value d ds r (below, least, inr (j, at, diff)) =
    (least-cons value r.0 d ds below least, let at' : r.1 ≡ suc j = omega arith in rw at' diff)

-- What the function promises of the index it returns.
Chosen : ℕ → List ImageData → ℕ → Type 0
Chosen value ds t =
    (t < length ds)
    × (suc t ≡ length ds → DiffAt value ds t 0)
    × ((j : ℕ) → DiffAt value ds j 0 → DiffAt value ds t 0)

below_last-Chosen :
    (value : ℕ) (ds : List ImageData) (r : ℕ × ℕ)
    → 2 ≤ length ds
    → length ds < 256
    → Least value ds r
    → (t : ℕ) × (below_last (length ds) (some r) ≡ some t) × Chosen value ds t
unfolding Least DiffAt Chosen
below_last-Chosen value ds (n, at) two small (least, (d, here, diff)) =
    let inside : at < length ds = get_elem?-lt ds at d here in
    let zero_there : (j : ℕ) → DiffAt value ds j 0 → n ≡ 0 = λ j (x, place, none_left).
      let least_x : n ≤ abs_diff value x.key = least j x place in omega arith in
    let test = not (n == 0) && suc at == length ds in
    elim (Bool-cases test) [
      | inl e ↦ rw e (
        (at + 255) % 256,
        refl,
        (
          ground (arith, e),
          (λ last. absurd (ground (arith, e))),
          λ j found. absurd (ground (arith, e, zero_there j found)),
        ),
      )
      | inr e ↦ rw e (
        at,
        refl,
        (
          inside,
          (λ last. (d, here, ground (arith, e))),
          λ j found. (d, here, diff ∙ zero_there j found),
        ),
      )
    ]

-- An array of 2 to 255 images without a null pointer.
abbrev pub Filled : List ImageData → Upgrade → Type 0
Filled ds u =
    (u.image_array ≡ map some ds)
    × (u.image_array_size ≡ length ds)
    × (2 ≤ length ds)
    × (length ds < 256)

-- For an array of 2 to 255 images: the function returns an index within the array. Where an entry
-- has the distance 0 to the value, so has the entry at that index, and the last entry is returned
-- only at distance 0 ("progress bar display less than 100% when current progress is not 100%").
pub closest_element_index_lem :
    (value : ℕ) (u : Upgrade) (ds : List ImageData)
    → Filled ds u
    → (t : ℕ) × (closest_element_index value u ≡ some t)
      × (t < u.image_array_size)
      × (suc t ≡ u.image_array_size → DiffAt value ds t 0)
      × ((j : ℕ) → DiffAt value ds j 0 → DiffAt value ds t 0)
unfolding closest_element_index Chosen
closest_element_index_lem value u [] (array, size, two, small) = absurd (omega arith)
closest_element_index_lem value u (d ∷ ds) (array, size, two, small) =
    let (r, runs, scanned) = closest_from_lem value ds 1 (abs_diff value d.key) 0 in
    let (t, chosen, holds) =
      below_last-Chosen value (d ∷ ds) r two small (first-Least value d ds r scanned) in
    let whole : take (length (d ∷ ds) - 1) (map some ds) ≡ map some ds =
      take-all (length (d ∷ ds) - 1) (map some ds) (omega (arith, length-map-some ds)) in
    let (inside, last, zero_there) = holds in
    rw size (rw array (t, rw whole (rw runs chosen), inside, last, zero_there))
