-- ===== src/Widget/Free.antt =====
-- ui/extra/lv_upgrade.c: lv_upgrade_destructor and what it frees.
use openvela_frameworks_syst.Widget.Closest.{Filled}
use openvela_frameworks_syst.Prelude.{
  ℕ, zero, suc, ◌+◌, ◌≤◌, ◌≡◌, refl, ap, ◌∙◌, Bool, true, false, ◌&&◌, arith, Option, none, some,
  List, [], ◌∷◌, ◌++◌, length, map, leb, ltb, ◌==◌, if◌then◌else◌,
}
use openvela_frameworks_syst.Widget.{Image, ImageData, Upgrade}

-- What the widget holds on the heap, by where it is held: of the entry at an index its pixels, its
-- lv_image_dsc_t and itself; the array; and of the percent sign the pixels and the lv_image_dsc_t.
pub data Block : Type 0 where
  pixels descriptor entry : ℕ → Block
  array percent_pixels percent_descriptor : Block

abbrev pub freed_first : List Block → Option (List Block) → Option (List Block)
freed_first blocks none = none
freed_first blocks (some rest) = some (blocks ++ rest)

-- lv_image_data_free of an entry's data, and lv_free of the entry.
abbrev pub free_entry : ℕ → Option ImageData → List Block
free_entry i none = []
free_entry i (some x) = pixels i ∷ descriptor i ∷ entry i ∷ []

-- The loop from the index `i` on, for the entries left below the size; `none` is a read behind the
-- array.
pub free_entries : ℕ → ℕ → List (Option ImageData) → Option (List Block)
free_entries i zero xs = some []
free_entries i (suc n) [] = none
free_entries i (suc n) (x ∷ xs) = freed_first (free_entry i x) (free_entries (suc i) n xs)

abbrev pub free_percent : Option Image → List Block
free_percent none = []
free_percent (some image) = percent_pixels ∷ percent_descriptor ∷ []

-- More blocks behind those.
abbrev pub freed_last : List Block → Option (List Block) → Option (List Block)
freed_last blocks none = none
freed_last blocks (some first) = some (first ++ blocks)

-- The block under `if (upgrade->image_array)`.
abbrev pub free_array : ℕ → List (Option ImageData) → Option (List Block)
free_array size [] = some []
free_array size (x ∷ xs) = freed_last (array ∷ []) (free_entries 0 size (x ∷ xs))

-- lv_upgrade_destructor: the blocks that it frees, in order.
pub destructor : Upgrade → Option (List Block)
unfolding free_entries
destructor u =
    freed_last (free_percent u.image_percent_sign) (free_array u.image_array_size u.image_array)

abbrev pub same_block : Block → Block → Bool
same_block (pixels i) (pixels j) = i == j
same_block (descriptor i) (descriptor j) = i == j
same_block (entry i) (entry j) = i == j
same_block array array = true
same_block percent_pixels percent_pixels = true
same_block percent_descriptor percent_descriptor = true
same_block _ _ = false

-- How often a block is in a list.
abbrev pub times : Block → List Block → ℕ
times b [] = 0
times b (c ∷ cs) = (if same_block c b then 1 else 0) + times b cs

times-append : (b : Block) (xs ys : List Block) → times b (xs ++ ys) ≡ times b xs + times b ys
times-append b [] ys = omega arith
times-append b (x ∷ xs) ys = omega (arith, times-append b xs ys)

-- The blocks of the entries from `i` on, below `i + n`.
abbrev pub within : ℕ → ℕ → Block → Bool
within i n (pixels j) = leb i j && ltb j (i + n)
within i n (descriptor j) = leb i j && ltb j (i + n)
within i n (entry j) = leb i j && ltb j (i + n)
within i n _ = false

one_more :
    (i n j : ℕ)
    → (if i == j then 1 else 0) + (if leb (suc i) j && ltb j (suc i + n) then 1 else 0)
      ≡ (if leb i j && ltb j (i + suc n) then 1 else 0)
one_more i n j = ground arith

one_entry :
    (i n : ℕ) (x : ImageData) (b : Block)
    → times b (free_entry i (some x)) + (if within (suc i) n b then 1 else 0)
      ≡ (if within i (suc n) b then 1 else 0)
one_entry i n x (pixels j) = omega (arith, one_more i n j)
one_entry i n x (descriptor j) = omega (arith, one_more i n j)
one_entry i n x (entry j) = omega (arith, one_more i n j)
one_entry i n x array = refl
one_entry i n x percent_pixels = refl
one_entry i n x percent_descriptor = refl

within_none : (i : ℕ) (b : Block) → times b [] ≡ (if within i 0 b then 1 else 0)
within_none i (pixels j) = ground arith
within_none i (descriptor j) = ground arith
within_none i (entry j) = ground arith
within_none i array = refl
within_none i percent_pixels = refl
within_none i percent_descriptor = refl

free_entries_lem :
    (i n : ℕ) (xs : List ImageData)
    → n ≤ length xs
    → (blocks : List Block) × (free_entries i n (map some xs) ≡ some blocks)
      × ((b : Block) → times b blocks ≡ (if within i n b then 1 else 0))
unfolding free_entries
free_entries_lem i zero xs h = ([], refl, within_none i)
free_entries_lem i (suc n) [] h = absurd (omega arith)
free_entries_lem i (suc n) (x ∷ xs) h =
    let (blocks, runs, count) = free_entries_lem (suc i) n xs (omega arith) in
    (
      free_entry i (some x) ++ blocks,
      ap (freed_first (free_entry i (some x))) runs,
      λ b.
          times-append b (free_entry i (some x)) blocks
          ∙ ap (λ k. times b (free_entry i (some x)) + k) (count b)
          ∙ one_entry i n x b,
    )

-- What a widget of so many images holds.
abbrev pub holds : ℕ → Option Image → Block → Bool
holds n percent (pixels j) = ltb j n
holds n percent (descriptor j) = ltb j n
holds n percent (entry j) = ltb j n
holds n percent array = true
holds n none percent_pixels = false
holds n (some image) percent_pixels = true
holds n none percent_descriptor = false
holds n (some image) percent_descriptor = true

all_blocks :
    (n : ℕ) (percent : Option Image) (b : Block)
    → (if within 0 n b then 1 else 0) + times b (array ∷ []) + times b (free_percent percent)
      ≡ (if holds n percent b then 1 else 0)
all_blocks n none (pixels j) = ground arith
all_blocks n (some image) (pixels j) = ground arith
all_blocks n none (descriptor j) = ground arith
all_blocks n (some image) (descriptor j) = ground arith
all_blocks n none (entry j) = ground arith
all_blocks n (some image) (entry j) = ground arith
all_blocks n none array = refl
all_blocks n (some image) array = refl
all_blocks n none percent_pixels = refl
all_blocks n (some image) percent_pixels = refl
all_blocks n none percent_descriptor = refl
all_blocks n (some image) percent_descriptor = refl

free_array_lem :
    (n : ℕ) (xs : List ImageData) (blocks : List Block)
    → 1 ≤ length xs
    → free_entries 0 n (map some xs) ≡ some blocks
    → free_array n (map some xs) ≡ some (blocks ++ (array ∷ []))
free_array_lem n [] blocks h runs = absurd (omega arith)
free_array_lem n (x ∷ xs) blocks h runs = ap (freed_last (array ∷ [])) runs

-- For a widget whose array holds 2 to 255 images without a null pointer, with or without a percent
-- sign: lv_upgrade_destructor reads nothing outside the array; it frees every block that the widget
-- holds exactly once, and no other.
pub destructor_lem :
    (u : Upgrade) (xs : List ImageData)
    → Filled xs u
    → (blocks : List Block) × (destructor u ≡ some blocks)
      × ((b : Block) → times b blocks ≡ (if holds (length xs) u.image_percent_sign b then 1 else 0))
unfolding destructor
destructor_lem u xs (filled, size, two, small) =
    let (entries, runs, count) = free_entries_lem 0 (length xs) xs (omega arith) in
    let freed = free_array_lem (length xs) xs entries (omega (arith, two)) runs in
    let percent = free_percent u.image_percent_sign in
    (
      (entries ++ (array ∷ [])) ++ percent,
      ap (λ l. freed_last percent (free_array u.image_array_size l)) filled
          ∙ ap (λ n. freed_last percent (free_array n (map some xs))) size
          ∙ ap (freed_last percent) freed,
      λ b.
          times-append b (entries ++ (array ∷ [])) percent
          ∙ ap (λ k. k + times b percent)
              (times-append b entries (array ∷ []) ∙ ap (λ k. k + times b (array ∷ [])) (count b))
          ∙ all_blocks (length xs) u.image_percent_sign b,
    )
