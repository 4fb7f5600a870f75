-- ===== src/Widget/Draw/Number.antt =====
-- Where lv_render_number_mode_content of ui/extra/lv_upgrade.c draws its images.
use mathlib.Core.Path.{subst}
use openvela_frameworks_syst.Prelude.{
  ℕ, ◌+◌, ◌^◌, ◌≤◌, ◌<◌, ◌≡◌, inl, inr, refl, ap, sym, ◌∙◌, arith, Option, none, some, List, [],
  ◌∷◌, length, get_elem?, map, leb, Bool-cases, if◌then◌else◌,
}
use openvela_frameworks_syst.Prelude.Int.{ℤ, pos, negsuc}
use openvela_frameworks_syst.Widget.{Image, ImageData, Upgrade}
use openvela_frameworks_syst.Widget.Closest.{Filled}
use openvela_frameworks_syst.Widget.Size.{Area, calc_objs_size, add_digits, calc_number_mode_size}
use openvela_frameworks_syst.Widget.Size.Safe.{get_elem?-map-some}
use openvela_frameworks_syst.Widget.Draw.{
  Box, zero_box, minus, Call, draw_image, Drawing, calc_draw_area, after_call, draw_digits,
  render_number_mode_content,
}

abbrev pub percent_images : Option Image → List Image
percent_images none = []
percent_images (some image) = image ∷ []

-- The images of the digits, from the last one on, up to the first that has none.
abbrev pub shown_of : Option (Option ImageData) → List Image → List Image
shown_of none rest = []
shown_of (some none) rest = rest
shown_of (some (some x)) rest = x.image ∷ rest

unfoldable pub shown : ℕ → List (Option ImageData) → List ℤ → List Image
shown size images [] = []
shown size images (negsuc d ∷ ds) = []
shown size images (pos d ∷ ds) =
    let rest = shown size images ds in if leb size d then [] else shown_of (get_elem? images d) rest

abbrev pub width : List Image → ℕ
width [] = 0
width (image ∷ images) = image.w + width images

-- Each image stands in a box of its width, to the left of the one before and a row higher; `x` is the
-- column behind the first box, and `y` the row below its top.
abbrev pub Tiles : Option Image → ℕ → ℕ → List Image → List Call → Type 0
Tiles src x y [] [] = Unit {0}
Tiles src x y (image ∷ images) (draw_image s b ∷ calls) =
    (s ≡ src)
    × (b.x1 + image.w ≡ x)
    × (b.x2 + 1 ≡ x)
    × (b.y1 + 1 ≡ y)
    × Tiles src b.x1 b.y1 images calls
Tiles src x y images calls = ⊥

-- Without a percent sign, its call has the empty area.
abbrev pub Laid : Option Image → Option Image → ℕ → ℕ → List Image → List Call → Type 0
Laid (some image) src x y images calls = Tiles src x y (image ∷ images) calls
Laid none src x y images calls =
    (rest : List Call) × (calls ≡ draw_image src zero_box ∷ rest) × Tiles src x y images rest

minus_lem : (a b : ℕ) → b ≤ a → a < 2 ^ 32 → minus a b + b ≡ a
minus_lem a b h k = omega arith

-- A box beside the one before.
placed :
    (image : Image) (coords : Box)
    → image.w ≤ coords.x2
    → 1 ≤ coords.x2
    → coords.x2 < 2 ^ 32
    → 1 ≤ coords.y1
    → coords.y1 < 2 ^ 32
    → let (b, next) = calc_draw_area (some image) coords in
      (b.x1 + image.w ≡ coords.x2)
      × (b.x2 + 1 ≡ coords.x2)
      × (b.y1 + 1 ≡ coords.y1)
      × (next.x2 ≡ b.x1)
      × (next.y1 ≡ b.y1)
unfolding calc_draw_area
placed image coords w x x' y y' = (
  minus_lem coords.x2 image.w w x',
  minus_lem coords.x2 1 x x',
  minus_lem coords.y1 1 y y',
  refl,
  refl,
)

-- For an array without null pointers.
draw_digits-Tiles :
    (src : Option Image) (size : ℕ) (xs : List ImageData) (ds : List ℤ) (coords : Box)
    → size ≤ length xs
    → width (shown size (map some xs) ds) < coords.x2
    → coords.x2 < 2 ^ 32
    → length ds < coords.y1
    → coords.y1 < 2 ^ 32
    → (calls : List Call) × (draw_digits src size (map some xs) ds coords ≡ some calls)
      × Tiles src coords.x2 coords.y1 (shown size (map some xs) ds) calls
unfolding draw_digits shown
draw_digits-Tiles src size xs [] coords whole wide x high y = ([], refl, tt)
draw_digits-Tiles src size xs (negsuc d ∷ ds) coords whole wide x high y = ([], refl, tt)
draw_digits-Tiles src size xs (pos d ∷ ds) coords whole wide x high y =
    elim (Bool-cases (leb size d)) [
      | inl e ↦ rw e ([], refl, tt)
      | inr e ↦
          let (entry, at) = get_elem?-map-some xs d (ground (arith, e, whole)) in
          let wide' : entry.image.w + width (shown size (map some xs) ds) < coords.x2 =
            rw e at (rw at at wide) in
          let (b, next) = calc_draw_area (some entry.image) coords in
          let (left, right, top, x_next, y_next) =
            placed entry.image coords (omega (arith, wide')) (omega (arith, wide')) x (omega arith)
              y in
          let (calls, runs, tiles) =
            draw_digits-Tiles src size xs ds next whole (omega (arith, wide', left, x_next))
              (omega (arith, x, left, x_next)) (omega (arith, high, top, y_next))
              (omega (arith, y, top, y_next)) in
          rw e (
            rw at (
              draw_image src b ∷ calls,
              ap (after_call (draw_image src b)) runs,
              (refl, left, right, top, rw x_next at (rw y_next at tiles)),
            ))
    ]

some-injective : {A : Type 0} {a b : A} → some a ≡ some b → a ≡ b
some-injective e = cc (e)

percent_width :
    (percent : Option Image)
    → (calc_objs_size percent (record { x2 = 0; y2 = 0 })).x2 ≡ width (percent_images percent)
unfolding calc_objs_size
percent_width none = refl
percent_width (some image) = omega arith

add_digits-width :
    (size : ℕ) (xs : List ImageData) (ds : List ℤ) (area r : Area)
    → size ≤ length xs
    → add_digits size (map some xs) ds area ≡ some r
    → r.x2 ≡ area.x2 + width (shown size (map some xs) ds)
unfolding add_digits shown calc_objs_size
add_digits-width size xs [] area r whole e =
    ap (λ (a : Area). a.x2) (some-injective (sym e)) ∙ omega arith
add_digits-width size xs (negsuc d ∷ ds) area r whole e =
    ap (λ (a : Area). a.x2) (some-injective (sym e)) ∙ omega arith
add_digits-width size xs (pos d ∷ ds) area r whole e = elim (Bool-cases (leb size d)) [
  | inl last ↦ rw last (ap (λ (a : Area). a.x2) (some-injective (sym (rw last at e))) ∙ omega arith)
  | inr more ↦
      let (entry, at) = get_elem?-map-some xs d (ground (arith, more, whole)) in
      let rest =
        add_digits-width size xs ds (calc_objs_size (some entry.image) area) r whole
          (rw at at (rw more at e)) in
      rw more (rw at (omega (arith, rest)))
]

images_width :
    (u : Upgrade) (xs : List ImageData) (area : Area)
    → Filled xs u
    → calc_number_mode_size u (record { x2 = 0; y2 = 0 }) ≡ some area
    → area.x2
      ≡ width (percent_images u.image_percent_sign)
        + width (shown u.image_array_size u.image_array u.progress)
unfolding calc_number_mode_size calc_objs_size
images_width u xs area (array, size, two, small) e =
    let sized =
      add_digits-width u.image_array_size xs u.progress _ area (omega (arith, size))
        (rw array at e) in
    rw array (
      sized
      ∙ ap (λ n. n + width (shown u.image_array_size (map some xs) u.progress))
          (percent_width u.image_percent_sign))

percent_then_digits :
    (percent src : Option Image) (size : ℕ) (xs : List ImageData) (ds : List ℤ) (coords : Box)
    → size ≤ length xs
    → width (percent_images percent) + width (shown size (map some xs) ds) < coords.x2
    → coords.x2 < 2 ^ 32
    → length ds + 1 < coords.y1
    → coords.y1 < 2 ^ 32
    → let (b, next) = calc_draw_area percent coords in
      (calls : List Call) × (after_call
          (draw_image src b)
          (draw_digits src size (map some xs) ds next)
        ≡ some calls)
      × Laid percent src coords.x2 coords.y1 (shown size (map some xs) ds) calls
unfolding calc_draw_area
percent_then_digits none src size xs ds coords whole wide x high y =
    let (calls, runs, tiles) =
      draw_digits-Tiles src size xs ds coords whole (omega (arith, wide)) x (omega arith) y in
    (
      draw_image src zero_box ∷ calls,
      ap (after_call (draw_image src zero_box)) runs,
      (calls, refl, tiles),
    )
percent_then_digits (some image) src size xs ds coords whole wide x high y =
    let (b, next) = calc_draw_area (some image) coords in
    let (left, right, top, x_next, y_next) =
      placed image coords (omega (arith, wide)) (omega (arith, wide)) x (omega arith) y in
    let (calls, runs, tiles) =
      draw_digits-Tiles src size xs ds next whole (omega (arith, wide, left, x_next))
        (omega (arith, x, left, x_next)) (omega (arith, high, top, y_next))
        (omega (arith, y, top, y_next)) in
    (
      draw_image src b ∷ calls,
      ap (after_call (draw_image src b)) runs,
      (refl, left, right, top, tiles),
    )

-- For a widget whose array holds 2 to 255 images without a null pointer, and the width of the
-- content that lv_calc_number_mode_size computes: on an object that ends right of that width and
-- below its fifth row, lv_render_number_mode_content draws the percent sign and then the images of
-- the digits from the last one on, reads no null pointer and nothing outside the array, and sets no
-- source. Each image is drawn as wide as it is and beside the one before, without a gap, one row
-- higher than it, and together they are as wide as the content.
pub render_number_mode_content_lem :
    (u : Upgrade) (xs : List ImageData) (d : Drawing) (coords : Box) (area : Area)
    → Filled xs u
    → calc_number_mode_size u (record { x2 = 0; y2 = 0 }) ≡ some area
    → area.x2 < coords.x2
    → coords.x2 < 2 ^ 32
    → length u.progress + 1 < coords.y1
    → coords.y1 < 2 ^ 32
    → let digits = shown u.image_array_size u.image_array u.progress in
      (calls : List Call) × (render_number_mode_content u d coords ≡ some calls)
      × Laid u.image_percent_sign d.src coords.x2 coords.y1 digits calls
      × (width (percent_images u.image_percent_sign) + width digits ≡ area.x2)
unfolding render_number_mode_content
render_number_mode_content_lem u xs d coords area filled sized wide x high y =
    let total = images_width u xs area filled sized in
    let (array, size, two, small) = filled in
    let total' : area.x2
        ≡ width (percent_images u.image_percent_sign)
          + width (shown u.image_array_size (map some xs) u.progress) =
      subst
        (λ l.
          area.x2
          ≡ width (percent_images u.image_percent_sign)
            + width (shown u.image_array_size l u.progress))
        array total in
    let (b, next) = calc_draw_area u.image_percent_sign coords in
    let (calls, runs, laid) =
      percent_then_digits u.image_percent_sign d.src u.image_array_size xs u.progress coords
        (omega (arith, size)) (omega (arith, wide, total')) x high y in
    subst
      (λ l.
        (calls : List Call) × (after_call (draw_image d.src b)
            (draw_digits d.src u.image_array_size l u.progress next)
          ≡ some calls)
        × Laid u.image_percent_sign d.src coords.x2 coords.y1
            (shown u.image_array_size l u.progress) calls
        × (width (percent_images u.image_percent_sign)
              + width (shown u.image_array_size l u.progress)
            ≡ area.x2))
      (sym array) (calls, runs, laid, sym total')
