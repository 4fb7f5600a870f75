-- ===== src/Widget/Tests.antt =====
-- The theorems on the progress widget at concrete values.
use openvela_frameworks_syst.Prelude.{
  ℕ, suc, ◌+◌, none, ◌≤◌, ◌<◌, ◌≡◌, refl, arith, false, if◌then◌else◌, some, List, [], ◌∷◌, length,
}
use openvela_frameworks_syst.Prelude.Int.{pos, negsuc}
use openvela_frameworks_syst.Widget.{
  Image, ImageData, Upgrade, bar, num, anim_fps, is_num, constructed, set_image_array_size,
  set_image_data, first_null, get_value, store_progress,
}
use openvela_frameworks_syst.Widget.Digits.{InSync, get_value-store_progress}
use openvela_frameworks_syst.Widget.Closest.{
  Filled, DiffAt, closest_element_index, closest_element_index_lem,
}
use openvela_frameworks_syst.Widget.Slots.{fill, fill-Filled}
use openvela_frameworks_syst.Widget.Size.{Area, calc_number_mode_size}
use openvela_frameworks_syst.Widget.Free.{Block, destructor, times, holds, destructor_lem}
use openvela_frameworks_syst.Widget.Draw.{
  Box, Call, Drawing, draw, progress, frame, handle_all, render_number_mode_content,
}
use openvela_frameworks_syst.Widget.Draw.Number.{
  Laid, shown, width, percent_images, render_number_mode_content_lem,
}
use openvela_frameworks_syst.Widget.Draw.Events.{handle_all_safe}

abbrev small : Image
small = record { w = 10; h = 20 }

abbrev large : Image
large = record { w = 30; h = 15 }

abbrev images : List ImageData
images =
    record { key = 0; image = small }
    ∷ record { key = 50; image = large }
    ∷ record { key = 100; image = large }
    ∷ []

abbrev start : Upgrade
start = constructed bar

abbrev filled : Upgrade
filled = fill images (set_image_array_size 3 start)

start-InSync : InSync start
unfolding constructed
start-InSync v e = absurd (cc)

get_value-store_progress_example :
    (get_value (store_progress 100 start) ≡ 100) × InSync (store_progress 100 start)
get_value-store_progress_example = get_value-store_progress 100 start (omega arith) start-InSync

filled-bar : is_num filled.type ≡ false
unfolding fill set_image_array_size set_image_data constructed first_null
filled-bar = refl

filled-Filled : Filled images filled
filled-Filled = fill-Filled bar images refl (omega arith) (omega arith)

closest_element_index_lem_example :
    (t : ℕ) × (closest_element_index 99 filled ≡ some t)
    × (t < filled.image_array_size)
    × (suc t ≡ filled.image_array_size → DiffAt 99 images t 0)
    × ((j : ℕ) → DiffAt 99 images j 0 → DiffAt 99 images t 0)
closest_element_index_lem_example = closest_element_index_lem 99 filled images filled-Filled

abbrev nothing : Area
nothing = record { x2 = 0; y2 = 0 }

filled-length : filled.image_array_size ≤ length filled.image_array
unfolding fill set_image_array_size set_image_data constructed first_null
filled-length = omega arith

abbrev at_rest : Drawing
at_rest = record {
  src = none;
  image_rotation = 0;
  pivot = (0, 0);
  anim_data = none;
  running = none;
  rotation = 0;
}

abbrev screen : Box
screen = record { x1 = 0; y1 = 0; x2 = 200; y2 = 100 }

abbrev corner : Box
corner = record { x1 = 20; y1 = 30; x2 = 120; y2 = 60 }

-- The widget of type number that shows 12 percent.
abbrev numbers : Upgrade
numbers = record filled {
  type = num;
  progress = pos 2 ∷ pos 1 ∷ negsuc 0 ∷ [];
  image_percent_sign = some small;
}

numbers-Filled : Filled images numbers
numbers-Filled = filled-Filled

numbers_area : calc_number_mode_size numbers nothing ≡ some (record { x2 = 70; y2 = 20 })
unfolding calc_number_mode_size fill set_image_array_size set_image_data constructed first_null
numbers_area = refl

render_number_mode_content_lem_example :
    let digits = shown numbers.image_array_size numbers.image_array numbers.progress in
    (calls : List Call) × (render_number_mode_content numbers at_rest corner ≡ some calls)
    × Laid numbers.image_percent_sign none 120 30 digits calls
    × (width (percent_images numbers.image_percent_sign) + width digits ≡ 70)
render_number_mode_content_lem_example =
    render_number_mode_content_lem numbers images at_rest corner (record { x2 = 70; y2 = 20 })
      numbers-Filled numbers_area (omega arith) (omega arith) (omega arith) (omega arith)

filled_fps : 1 ≤ anim_fps filled
unfolding fill set_image_array_size set_image_data constructed first_null
filled_fps = omega arith

handle_all_safe_example :
    (u' : Upgrade) × (d' : Drawing) × (handle_all
        (λ task area. area)
        (progress 42 ∷ draw screen corner ∷ frame (negsuc 3) ∷ frame (pos 7) ∷ [])
        filled
        at_rest
      ≡ some (u', d'))
    × Filled images u'
handle_all_safe_example =
    handle_all_safe (λ task area. area)
      (progress 42 ∷ draw screen corner ∷ frame (negsuc 3) ∷ frame (pos 7) ∷ []) images filled
      at_rest filled-Filled filled_fps

destructor_lem_example :
    (blocks : List Block) × (destructor numbers ≡ some blocks)
    × ((b : Block) → times b blocks ≡ (if holds 3 numbers.image_percent_sign b then 1 else 0))
destructor_lem_example = destructor_lem numbers images numbers-Filled
