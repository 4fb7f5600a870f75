-- ===== src/Lvgl/Sample.antt =====
-- A display with the four pages of ui/ui_ota.c, all hidden, for the tests: the upgrading page has a
-- progress bar of three images.
use openvela_frameworks_syst.Prelude.{refl, true, false, none, String, List, [], ◌∷◌, arith, ◌≤◌}
use openvela_frameworks_syst.Widget.{
  ImageData, Upgrade, num, bar, constructed, set_image_array_size, anim_fps,
}
use openvela_frameworks_syst.Widget.Rate.{
  anim_fps-fill, anim_fps-set_image_array_size, constructed_rate,
}
use openvela_frameworks_syst.Widget.Digits.{InSync}
use openvela_frameworks_syst.Widget.Closest.{Filled}
use openvela_frameworks_syst.Widget.Slots.{fill, fill-Filled, fill-InSync}
use openvela_frameworks_syst.Lvgl.{plain, upgrade_widget}
use openvela_frameworks_syst.Lvgl.Memory.{memory}

unfoldable pub no_page : memory.Store
unfolding memory
no_page = record {
  next = 1;
  kids = λ o. [];
  up = λ o. none;
  texts = λ o. none;
  hidden = λ o. true;
  widgets = λ o. false;
  upgrades = λ o. constructed num;
  positive = omega arith;
  bounded = λ p i q e. absurd (cc);
  parents = λ p i q e. absurd (cc);
}

abbrev pub images : List ImageData
images =
    record { key = 0; image = record { w = 10; h = 20 } }
    ∷ record { key = 50; image = record { w = 30; h = 15 } }
    ∷ record { key = 100; image = record { w = 30; h = 15 } }
    ∷ []

abbrev pub progress_bar : Upgrade
progress_bar = fill images (set_image_array_size 3 (constructed bar))

pub progress_bar-Filled : Filled images progress_bar
progress_bar-Filled = fill-Filled bar images refl (omega arith) (omega arith)

pub progress_bar-InSync : InSync progress_bar
progress_bar-InSync = fill-InSync bar images

pub progress_bar_rate : 1 ≤ anim_fps progress_bar
progress_bar_rate = omega (
  arith,
  anim_fps-fill images (set_image_array_size 3 (constructed bar)),
  anim_fps-set_image_array_size 3 (constructed bar),
  constructed_rate bar,
)

unfoldable pub new_page : String → memory.Store → memory.Store
unfolding memory
new_page name t =
    let (o, t') = memory.create plain 0 t in memory.set_hidden o true (memory.set_text o name t')

-- The pages are the objects 1 to 4, the base of the progress is 5, and the widget is 6.
unfoldable pub pages : memory.Store
unfolding memory new_page no_page
pages =
    let t = new_page "logo_page" no_page in
    let t = new_page "upgrading_page" t in
    let t = new_page "upgrade_success_page" t in
    let t = new_page "upgrade_fail_page" t in
    let t = (memory.create plain 2 t).1 in
    memory.put_upgrade 6 progress_bar (memory.create upgrade_widget 5 t).1

unfoldable pub upgrading : memory.Obj
unfolding memory
upgrading = 2

unfoldable pub base : memory.Obj
unfolding memory
base = 5

unfoldable pub widget : memory.Obj
unfolding memory
widget = 6
