-- ===== src/Widget/Rate.antt =====
-- ui/extra/lv_upgrade.c: which calls leave the frames per second of the widget alone.
use openvela_frameworks_syst.Prelude.{ℕ, ◌≤◌, ◌≡◌, refl, ◌∙◌, arith, List, [], ◌∷◌}
use openvela_frameworks_syst.Widget.{
  Image, ImageData, Upgrade, UpgradeType, num, bar, circle, anim, custom_anim, invalid, anim_fps,
  set_type, set_image_data, set_image_array_size, constructed,
}
use openvela_frameworks_syst.Widget.Slots.{fill}

anim_fps-set_image_data :
    (key : ℕ) (image : Image) (u : Upgrade) → anim_fps (set_image_data key image u) ≡ anim_fps u
unfolding set_image_data
anim_fps-set_image_data key image u = ground arith

pub anim_fps-fill : (ds : List ImageData) (u : Upgrade) → anim_fps (fill ds u) ≡ anim_fps u
unfolding fill
anim_fps-fill [] u = refl
anim_fps-fill (d ∷ ds) u =
    anim_fps-fill ds (set_image_data d.key d.image u) ∙ anim_fps-set_image_data d.key d.image u

pub anim_fps-set_image_array_size :
    (size : ℕ) (u : Upgrade) → anim_fps (set_image_array_size size u) ≡ anim_fps u
unfolding set_image_array_size
anim_fps-set_image_array_size size u = ground arith

-- The default, or the radius that the mode custom_anim stores over it.
pub constructed_fps : (mode type : UpgradeType) → 1 ≤ anim_fps (set_type mode (constructed type))
unfolding set_type constructed
constructed_fps num type = omega arith
constructed_fps bar type = omega arith
constructed_fps circle type = omega arith
constructed_fps anim type = omega arith
constructed_fps custom_anim type = omega arith
constructed_fps invalid type = omega arith

pub constructed_rate : (type : UpgradeType) → 1 ≤ anim_fps (constructed type)
unfolding constructed
constructed_rate type = omega arith
