-- ===== src/Config/Rate.antt =====
-- The frames per second of the progress widget that ui/ui_config_parse.c makes for images.
use openvela_frameworks_syst.Prelude.{
  length, ◌≤◌, ◌≡◌, refl, ◌∙◌, ap, false, Option, none, some, String, map, arith,
}
use openvela_frameworks_syst.Prelude.Int.{ℤ}
use openvela_frameworks_syst.Widget.{
  Upgrade, UpgradeType, num, is_num, anim_fps, to_uint16, set_image_array_size, set_animation_fps,
  set_animation_radius, set_percent_sign_image,
}
use openvela_frameworks_syst.Widget.Rate.{
  anim_fps-fill, anim_fps-set_image_array_size, constructed_fps,
}
use openvela_frameworks_syst.Lvgl.{Lvgl, LvglLaws, BuildLaws}
use openvela_frameworks_syst.Config.Names.{Input}
use openvela_frameworks_syst.Config.{set_fps, set_radius, set_percent}
use openvela_frameworks_syst.Config.Widget.{images_of, datum, unfilled, loaded, set_images-fill}

module _ (input : Input) where
  open input use {Node, number, item}

  -- A rate that is given is not 0 in 16 bits; the radius is kept in the same field.
  pub record HasRate (n : Node) : Type 0 where
    pub fps : (v : ℤ) → number (item (some n) "animation_fps") ≡ some v → 1 ≤ to_uint16 v
    pub radius : (v : ℤ) → number (item (some n) "animation_radius") ≡ some v → 1 ≤ to_uint16 v

  module _ (lv : Lvgl) (laws : LvglLaws lv) (builds : BuildLaws lv) where
    set_fps_rate :
        (r : Option ℤ) (u : Upgrade)
        → ((v : ℤ) → r ≡ some v → 1 ≤ to_uint16 v)
        → 1 ≤ anim_fps u
        → 1 ≤ anim_fps (set_fps input lv r u)
    unfolding set_animation_fps
    set_fps_rate none u given before = before
    set_fps_rate (some v) u given before = given v refl

    set_radius_rate :
        (r : Option ℤ) (u : Upgrade)
        → ((v : ℤ) → r ≡ some v → 1 ≤ to_uint16 v)
        → 1 ≤ anim_fps u
        → 1 ≤ anim_fps (set_radius input lv r u)
    unfolding set_animation_radius
    set_radius_rate none u given before = before
    set_radius_rate (some v) u given before = given v refl

    set_percent_rate :
        (p : Option String) (u : Upgrade) → 1 ≤ anim_fps u → 1 ≤ anim_fps (set_percent input lv p u)
    unfolding set_percent_sign_image
    set_percent_rate none u before = before
    set_percent_rate (some p) u before = before

    pub loaded_rate :
        (n : Node) (mode : UpgradeType)
        → is_num mode ≡ false
        → HasRate n
        → 1 ≤ anim_fps (loaded input lv laws builds n mode)
    loaded_rate n mode other rate =
        let start = unfilled input lv laws builds n mode in
        let before : 1 ≤ anim_fps start =
          set_percent_rate (input.text (item (some n) "percentage_src")) _ (
            set_radius_rate (number (item (some n) "animation_radius")) _ rate.radius (
              set_fps_rate (number (item (some n) "animation_fps")) _ rate.fps
                (constructed_fps mode num))) in
        let array = set_image_array_size (length (images_of input n)) start in
        let same =
          ap anim_fps (set_images-fill input lv laws builds mode 0 (images_of input n) array other)
          ∙ anim_fps-fill (map (datum input) (images_of input n)) array
          ∙ anim_fps-set_image_array_size (length (images_of input n)) start in
        omega (arith, before, same)
