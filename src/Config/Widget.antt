-- ===== src/Config/Widget.antt =====
-- The progress widget that json_progress_parse of ui/ui_config_parse.c makes for images.
use mathlib.Core.Path.{subst}
use openvela_frameworks_syst.Prelude.{
  ℕ, suc, ◌+◌, ◌≤◌, ◌<◌, ◌≡◌, inl, inr, refl, sym, ◌∙◌, ap, true, false, Option, none, some, String,
  List, [], ◌∷◌, length, map, arith, get_elem?, Bool-cases, then_at,
}
use openvela_frameworks_syst.Prelude.Int.{ℤ}
use openvela_frameworks_syst.Widget.{
  ImageData, Upgrade, UpgradeType, num, invalid, is_num, set_type, constructed,
  set_image_array_size, set_image_data, set_animation_fps, set_animation_radius,
  set_percent_sign_image,
}
use openvela_frameworks_syst.Widget.Slots.{
  Bare, set_type-Bare, fill, fill-Filled_from, fill-InSync_from,
}
use openvela_frameworks_syst.Widget.Closest.{Filled}
use openvela_frameworks_syst.Widget.Digits.{InSync}
use openvela_frameworks_syst.Lvgl.{Lvgl, LvglLaws, BuildLaws, arc}
use openvela_frameworks_syst.Config.Names.{
  Input, is_custom, is_invalid, progress_mode_map, string_2_id,
}
use openvela_frameworks_syst.Config.{
  set_type_of, set_fps, set_radius, set_percent, set_images, configure, set_mode,
}
use openvela_frameworks_syst.Config.Check.{has_area}
use openvela_frameworks_syst.Config.Chain.{Chain, create-Chain}

module _ (input : Input) where
  open input use {Node, number, item}

  abbrev pub images_of : Node → List Node
  images_of n = input.children (item (some n) "img_src_list")

  -- The key and the image of an entry of the list.
  abbrev pub datum : Node → ImageData
  datum n = record {
    key = input.decimal (input.name n);
    image = input.image_file (input.text (some n));
  }

  -- A mode that shows images, and a list of 2 to 255 of them.
  pub record IsImageBar (n : Node) (mode : UpgradeType) (key : String) : Type 0 where
    pub named : input.text (item (some n) "mode") ≡ some key
    pub known : string_2_id (some key) progress_mode_map invalid ≡ mode
    pub no_digits : is_num mode ≡ false
    pub valid : is_invalid mode ≡ false
    pub area : has_area input n ≡ true
    pub two : 2 ≤ length (images_of n)
    pub small : length (images_of n) < 256

  length-data : (ns : List Node) → length (map datum ns) ≡ length ns
  length-data [] = refl
  length-data (n ∷ ns) = ap suc (length-data ns)

  module _ (lv : Lvgl) (laws : LvglLaws lv) (builds : BuildLaws lv) where
    open lv use {Store, Obj, screen, children, same, upgrade, create, style, put_upgrade}

    pub set_images-fill :
        (mode : UpgradeType) (i : ℕ) (ns : List Node) (u : Upgrade)
        → is_num mode ≡ false
        → set_images input lv mode i ns u ≡ fill (map datum ns) u
    unfolding set_images fill
    set_images-fill mode i [] u other = refl
    set_images-fill mode i (n ∷ ns) u other = rw other (
        set_images-fill mode (i + 1) ns
          (set_image_data (input.decimal (input.name n)) (input.image_file (input.text (some n))) u)
          other)

    set_fps-Bare :
        (mode : UpgradeType) (r : Option ℤ) (u : Upgrade)
        → Bare mode u
        → Bare mode (set_fps input lv r u)
    unfolding set_animation_fps
    set_fps-Bare mode none u bare = bare
    set_fps-Bare mode (some r) u bare = record {
      typed = bare.typed;
      empty = bare.empty;
      unset = bare.unset;
    }

    set_radius-Bare :
        (mode : UpgradeType) (r : Option ℤ) (u : Upgrade)
        → Bare mode u
        → Bare mode (set_radius input lv r u)
    unfolding set_animation_radius
    set_radius-Bare mode none u bare = bare
    set_radius-Bare mode (some r) u bare = record {
      typed = bare.typed;
      empty = bare.empty;
      unset = bare.unset;
    }

    set_percent-Bare :
        (mode : UpgradeType) (p : Option String) (u : Upgrade)
        → Bare mode u
        → Bare mode (set_percent input lv p u)
    unfolding set_percent_sign_image
    set_percent-Bare mode none u bare = bare
    set_percent-Bare mode (some p) u bare = record {
      typed = bare.typed;
      empty = bare.empty;
      unset = bare.unset;
    }

    -- The widget before its images, and behind them.
    abbrev pub unfilled : Node → UpgradeType → Upgrade
    unfilled n mode = set_percent input lv (input.text (item (some n) "percentage_src")) (
        set_radius input lv (number (item (some n) "animation_radius")) (
          set_fps input lv (number (item (some n) "animation_fps"))
            (set_type mode (constructed num))))

    abbrev pub loaded : Node → UpgradeType → Upgrade
    loaded n mode =
        set_images input lv mode 0 (images_of n)
          (set_image_array_size (length (images_of n)) (unfilled n mode))

    unfilled-Bare : (n : Node) (mode : UpgradeType) → Bare mode (unfilled n mode)
    unfilled-Bare n mode = set_percent-Bare mode (input.text (item (some n) "percentage_src")) _ (
        set_radius-Bare mode (number (item (some n) "animation_radius")) _
          (set_fps-Bare mode (number (item (some n) "animation_fps")) _ (set_type-Bare mode)))

    pub loaded-Filled :
        (n : Node) (mode : UpgradeType) (key : String)
        → IsImageBar n mode key
        → Filled (map datum (images_of n)) (loaded n mode) × InSync (loaded n mode)
    loaded-Filled n mode key is =
        let ds = map datum (images_of n) in
        let bare = unfilled-Bare n mode in
        let count = length-data (images_of n) in
        let filled =
          fill-Filled_from mode ds (unfilled n mode) bare.typed bare.empty is.no_digits
            (omega (arith, count, is.two)) (omega (arith, count, is.small)) in
        let sync = fill-InSync_from ds (unfilled n mode) bare.unset in
        let same_state : fill ds (set_image_array_size (length ds) (unfilled n mode))
            ≡ loaded n mode =
          ap (λ c. fill ds (set_image_array_size c (unfilled n mode))) count
          ∙ sym (set_images-fill mode 0 (images_of n) _ is.no_digits) in
        (subst (λ u. Filled ds u) same_state filled, subst (λ u. InSync u) same_state sync)

    module _ (name : String) (page base o : Obj) where
      put_own-Chain :
          (u v : Upgrade) (s : Store)
          → Chain lv name page base o u s
          → Chain lv name page base o v (put_upgrade o v s)
      put_own-Chain u v s c =
          let shape = laws.put_upgrade-SameShape o v s in
          let (i, e) = c.here in
          record {
            here = (i, ap (λ l. get_elem? l i) (shape.children screen) ∙ e);
            named = shape.text page ∙ c.named;
            bases = c.bases;
            first = shape.children page ∙ c.first;
            others = c.others;
            inner = shape.children base ∙ c.inner;
            is_widget = shape.is_upgrade o ∙ c.is_widget;
            state = laws.upgrade-put o o v s ∙ then_at ((laws.same_iff o o).1 refl) _ _;
          }

      set_type_own :
          (mode : UpgradeType) (s : Store)
          → Chain lv name page base o (constructed num) s
          → Chain lv name page base o
              (set_type mode (constructed num))
              (set_type_of input lv o mode s)
      set_type_own mode s c =
          let put : Chain lv name page base o (set_type mode (constructed num))
              (put_upgrade o (set_type mode (upgrade s o)) s) =
            rw c.state (put_own-Chain (constructed num) (set_type mode (constructed num)) s c) in
          elim (Bool-cases (is_custom mode)) [
            | inr e ↦ rw e put
            | inl e ↦ rw e (create-Chain lv laws builds name page base o _ arc o _ put)
          ]

      configure_own :
          (n : Node) (mode : UpgradeType) (s : Store)
          → is_num mode ≡ false
          → Chain lv name page base o (constructed num) s
          → Chain lv name page base o (loaded n mode) (configure input lv n mode o s).1
      unfolding configure
      configure_own n mode s other c =
          let typed = set_type_own mode s c in
          rw other (rw typed.state (put_own-Chain _ (loaded n mode) _ typed))

      pub set_mode_own :
          (n : Node) (mode : UpgradeType) (key : String) (s : Store)
          → IsImageBar n mode key
          → Chain lv name page base o (constructed num) s
          → Chain lv name page base o
              (loaded n mode)
              (set_mode input lv n (input.text (item (some n) "mode")) o s).1
      unfolding set_mode
      set_mode_own n mode key s is c =
          rw is.named (rw is.known (rw is.valid (configure_own n mode s is.no_digits c)))
