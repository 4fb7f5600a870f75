-- ===== src/Config/Elements.antt =====
-- The elements of a page in ui/ui_config_parse.c: what reading one changes.
use text.Mathlib.Text.{starts_with}
use openvela_frameworks_syst.Prelude.{
  ◌≡◌, inl, inr, ◌∙◌, false, not, ◌&&◌, Option, none, some, String, List, [], ◌∷◌, length, ltb,
  Bool-cases, if◌then◌else◌,
}
use openvela_frameworks_syst.Prelude.Int.{ℤ}
use openvela_frameworks_syst.Widget.{UpgradeType, invalid, is_num, set_type}
use openvela_frameworks_syst.Code.{Code, succeeds, file_parse_error}
use openvela_frameworks_syst.Lvgl.{
  Lvgl, LvglLaws, BuildLaws, plain, image, upgrade_widget, arc, Kind, no_style,
}
use openvela_frameworks_syst.Config.Names.{
  Input, is_custom, is_invalid, progress_mode_map, string_2_id,
}
use openvela_frameworks_syst.Config.{
  place, set_area, json_area_parse, set_offset, json_offset_parse, two_texts, set_align,
  json_align_parse, json_ui_image_set, json_ui_obj_parse, set_type_of, configure, set_mode,
  json_progress_parse, set_label, json_label_parse, json_ui_page_cont_parse, parse_elements,
}
use openvela_frameworks_syst.Config.Kept.{
  Kept, Kept-refl, Kept-trans, Drawn, Drawn-refl, Drawn-trans, Drawn-Kept, Outside, Outside-Kept,
  style-Drawn, create-Kept, create-Outside, put_upgrade-Kept, set_image-Kept,
}

module _ (input : Input) (lv : Lvgl) (laws : LvglLaws lv) (builds : BuildLaws lv) where
  open input use {Node, item}
  open lv use {Store, Obj, screen, parent, same, create, style, upgrade, put_upgrade}

  place-Drawn :
      (o p : Obj) (xy wh : ℤ × ℤ) (s : Store)
      → parent s o ≡ some p
      → Outside lv s p
      → Drawn lv s (place input lv (parent s o) xy wh s)
  place-Drawn o p xy wh s at out = rw at (
      let first = style-Drawn lv laws builds _ p s out in
      Drawn-trans lv laws builds s _ _ first (
        style-Drawn lv laws builds _ p _
          (Outside-Kept lv laws builds p s _ (Drawn-Kept lv laws builds s _ first) out)))

  set_area-Drawn :
      (xy wh : Option (ℤ × ℤ)) (o p : Obj) (s : Store)
      → parent s o ≡ some p
      → Outside lv s p
      → Drawn lv s (set_area input lv xy wh o s).1
  set_area-Drawn (some xy) (some wh) o p s at out = place-Drawn o p xy wh s at out
  set_area-Drawn (some xy) none o p s at out = Drawn-refl lv laws builds s
  set_area-Drawn none wh o p s at out = Drawn-refl lv laws builds s

  set_offset-Drawn :
      (xy : Option (ℤ × ℤ)) (o : Obj) (s : Store)
      → Outside lv s o
      → Drawn lv s (set_offset input lv xy o s).1
  set_offset-Drawn none o s out = Drawn-refl lv laws builds s
  set_offset-Drawn (some xy) o s out = style-Drawn lv laws builds _ o s out

  set_align-Drawn :
      (names : Option (String × String)) (o : Obj) (s : Store)
      → Outside lv s o
      → Drawn lv s (set_align input lv names o s).1
  set_align-Drawn none o s out = Drawn-refl lv laws builds s
  set_align-Drawn (some names) o s out = style-Drawn lv laws builds _ o s out

  json_align_parse-Drawn :
      (node : Option Node) (o : Obj) (s : Store)
      → Outside lv s o
      → Drawn lv s (json_align_parse input lv node o s).1
  unfolding json_align_parse
  json_align_parse-Drawn node o s out = elim (Bool-cases (input.is_array node)) [
    | inl e ↦ rw e (set_align-Drawn (two_texts input lv (input.children node)) o s out)
    | inr e ↦ rw e (Drawn-refl lv laws builds s)
  ]

  -- An element below a parent that is no page.
  pub json_ui_obj_parse-Drawn :
      (node : Option Node) (o p : Obj) (s : Store)
      → parent s o ≡ some p
      → Outside lv s o
      → Outside lv s p
      → Drawn lv s (json_ui_obj_parse input lv node o s).1
  unfolding json_ui_obj_parse json_area_parse json_offset_parse
  json_ui_obj_parse-Drawn node o p s at out out_p =
      let s₁ = (json_align_parse input lv (item node "align") o s).1 in
      let area = json_area_parse input lv (item node "area") o s₁ in
      let one = json_align_parse-Drawn (item node "align") o s out in
      let two =
        set_area-Drawn _ _ o p s₁ (one.tree.shape.parent o ∙ at)
          (Outside-Kept lv laws builds p s s₁ (Drawn-Kept lv laws builds s s₁ one) out_p) in
      let both_done = Drawn-trans lv laws builds s s₁ area.1 one two in
      elim (Bool-cases (succeeds area.0)) [
        | inr e ↦ rw e both_done
        | inl e ↦ rw e (
            Drawn-trans lv laws builds s area.1 _ both_done (
              set_offset-Drawn _ o area.1 (
                Outside-Kept lv laws builds o s area.1
                  (Drawn-Kept lv laws builds s area.1 both_done) out)))
      ]

  set_type_of-Kept :
      (o : Obj) (mode : UpgradeType) (s : Store)
      → Outside lv s o
      → Kept lv s (set_type_of input lv o mode s)
  set_type_of-Kept o mode s out =
      let put = put_upgrade-Kept lv laws builds o (set_type mode (upgrade s o)) s in
      elim (Bool-cases (is_custom mode)) [
        | inr e ↦ rw e put
        | inl e ↦
            rw e (
              Kept-trans lv laws builds s _ _ put
                (create-Kept lv laws builds arc o _ out.no_screen))
      ]

  configure-Kept :
      (n : Node) (mode : UpgradeType) (o : Obj) (s : Store)
      → Outside lv s o
      → Kept lv s (configure input lv n mode o s).1
  unfolding configure
  configure-Kept n mode o s out =
      let typed = set_type_of-Kept o mode s out in
      elim (Bool-cases
        (is_num mode && ltb (length (input.children (item (some n) "img_src_list"))) 10)) [
          | inl e ↦
              rw e (Kept-trans lv laws builds s _ _ typed (put_upgrade-Kept lv laws builds o _ _))
          | inr e ↦
              rw e (Kept-trans lv laws builds s _ _ typed (put_upgrade-Kept lv laws builds o _ _))
        ]

  set_mode-Kept :
      (n : Node) (key : Option String) (o : Obj) (s : Store)
      → Outside lv s o
      → Kept lv s (set_mode input lv n key o s).1
  unfolding set_mode
  set_mode-Kept n none o s out = Kept-refl lv laws builds s
  set_mode-Kept n (some key) o s out =
      elim (Bool-cases (is_invalid (string_2_id (some key) progress_mode_map invalid))) [
        | inl e ↦ rw e (Kept-refl lv laws builds s)
        | inr e ↦ rw e (configure-Kept n _ o s out)
      ]

  set_label-Kept :
      (path : Option String) (o : Obj) (s : Store)
      → Outside lv s o
      → Kept lv s (set_label input lv path o s).1
  unfolding set_label json_ui_image_set
  set_label-Kept none o s out = Kept-refl lv laws builds s
  set_label-Kept (some path) o s out = elim (Bool-cases (input.is_readable path)) [
    | inl e ↦ rw e (set_image-Kept lv laws builds o path s out)
    | inr e ↦ rw e (Kept-refl lv laws builds s)
  ]

  -- An object without a style, and the element below it.
  abbrev pub below : Kind → Obj → Store → Obj × Store
  below k page s = let (base, s) = create plain page s in create k base (style no_style base s)

  pub record Fresh (s : Store) (r : Obj × Store) : Type 0 where
    pub base : Obj
    pub kept : Kept lv s r.1
    pub at : parent r.1 r.0 ≡ some base
    pub element : Outside lv r.1 r.0
    pub out : Outside lv r.1 base

  pub below-Fresh :
      (k : Kind) (page : Obj) (s : Store) → same page screen ≡ false → Fresh s (below k page s)
  below-Fresh k page s other =
      let base = (create plain page s).0 in
      let s₁ = (create plain page s).1 in
      let s₂ = style no_style base s₁ in
      let one = create-Kept lv laws builds plain page s other in
      let out = create-Outside lv laws builds plain page s other in
      let two = Drawn-Kept lv laws builds s₁ s₂ (style-Drawn lv laws builds no_style base s₁ out) in
      let three = create-Kept lv laws builds k base s₂ out.no_screen in
      let both_kept = Kept-trans lv laws builds s₁ s₂ _ two three in
      record {
        base = base;
        kept = Kept-trans lv laws builds s s₁ _ one both_kept;
        at = builds.parent-create k base s₂;
        element = create-Outside lv laws builds k base s₂ out.no_screen;
        out = Outside-Kept lv laws builds base s₁ _ both_kept out;
      }

  -- The element is read behind its creation, whatever follows.
  element-Kept :
      (node : Option Node) (s : Store) (r : Obj × Store) (rest : Store → Code × Store)
      → Fresh s r
      → ((t : Store) → Outside lv t r.0 → Kept lv t (rest t).1)
      → let read = json_ui_obj_parse input lv node r.0 r.1 in
        Kept lv s (if not (succeeds read.0) then (file_parse_error, read.1) else rest read.1).1
  element-Kept node s r rest f follows =
      let read = json_ui_obj_parse input lv node r.0 r.1 in
      let drawn =
        Drawn-Kept lv laws builds r.1 read.1
          (json_ui_obj_parse-Drawn node r.0 f.base r.1 f.at f.element f.out) in
      let so_far = Kept-trans lv laws builds s r.1 read.1 f.kept drawn in
      elim (Bool-cases (succeeds read.0)) [
        | inr e ↦ rw e so_far
        | inl e ↦ rw e (
            Kept-trans lv laws builds s read.1 _ so_far
              (follows read.1 (Outside-Kept lv laws builds r.0 r.1 read.1 drawn f.element)))
      ]

  json_progress_parse-Kept :
      (n : Node) (page : Obj) (s : Store)
      → same page screen ≡ false
      → Kept lv s (json_progress_parse input lv n (some page) s).1
  unfolding json_progress_parse
  json_progress_parse-Kept n page s other =
      let r = below upgrade_widget page s in
      element-Kept (some n) s r (λ t. set_mode input lv n (input.text (item (some n) "mode")) r.0 t)
        (below-Fresh upgrade_widget page s other) (λ t out. set_mode-Kept n _ r.0 t out)

  json_label_parse-Kept :
      (n : Node) (page : Obj) (s : Store)
      → same page screen ≡ false
      → Kept lv s (json_label_parse input lv n page s).1
  unfolding json_label_parse
  json_label_parse-Kept n page s other =
      let r = below image page s in
      element-Kept (some n) s r
        (λ t. set_label input lv (input.text (item (some n) "img_src")) r.0 t)
        (below-Fresh image page s other) (λ t out. set_label-Kept _ r.0 t out)

  json_ui_page_cont_parse-Kept :
      (n : Node) (page : Obj) (s : Store)
      → same page screen ≡ false
      → Kept lv s (json_ui_page_cont_parse input lv n page s).1
  unfolding json_ui_page_cont_parse
  json_ui_page_cont_parse-Kept n page s other = elim (Bool-cases (input.is_object (some n))) [
    | inr e ↦ rw e (Kept-refl lv laws builds s)
    | inl e ↦ elim (Bool-cases (starts_with (input.name n) "progress")) [
      | inl p ↦ rw e (rw p (json_progress_parse-Kept n page s other))
      | inr p ↦ elim (Bool-cases (starts_with (input.name n) "label")) [
        | inl l ↦ rw e (rw p (rw l (json_label_parse-Kept n page s other)))
        | inr l ↦ rw e (rw p (rw l (Kept-refl lv laws builds s)))
      ]
    ]
  ]

  -- The elements of a page leave the pages as they are.
  pub parse_elements-Kept :
      (ns : List Node) (page : Obj) (s : Store)
      → same page screen ≡ false
      → Kept lv s (parse_elements input lv ns page s).1
  unfolding parse_elements
  parse_elements-Kept [] page s other = Kept-refl lv laws builds s
  parse_elements-Kept (n ∷ ns) page s other =
      let r = json_ui_page_cont_parse input lv n page s in
      let one = json_ui_page_cont_parse-Kept n page s other in
      elim (Bool-cases (succeeds r.0)) [
        | inr e ↦ rw e one
        | inl e ↦
            rw e (Kept-trans lv laws builds s r.1 _ one (parse_elements-Kept ns page r.1 other))
      ]
