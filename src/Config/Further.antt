-- ===== src/Config/Further.antt =====
-- Reading further elements of ui/ui_config_parse.c beside a progress widget.
use text.Mathlib.Text.{starts_with}
use openvela_frameworks_syst.Prelude.{
  ◌≡◌, inl, inr, false, not, ◌&&◌, Option, none, some, String, List, [], ◌∷◌, length, ltb,
  Bool-cases, if◌then◌else◌,
}
use openvela_frameworks_syst.Widget.{Upgrade, UpgradeType, invalid, is_num, set_type}
use openvela_frameworks_syst.Code.{Code, succeeds, file_parse_error}
use openvela_frameworks_syst.Lvgl.{
  Lvgl, LvglLaws, BuildLaws, plain, image, upgrade_widget, arc, Kind, no_style,
}
use openvela_frameworks_syst.Config.Names.{
  Input, is_custom, is_invalid, progress_mode_map, string_2_id,
}
use openvela_frameworks_syst.Config.{
  json_ui_image_set, json_ui_obj_parse, set_type_of, configure, set_mode, json_progress_parse,
  set_label, json_label_parse, json_ui_page_cont_parse, parse_elements,
}
use openvela_frameworks_syst.Config.Elements.{below, Fresh, below-Fresh, json_ui_obj_parse-Drawn}
use openvela_frameworks_syst.Config.Chain.{
  Chain, create-Chain, create_other_page, create_other_widget, SameTree-Chain, put_upgrade-Chain,
  set_image-Chain,
}

module _ (input : Input) (lv : Lvgl) (laws : LvglLaws lv) (builds : BuildLaws lv) where
  open input use {Node, item}
  open lv use {Store, Obj, screen, same, create, style, upgrade, put_upgrade}

  module _ (name : String) (page base o : Obj) (u : Upgrade) where
    set_type_of-Chain :
        (x : Obj) (mode : UpgradeType) (s : Store)
        → same x o ≡ false
        → Chain lv name page base o u s
        → Chain lv name page base o u (set_type_of input lv x mode s)
    set_type_of-Chain x mode s other c =
        let put =
          put_upgrade-Chain lv laws builds name page base o u x (set_type mode (upgrade s x)) s
            other c in
        elim (Bool-cases (is_custom mode)) [
          | inr e ↦ rw e put
          | inl e ↦ rw e (create-Chain lv laws builds name page base o u arc x _ put)
        ]

    configure-Chain :
        (n : Node) (mode : UpgradeType) (x : Obj) (s : Store)
        → same x o ≡ false
        → Chain lv name page base o u s
        → Chain lv name page base o u (configure input lv n mode x s).1
    unfolding configure
    configure-Chain n mode x s other c =
        let typed = set_type_of-Chain x mode s other c in
        elim (Bool-cases
          (is_num mode && ltb (length (input.children (item (some n) "img_src_list"))) 10)) [
            | inl e ↦ rw e (put_upgrade-Chain lv laws builds name page base o u x _ _ other typed)
            | inr e ↦ rw e (put_upgrade-Chain lv laws builds name page base o u x _ _ other typed)
          ]

    set_mode-Chain :
        (n : Node) (key : Option String) (x : Obj) (s : Store)
        → same x o ≡ false
        → Chain lv name page base o u s
        → Chain lv name page base o u (set_mode input lv n key x s).1
    unfolding set_mode
    set_mode-Chain n none x s other c = c
    set_mode-Chain n (some key) x s other c =
        elim (Bool-cases (is_invalid (string_2_id (some key) progress_mode_map invalid))) [
          | inl e ↦ rw e c
          | inr e ↦ rw e (configure-Chain n _ x s other c)
        ]

    set_label-Chain :
        (path : Option String) (x : Obj) (s : Store)
        → same x page ≡ false
        → Chain lv name page base o u s
        → Chain lv name page base o u (set_label input lv path x s).1
    unfolding set_label json_ui_image_set
    set_label-Chain none x s away c = c
    set_label-Chain (some path) x s away c = elim (Bool-cases (input.is_readable path)) [
      | inl e ↦ rw e (set_image-Chain lv laws builds name page base o u x path s away c)
      | inr e ↦ rw e c
    ]

    -- The objects of an element are made beside the widget.
    below-Chain :
        (k : Kind) (p : Obj) (s : Store)
        → Chain lv name page base o u s
        → Chain lv name page base o u (below input lv laws builds k p s).1
          × (same (below input lv laws builds k p s).0 page ≡ false)
          × (same (below input lv laws builds k p s).0 o ≡ false)
    below-Chain k p s c =
        let b = (create plain p s).0 in
        let s₁ = (create plain p s).1 in
        let s₂ = style no_style b s₁ in
        let one = create-Chain lv laws builds name page base o u plain p s c in
        let two =
          SameTree-Chain lv laws builds name page base o u s₁ s₂ (laws.style-SameTree no_style b s₁)
            one in
        (
          create-Chain lv laws builds name page base o u k b s₂ two,
          create_other_page lv laws builds name page base o u k b s₂ two,
          create_other_widget lv laws builds name page base o u k b s₂ two,
        )

    element-Chain :
        (node : Option Node) (s : Store) (r : Obj × Store) (rest : Store → Code × Store)
        → Fresh input lv laws builds s r
        → Chain lv name page base o u r.1
        → ((t : Store) → Chain lv name page base o u t → Chain lv name page base o u (rest t).1)
        → let read = json_ui_obj_parse input lv node r.0 r.1 in
          Chain lv name page base o u
            (if not (succeeds read.0) then (file_parse_error, read.1) else rest read.1).1
    element-Chain node s r rest f c follows =
        let read = json_ui_obj_parse input lv node r.0 r.1 in
        let drawn =
          json_ui_obj_parse-Drawn input lv laws builds node r.0 f.base r.1 f.at f.element f.out in
        let so_far = SameTree-Chain lv laws builds name page base o u r.1 read.1 drawn.tree c in
        elim (Bool-cases (succeeds read.0)) [
          | inr e ↦ rw e so_far
          | inl e ↦ rw e (follows read.1 so_far)
        ]

    json_progress_parse-Chain :
        (n : Node) (p : Obj) (s : Store)
        → same p screen ≡ false
        → Chain lv name page base o u s
        → Chain lv name page base o u (json_progress_parse input lv n (some p) s).1
    unfolding json_progress_parse
    json_progress_parse-Chain n p s no_screen c =
        let r = below input lv laws builds upgrade_widget p s in
        let (made, away, other) = below-Chain upgrade_widget p s c in
        element-Chain (some n) s r
          (λ t. set_mode input lv n (input.text (item (some n) "mode")) r.0 t)
          (below-Fresh input lv laws builds upgrade_widget p s no_screen) made
          (λ t d. set_mode-Chain n _ r.0 t other d)

    json_label_parse-Chain :
        (n : Node) (p : Obj) (s : Store)
        → same p screen ≡ false
        → Chain lv name page base o u s
        → Chain lv name page base o u (json_label_parse input lv n p s).1
    unfolding json_label_parse
    json_label_parse-Chain n p s no_screen c =
        let r = below input lv laws builds image p s in
        let (made, away, other) = below-Chain image p s c in
        element-Chain (some n) s r
          (λ t. set_label input lv (input.text (item (some n) "img_src")) r.0 t)
          (below-Fresh input lv laws builds image p s no_screen) made
          (λ t d. set_label-Chain _ r.0 t away d)

    json_ui_page_cont_parse-Chain :
        (n : Node) (p : Obj) (s : Store)
        → same p screen ≡ false
        → Chain lv name page base o u s
        → Chain lv name page base o u (json_ui_page_cont_parse input lv n p s).1
    unfolding json_ui_page_cont_parse
    json_ui_page_cont_parse-Chain n p s other c = elim (Bool-cases (input.is_object (some n))) [
      | inr e ↦ rw e c
      | inl e ↦ elim (Bool-cases (starts_with (input.name n) "progress")) [
        | inl h ↦ rw e (rw h (json_progress_parse-Chain n p s other c))
        | inr h ↦ elim (Bool-cases (starts_with (input.name n) "label")) [
          | inl l ↦ rw e (rw h (rw l (json_label_parse-Chain n p s other c)))
          | inr l ↦ rw e (rw h (rw l c))
        ]
      ]
    ]

    -- The elements of any page leave the widget as it is.
    pub parse_elements-Chain :
        (ns : List Node) (p : Obj) (s : Store)
        → same p screen ≡ false
        → Chain lv name page base o u s
        → Chain lv name page base o u (parse_elements input lv ns p s).1
    unfolding parse_elements
    parse_elements-Chain [] p s other c = c
    parse_elements-Chain (n ∷ ns) p s other c =
        let r = json_ui_page_cont_parse input lv n p s in
        let one = json_ui_page_cont_parse-Chain n p s other c in
        elim (Bool-cases (succeeds r.0)) [
          | inr e ↦ rw e one
          | inl e ↦ rw e (parse_elements-Chain ns p r.1 other one)
        ]
