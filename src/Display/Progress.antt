-- ===== src/Display/Progress.antt =====
-- ui_set_progress of ui/ui_display.c on a page with a progress widget whose images are set.
use openvela_frameworks_syst.Prelude.{
  ℕ, suc, ◌<◌, ◌≤◌, ◌≡◌, arith, ◌≢◌, inl, inr, refl, ap, sym, ◌∙◌, true, false, Option, none, some,
  String, List, [], ◌∷◌, get_elem?, Bool-cases,
}
use openvela_frameworks_syst.Widget.{Upgrade, ImageData, anim_fps, get_value}
use openvela_frameworks_syst.Widget.Digits.{InSync, get_value-store_progress}
use openvela_frameworks_syst.Widget.Closest.{Filled}
use openvela_frameworks_syst.Widget.Size.{Area}
use openvela_frameworks_syst.Widget.Size.Safe.{anim_fps-store_progress, set_progress_safe}
use openvela_frameworks_syst.Lvgl.{Lvgl, LvglLaws, IsPage, SameTree, SameShape}
use openvela_frameworks_syst.Display.Tree.{
  SameShape-trans, IsPage-SameShape, SameTree-refl, ui_find_page-SameShape, first_upgrade-SameShape,
}
use openvela_frameworks_syst.Code.{success}
use openvela_frameworks_syst.Display.{
  resize, first_upgrade, ui_find_page, ui_set_progress, refresh_upgrade, ui_refresh_page_progress,
  refresh_base, refresh_found,
}

module _ (lv : Lvgl) where
  open lv use {Store, Obj, children, upgrade}

  -- The page of that name has that widget as its progress widget.
  pub record HasWidget (name : String) (o : Obj) (s : Store) : Type 0 where
    pub page : Obj
    pub base : Obj
    pub others : List Obj
    pub found : ui_find_page lv s name ≡ some page
    pub first : children s page ≡ base ∷ others
    pub widget : first_upgrade lv s (children s base) ≡ some o

  -- It shows what it was set to, its images are set, and it has at least one frame per second.
  pub record Ready (name : String) (ds : List ImageData) (o : Obj) (s : Store) : Type 0 where
    pub has : HasWidget name o s
    pub filled : Filled ds (upgrade s o)
    pub rate : 1 ≤ anim_fps (upgrade s o)
    pub sync : InSync (upgrade s o)

module _ (lv : Lvgl) (laws : LvglLaws lv) where
  open lv use {Store, Obj, same, screen, children, text, is_visible, upgrade, put_upgrade}

  HasWidget-SameShape :
      (name : String) (o : Obj) (s s' : Store)
      → SameShape lv s s'
      → HasWidget lv name o s
      → HasWidget lv name o s'
  HasWidget-SameShape name o s s' shape h = record {
    page = h.page;
    base = h.base;
    others = h.others;
    found = ui_find_page-SameShape lv s s' name shape ∙ h.found;
    first = shape.children h.page ∙ h.first;
    widget =
        first_upgrade-SameShape lv s s' (children s' h.base) shape
        ∙ ap (first_upgrade lv s) (shape.children h.base)
        ∙ h.widget;
  }

  pub Ready-SameTree :
      (name : String) (ds : List ImageData) (o : Obj) (s s' : Store)
      → SameTree lv s s'
      → Ready lv name ds o s
      → Ready lv name ds o s'
  Ready-SameTree name ds o s s' tree ready = record {
    has = HasWidget-SameShape name o s s' tree.shape ready.has;
    filled = rw (tree.upgrade o) ready.filled;
    rate = rw (tree.upgrade o) ready.rate;
    sync = rw (tree.upgrade o) ready.sync;
  }

  resize-SameTree : (o : Obj) (area : Option Area) (s : Store) → SameTree lv s (resize lv o area s)
  resize-SameTree o none s = SameTree-refl lv s
  resize-SameTree o (some area) s = laws.style-SameTree _ o s

  not_same : (a b : Obj) → a ≢ b → same a b ≡ false
  not_same a b other = elim (Bool-cases (same a b)) [
    | inl e ↦ absurd (other ((laws.same_iff a b).0 e))
    | inr e ↦ e
  ]

  first_upgrade-mem :
      (s : Store) (os : List Obj) (o : Obj)
      → first_upgrade lv s os ≡ some o
      → (i : ℕ) × (get_elem? os i ≡ some o)
  unfolding first_upgrade
  first_upgrade-mem s [] o e = absurd (cc)
  first_upgrade-mem s (x ∷ os) o e = elim (Bool-cases (lv.is_upgrade s x)) [
    | inl c ↦ (0, rw c at e)
    | inr c ↦ let (i, at) = first_upgrade-mem s os o (rw c at e) in (suc i, at)
  ]

  -- The widget is below a page, so it is none, and not the screen.
  widget_below :
      (name : String) (o q : Obj) (s : Store)
      → HasWidget lv name o s
      → IsPage lv s q
      → (same o q ≡ false) × (same o screen ≡ false)
  widget_below name o q s h (j, here) =
      let (i, at) = first_upgrade-mem s (children s h.base) o h.widget in
      let base_first : get_elem? (children s h.page) 0 ≡ some h.base = rw h.first in
      (
        not_same o q (λ it.
            let there : get_elem? (children s screen) j ≡ some o = here ∙ ap some (sym it) in
            let top : h.base ≡ screen = laws.one_parent s o h.base screen i j at there in
            laws.screen_top s h.page 0 (base_first ∙ ap some top)),
        not_same o screen (λ it. laws.screen_top s h.base i (at ∙ ap some it)),
      )

  -- The put and the resizing of the widget, together.
  refreshed_upgrade :
      (o : Obj) (u : Upgrade) (area : Option Area) (s : Store)
      → upgrade (resize lv o area (put_upgrade o u s)) o ≡ u
  refreshed_upgrade o u area s =
      let self : same o o ≡ true = (laws.same_iff o o).1 refl in
      (resize-SameTree o area (put_upgrade o u s)).upgrade o ∙ laws.upgrade-put o o u s ∙ (rw self)

  refreshed-SameShape :
      (o : Obj) (u : Upgrade) (area : Option Area) (s : Store)
      → SameShape lv s (resize lv o area (put_upgrade o u s))
  refreshed-SameShape o u area s =
      SameShape-trans lv s (put_upgrade o u s) _ (laws.put_upgrade-SameShape o u s)
        (resize-SameTree o area (put_upgrade o u s)).shape

  resize_visible :
      (o q : Obj) (area : Option Area) (s : Store)
      → IsPage lv s q
      → same o q ≡ false
      → same o screen ≡ false
      → is_visible (resize lv o area s) q ≡ is_visible s q
  resize_visible o q none s here page top = refl
  resize_visible o q (some area) s here page top = laws.is_visible-style _ o q s here page top

  refreshed_visible :
      (name : String) (o q : Obj) (u : Upgrade) (area : Option Area) (s : Store)
      → HasWidget lv name o s
      → IsPage lv s q
      → is_visible (resize lv o area (put_upgrade o u s)) q ≡ is_visible s q
  refreshed_visible name o q u area s h here =
      let (page, top) = widget_below name o q s h here in
      let put = put_upgrade o u s in
      resize_visible o q area put
        (IsPage-SameShape lv s put q (laws.put_upgrade-SameShape o u s) here) page top
      ∙ laws.is_visible-put o q u s

  -- What a call that stores the progress leaves of the display.
  pub record Refreshed (name : String) (ds : List ImageData) (o : Obj) (value : ℕ) (s s' : Store)
      : Type 0 where
    pub ready : Ready lv name ds o s'
    pub gives : get_value (upgrade s' o) ≡ value
    pub shape : SameShape lv s s'
    pub visible : (q : Obj) → IsPage lv s q → is_visible s' q ≡ is_visible s q

  -- For a page with a progress widget that holds 2 to 255 images, that has at least one frame per
  -- second and whose two copies of the progress agree, and a progress below 128: ui_set_progress
  -- returns UI_SUCCESS without a crash, that of the widget's own redraw included; the widget then
  -- gives the progress back and is as ready as before, and the tree of the display, its names and
  -- which pages are visible stay as they are.
  pub ui_set_progress_lem :
      (name : String) (ds : List ImageData) (o : Obj) (value : ℕ) (s : Store)
      → value < 128
      → Ready lv name ds o s
      → (s' : Store) × (ui_set_progress lv (some name) value s ≡ some (success, s'))
        × Refreshed name ds o value s s'
  unfolding ui_set_progress ui_refresh_page_progress refresh_base refresh_found refresh_upgrade
  ui_set_progress_lem name ds o value s small ready =
      let h = ready.has in
      let ((u, area), runs, stored, filled) =
        set_progress_safe value (upgrade s o) ds ready.filled ready.rate in
      let fps : 1 ≤ anim_fps u =
        omega
          (arith, ready.rate, ap anim_fps stored, anim_fps-store_progress value (upgrade s o)) in
      let (shows, sync) = get_value-store_progress value (upgrade s o) small ready.sync in
      (
        resize lv o area (put_upgrade o u s),
        rw h.found (rw h.first (rw h.widget (rw runs))),
        record {
          ready = record {
            has = HasWidget-SameShape name o s _ (refreshed-SameShape o u area s) h;
            filled = rw (refreshed_upgrade o u area s) filled;
            rate = rw (refreshed_upgrade o u area s) fps;
            sync = rw (refreshed_upgrade o u area s) (rw stored sync);
          };
          gives = rw (refreshed_upgrade o u area s) (rw stored shows);
          shape = refreshed-SameShape o u area s;
          visible = λ q here. refreshed_visible name o q u area s h here;
        },
      )
