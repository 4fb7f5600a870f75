-- ===== src/Display.antt =====
-- ui/ui_display.c: the pages of the active screen.
pub mod Tree
pub mod Show
pub mod Progress
pub mod Current
pub mod Tests
use text.Mathlib.Text.{◌==◌}
use openvela_frameworks_syst.Prelude.{
  ℕ, ◌+◌, ◌-◌, ◌*◌, ◌^◌, ◌%◌, ◌≡◌, Bool, true, false, not, Option, none, some, String, List, [],
  ◌∷◌, if◌then◌else◌,
}
use openvela_frameworks_syst.Prelude.{◌==◌ as ◌==ℕ◌}
use openvela_frameworks_syst.Widget.{Upgrade}
use openvela_frameworks_syst.Widget.Size.{Area, set_progress}
use openvela_frameworks_syst.Code.{
  Code, success, page_name_null, page_not_found, lv_obj_null, lv_obj_child_null,
}
use openvela_frameworks_syst.Lvgl.{Lvgl, size}
use openvela_frameworks_syst.Prelude.Int.{pos}

-- `strcmp(user_data, page_name) == 0`, false for a null `user_data`.
abbrev pub named : Option String → String → Bool
named none name = false
named (some t) name = t == name

-- `lv_page != NULL`
abbrev pub is_found : {A : Type 0} → Option A → Bool
is_found none = false
is_found (some x) = true

-- ui_init, whose calls start LVGL.
abbrev pub ui_init : Code
ui_init = success

-- ui_timer_handler, for the milliseconds that lv_timer_handler answers: its result, and the
-- microseconds that it sleeps, a uint32_t.
abbrev pub ui_timer_handler : ℕ → Code × ℕ
ui_timer_handler idle = (success, (if idle ==ℕ 0 then 1 else idle) * 1000 % 2 ^ 32)

module _ (lv : Lvgl) where
  open lv use {
    Store, Obj, same, screen, children, text, is_upgrade, is_visible, upgrade, set_hidden, style,
    put_upgrade,
  }

  -- The loop of ui_find_page over the pages left.
  unfoldable pub find_in : Store → String → List Obj → Option Obj
  find_in s name [] = none
  find_in s name (o ∷ os) =
      let rest = find_in s name os in if named (text s o) name then some o else rest

  unfoldable pub ui_find_page : Store → String → Option Obj
  ui_find_page s name = find_in s name (children s screen)

  -- The loop of ui_get_upgrade_obj_by_class over the children left.
  unfoldable pub first_upgrade : Store → List Obj → Option Obj
  first_upgrade s [] = none
  first_upgrade s (o ∷ os) =
      let rest = first_upgrade s os in if is_upgrade s o then some o else rest

  -- The loop of ui_page_show that hides the other pages, over the pages left.
  unfoldable pub hide_others : Obj → List Obj → Store → Store
  hide_others page [] s = s
  hide_others page (o ∷ os) s =
      hide_others page os (if not (same o page) then set_hidden o true s else s)

  -- ui_page_show behind ui_find_page.
  unfoldable pub show : Option Obj → Store → Code × Store
  show none s = (page_not_found, s)
  show (some page) s =
      if is_visible s page
      then (success, s)
      else let s' = set_hidden page false s in (success, hide_others page (children s' screen) s')

  unfoldable pub ui_page_show : String → Store → Code × Store
  ui_page_show name s = show (ui_find_page s name) s

  -- ui_page_hide behind ui_find_page.
  unfoldable pub hide : Option Obj → Store → Code × Store
  hide none s = (page_not_found, s)
  hide (some page) s = (success, if is_visible s page then set_hidden page true s else s)

  unfoldable pub ui_page_hide : String → Store → Code × Store
  ui_page_hide name s = hide (ui_find_page s name) s

  unfoldable pub ui_page_exist : Option String → Store → Bool
  ui_page_exist none s = false
  ui_page_exist (some name) s = is_found (ui_find_page s name)

  -- The loop of ui_get_current_page_name over the pages left.
  pub first_visible : Store → List Obj → Option String
  first_visible s [] = none
  first_visible s (o ∷ os) =
      let rest = first_visible s os in if is_visible s o then text s o else rest

  unfoldable pub ui_get_current_page_name : Store → Option String
  ui_get_current_page_name s = first_visible s (children s screen)

  -- The sizes that lv_upgrade_set_progress gives the object, if it gives it one.
  abbrev pub resize : Obj → Option Area → Store → Store
  resize o none s = s
  resize o (some area) s = style (size (pos area.x2) (pos area.y2)) o s

  -- lv_upgrade_set_progress on a widget of the tree; `none` is a crash.
  pub refresh_upgrade : Obj → Option (Upgrade × Option Area) → Store → Option (Code × Store)
  refresh_upgrade o none s = none
  refresh_upgrade o (some (u, area)) s = some (success, resize o area (put_upgrade o u s))

  -- ui_refresh_page_progress from the widget on.
  pub refresh_found : ℕ → Option Obj → Store → Option (Code × Store)
  refresh_found value none s = some (lv_obj_null, s)
  refresh_found value (some o) s = refresh_upgrade o (set_progress value (upgrade s o)) s

  -- ui_refresh_page_progress from the first child of the page on.
  pub refresh_base : ℕ → List Obj → Store → Option (Code × Store)
  refresh_base value [] s = some (lv_obj_child_null, s)
  refresh_base value (base ∷ os) s = refresh_found value (first_upgrade s (children s base)) s

  unfoldable pub ui_refresh_page_progress : Option Obj → ℕ → Store → Option (Code × Store)
  ui_refresh_page_progress none value s = some (page_not_found, s)
  ui_refresh_page_progress (some page) value s = refresh_base value (children s page) s

  unfoldable pub ui_set_progress : Option String → ℕ → Store → Option (Code × Store)
  ui_set_progress none value s = some (page_name_null, s)
  ui_set_progress (some name) value s = ui_refresh_page_progress (ui_find_page s name) value s
