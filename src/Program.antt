-- ===== src/Program.antt =====
-- `main` of ui/ui_ota.c, from the configuration file to the end of its loop.
pub mod Pages
pub mod Options
pub mod Whole
pub mod Drawn
mod Tests
use text.Mathlib.Text.{◌==◌}
use openvela_frameworks_syst.Prelude.{ℕ, Bool, not, Option, none, some, String, if◌then◌else◌}
use openvela_frameworks_syst.Code.{Code, succeeds}
use openvela_frameworks_syst.Lvgl.{Lvgl}
use openvela_frameworks_syst.Config.Names.{Input}
use openvela_frameworks_syst.Config.Null.{
  null_in_file, null_in_pages, null_in_elements, null_in_images,
}
use openvela_frameworks_syst.Config.{ui_config_parse}
use openvela_frameworks_syst.Ota.Loop.{Ota, Outcome}
use openvela_frameworks_syst.Ota.Screen.{Props, screen_run}

-- UI_DEFAULT_CONFIG_PATH for an empty path.
abbrev pub config_of : String → String
config_of path = if path == "" then "/resource/recovery/ota_ui_config.json" else path

module _ (input : Input) (lv : Lvgl) (sync_time : ℕ) (logo_mode : Bool) where
  open lv use {Store}

  -- The end of the loop and the display behind it; without an outcome, `main` has returned -1.
  abbrev pub finish : Option (Outcome × Store) → Option (Option Outcome × Store)
  finish none = none
  finish (some (o, s)) = some (some o, s)

  -- `none` is a crash, also that of the reader on a null name; the loop is followed for a bounded
  -- number of rounds.
  unfoldable pub main : String → ℕ → (ℕ → Props) → Ota → Store → Option (Option Outcome × Store)
  main config_path rounds props st s =
      let (ret, s') = ui_config_parse input lv (some (config_of config_path)) s in
      if null_in_file input (some (config_of config_path))
      then none
      else if not (succeeds ret)
      then some (none, s')
      else finish (screen_run lv sync_time logo_mode rounds props 0 st s')
