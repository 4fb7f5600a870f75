-- ===== src/Program/Options.antt =====
-- The options of `main` in ui/ui_ota.c, and the whole program from the command line on. getopt,
-- strtoul and snprintf are not part of the repository: the answers of getopt are a list, the other
-- two a record.
use openvela_frameworks_syst.Prelude.{
  ℕ, ◌-◌, ◌^◌, Bool, true, false, Option, none, some, String, List, [], ◌∷◌, ltb, if◌then◌else◌,
}
use openvela_frameworks_syst.Prelude.Int.{ℤ, pos, negsuc}
use openvela_frameworks_syst.Prelude.Bytes.{u32}
use openvela_frameworks_syst.Lvgl.{Lvgl}
use openvela_frameworks_syst.Config.Names.{Input}
use openvela_frameworks_syst.Config.{ui_config_destroy}
use openvela_frameworks_syst.Ota.Loop.{Ota, Outcome, executes_command, test_value}
use openvela_frameworks_syst.Ota.Screen.{Props}
use openvela_frameworks_syst.Program.{main}

-- strtoul with base 10, and `snprintf` with "%s" into a buffer of that size.
pub record Libc : Type 0 where
  pub strtoul : String → ℕ
  pub snprintf : ℕ → String → String

-- The answers of getopt, with optarg; `unknown` is any other but -1.
pub data Argument : Type 0 where
  test config_file start : String → Argument
  logo help unknown : Argument

-- What the options set.
pub record Settings : Type 0 where
  pub config_path : String
  pub current : ℤ
  pub logo_mode : Bool

-- What `main` goes on with: set_test_value, help_print, or the rest of it.
pub data Request : Type 0 where
  set_test : ℕ → Request
  print_help : Request
  show_pages : Settings → Request

-- An unsigned number kept in an int32_t.
abbrev pub to_int32 : ℕ → ℤ
to_int32 n = if ltb (u32 n) (2 ^ 31) then pos (u32 n) else negsuc (2 ^ 32 - 1 - u32 n)

-- The loop over the options.
unfoldable pub options : Libc → List Argument → Settings → Request
options libc [] set = show_pages set
options libc (test arg ∷ choices) set = set_test (u32 (libc.strtoul arg))
options libc (config_file arg ∷ choices) set =
    options libc choices (record set { config_path = libc.snprintf 127 arg })
options libc (start arg ∷ choices) set =
    options libc choices (record set { current = to_int32 (libc.strtoul arg) })
options libc (logo ∷ choices) set = options libc choices (record set { logo_mode = true })
options libc (help ∷ choices) set = print_help
options libc (unknown ∷ choices) set = options libc choices set

-- The variables of `main` before the options.
abbrev pub no_settings : Settings
no_settings = record { config_path = ""; current = pos 0; logo_mode = false }

-- The variables of the loop before its first round.
abbrev pub started : ℤ → Ota
started current = record {
  progress = record {
    current = current;
    prev_node = pos 0;
    next_node = pos 0;
    slow_tick_count = 0;
    fast_tick_count = 0;
  };
  count_tick_ms = 0;
}

module _ (lv : Lvgl) where
  open lv use {Store}

  -- How the program ends: with the two properties that a test value sets, with the help, without a
  -- configuration (-1), or behind its loop, where the command is executed or not.
  pub data Ending : Type 0 where
    tested : Option (ℤ × ℤ) → Ending
    helped : Ending
    no_config : Store → Ending
    ended : Outcome → Bool → Store → Ending

module _ (libc : Libc) (input : Input) (lv : Lvgl) (sync_time : ℕ) where
  open lv use {Store}

  -- What follows the loop; `last` is what the properties are then.
  abbrev pub close : Props → Option (Option Outcome × Store) → Option (Ending lv)
  close last none = none
  close last (some (none, s)) = some (no_config s)
  close last (some (some o, s)) =
      some
        (ended o (executes_command last.0 last.1 o.state.progress) (ui_config_destroy input lv s))

  abbrev pub carry_out : Request → ℕ → (ℕ → Props) → Props → Store → Option (Ending lv)
  carry_out (set_test val) rounds props last s = some (tested (test_value val))
  carry_out print_help rounds props last s = some helped
  carry_out (show_pages set) rounds props last s =
      close last
        (main input lv sync_time set.logo_mode set.config_path rounds props (started set.current) s)

  -- `main`; `none` is a crash, and the loop is followed for a bounded number of rounds.
  unfoldable pub ota_ui : List Argument → ℕ → (ℕ → Props) → Props → Store → Option (Ending lv)
  unfolding options
  ota_ui choices rounds props last s =
      carry_out (options libc choices no_settings) rounds props last s
