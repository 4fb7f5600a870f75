-- ===== src/Ota/Screen.antt =====
-- The loop of `main` in ui/ui_ota.c over the display of ui/ui_display.c.
pub mod Played
pub mod Refine
pub mod Finish
pub mod Start
mod Tests
use openvela_frameworks_syst.Prelude.{
  ℕ, zero, suc, ◌+◌, ◌-◌, ◌*◌, ◌^◌, ◌%◌, Bool, true, false, ◌&&◌, ◌||◌, not, Option, none, some,
  String, List, [], ◌∷◌, ◌==◌, if◌then◌else◌,
}
use openvela_frameworks_syst.Prelude.Int.{ℤ, pos, negsuc, is_neg, ltb_ℤ}
use openvela_frameworks_syst.Ota.{Progress, calc_progress, sync_progress}
use openvela_frameworks_syst.Ota.Loop.{
  Page, logo_page, upgrading_page, upgrade_success_page, upgrade_fail_page, Round, Ota, Outcome,
  go_on, ends, end_round,
}
use openvela_frameworks_syst.Lvgl.{Lvgl}
use openvela_frameworks_syst.Code.{Code, succeeds}
use openvela_frameworks_syst.Display.{
  is_found, ui_find_page, ui_page_show, ui_page_exist, ui_set_progress,
}

-- The strings of the page names.
abbrev pub page_name : Page → String
page_name logo_page = "logo_page"
page_name upgrading_page = "upgrading_page"
page_name upgrade_success_page = "upgrade_success_page"
page_name upgrade_fail_page = "upgrade_fail_page"

-- An int32_t passed as a uint32_t.
abbrev pub to_uint32 : ℤ → ℕ
to_uint32 (pos n) = n % 2 ^ 32
to_uint32 (negsuc n) = 2 ^ 32 - 1 - n % 2 ^ 32

-- The two progress properties when they are read in a round.
abbrev pub Props : Type 0
Props = Option ℤ × Option ℤ

module _ (lv : Lvgl) (sync_time : ℕ) (logo_mode : Bool) where
  open lv use {Store}

  -- A round that only shows a page.
  pub show_round : Page → Progress → ℕ → Store → Outcome × Store
  show_round page p count s =
      let (ret, s') = ui_page_show lv (page_name page) s in
      (end_round sync_time logo_mode (page ∷ []) (succeeds ret) p count, s')

  pub show_success : Progress → ℕ → Code × Store → Outcome × Store
  show_success q count (ret, s) = (
    end_round sync_time logo_mode (upgrading_page ∷ upgrade_success_page ∷ []) (succeeds ret) q
        count,
    s,
  )

  -- From ui_page_exist on, behind ui_set_progress.
  pub after_progress : Progress → ℕ → Option (Code × Store) → Option (Outcome × Store)
  after_progress q count none = none
  after_progress q count (some (ret, s)) =
      if ui_page_exist lv (some (page_name upgrade_success_page)) s
        && not (ltb_ℤ q.current (pos 100))
      then some (show_success q count (ui_page_show lv (page_name upgrade_success_page) s))
      else some (end_round sync_time logo_mode (upgrading_page ∷ []) (succeeds ret) q count, s)

  pub screen_upgrading : Progress → ℕ → Store → Option (Outcome × Store)
  screen_upgrading p count s =
      let (ret, s') = ui_page_show lv (page_name upgrading_page) s in
      let q = calc_progress p in
      after_progress q count
        (ui_set_progress lv (some (page_name upgrading_page)) (to_uint32 q.current) s')

  -- A round of the loop; `none` is a crash: of the progress widget, or by the remainder for a
  -- `sync_time` of 0.
  pub screen_round : Props → Ota → Store → Option (Outcome × Store)
  unfolding show_round screen_upgrading after_progress show_success
  screen_round props st s =
      let p =
        if st.count_tick_ms % sync_time == 0
        then sync_progress props.0 props.1 st.progress
        else st.progress in
      if sync_time == 0
      then none
      else if logo_mode
      then some (show_round logo_page p st.count_tick_ms s)
      else if is_neg p.prev_node
      then some (show_round upgrade_fail_page p st.count_tick_ms s)
      else screen_upgrading p st.count_tick_ms s

  -- The `break`s of the loop behind a round, or the rounds that follow it.
  abbrev pub go_round :
      Option (Outcome × Store) → (Ota → Store → Option (Outcome × Store)) → Option (Outcome × Store)
  go_round none rest = none
  go_round (some (o, s)) rest = if ends o.next then some (o, s) else rest o.state s

  -- The loop, for a bounded number of rounds, with the properties at each from the round `i` on.
  pub screen_run : ℕ → (ℕ → Props) → ℕ → Ota → Store → Option (Outcome × Store)
  unfolding screen_round
  screen_run zero props i st s = some (record { shown = []; next = go_on; state = st }, s)
  screen_run (suc n) props i st s =
      go_round (screen_round (props i) st s) (λ st' s'. screen_run n props (i + 1) st' s')

  -- What the display answers in a round, when the progress widget takes every progress.
  abbrev pub answers : Props → Store → Round
  answers props s = record {
    shows = λ page. is_found (ui_find_page lv s (page_name page));
    sets_progress = true;
    success_exists = is_found (ui_find_page lv s (page_name upgrade_success_page));
    current_prop = props.0;
    next_prop = props.1;
  }
