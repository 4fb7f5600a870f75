-- ===== src/Ota/Screen/Tests.antt =====
-- The loop at a display of four pages.
use openvela_frameworks_syst.Prelude.{◌≡◌, refl, true, false, some, arith}
use openvela_frameworks_syst.Prelude.Int.{pos, is_neg}
use openvela_frameworks_syst.Ota.{calc_progress, sync_progress}
use openvela_frameworks_syst.Ota.Loop.{
  Page, logo_page, upgrading_page, upgrade_success_page, upgrade_fail_page, Ota, round, run, synced,
}
use openvela_frameworks_syst.Lvgl.Memory.{memory, memory-laws}
use openvela_frameworks_syst.Lvgl.Sample.{pages, images, widget, no_page, new_page}
use openvela_frameworks_syst.Widget.{get_value}
use openvela_frameworks_syst.Display.{is_found, find_in, ui_find_page}
use openvela_frameworks_syst.Display.Tests.{pages-Exclusive, pages-Ready}
use openvela_frameworks_syst.Ota.Screen.{page_name, Props, answers, screen_round, screen_run}
use openvela_frameworks_syst.Ota.Screen.Played.{Valid, Played}
use openvela_frameworks_syst.Ota.Screen.Refine.{synced_here, screen_round_lem}
use openvela_frameworks_syst.Ota.Screen.Finish.{RunPlayed, screen_run_refines}

pages-Valid : Valid memory memory-laws images widget pages
pages-Valid = record { exclusive = pages-Exclusive; ready = pages-Ready }

found_pages : (page : Page) → is_found (ui_find_page memory pages (page_name page)) ≡ true
unfolding memory pages no_page new_page ui_find_page find_in
found_pages logo_page = refl
found_pages upgrading_page = refl
found_pages upgrade_success_page = refl
found_pages upgrade_fail_page = refl

-- The last node is read, and the progress is at 90.
abbrev late : Ota
late = record {
  progress = record {
    current = pos 90;
    prev_node = pos 100;
    next_node = pos 100;
    fast_tick_count = 0;
    slow_tick_count = 0;
  };
  count_tick_ms = 0;
}

abbrev at_100 : Props
at_100 = (some (pos 100), some (pos 100))

late-current :
    (calc_progress (synced_here memory memory-laws images widget 10 at_100 late pages)).current
    ≡ pos 90
unfolding calc_progress synced_here synced sync_progress
late-current = refl

screen_round_lem_example :
    let o = round 10 false (answers memory 10 false at_100 pages) late in
    (s' : memory.Store) × (screen_round memory 10 false at_100 late pages ≡ some (o, s'))
    × Played memory memory-laws images widget pages o s'
    × (is_neg o.state.progress.prev_node ≡ false → get_value (memory.upgrade s' widget) ≡ 90)
screen_round_lem_example =
    screen_round_lem memory memory-laws images widget 10 at_100 late 90 pages (omega arith)
      pages-Valid late-current (omega arith)

screen_run_refines_example :
    let o = run 10 false 50 (λ j. answers memory 10 false at_100 pages) 0 late in
    (s' : memory.Store) × (screen_run memory 10 false 50 (λ j. at_100) 0 late pages ≡ some (o, s'))
    × RunPlayed memory memory-laws images widget 10 pages o s'
screen_run_refines_example =
    screen_run_refines memory memory-laws images widget 10 (λ j. at_100) 50 0 90 late pages
      (omega arith) pages-Valid refl (omega arith)
