-- ===== src/Display/Tests.antt =====
-- The theorems on the pages at a display of four pages.
use openvela_frameworks_syst.Prelude.{ℕ, zero, suc, ◌≡◌, refl, false, some, [], arith, get_elem?}
use openvela_frameworks_syst.Lvgl.Memory.{memory, memory-laws}
use openvela_frameworks_syst.Lvgl.Sample.{
  pages, images, widget, progress_bar, progress_bar-Filled, progress_bar-InSync, progress_bar_rate,
  no_page, new_page,
}
use openvela_frameworks_syst.Code.{success}
use openvela_frameworks_syst.Display.{
  find_in, ui_find_page, first_upgrade, ui_page_show, ui_set_progress,
}
use openvela_frameworks_syst.Display.Show.{Exclusive, Shown, ui_page_show_lem}
use openvela_frameworks_syst.Display.Progress.{HasWidget, Ready, Refreshed, ui_set_progress_lem}

pages_hidden :
    (p : memory.Obj) (i : ℕ)
    → get_elem? (memory.children pages memory.screen) i ≡ some p
    → memory.is_visible pages p ≡ false
unfolding memory pages no_page new_page
pages_hidden p zero e = cc
pages_hidden p (suc zero) e = cc
pages_hidden p (suc (suc zero)) e = cc
pages_hidden p (suc (suc (suc zero))) e = cc
pages_hidden p (suc (suc (suc (suc i)))) e = absurd (cc)

pub pages-Exclusive : Exclusive memory memory-laws pages
pages-Exclusive p q (i, here) there visible visible' = absurd (cc (pages_hidden p i here, visible))

pages-HasWidget : HasWidget memory "upgrading_page" widget pages
unfolding memory pages no_page new_page ui_find_page find_in first_upgrade widget
pages-HasWidget = record {
  page = 2;
  base = 5;
  others = [];
  found = refl;
  first = refl;
  widget = refl;
}

upgrade-pages : memory.upgrade pages widget ≡ progress_bar
unfolding memory pages no_page new_page widget
upgrade-pages = refl

pub pages-Ready : Ready memory "upgrading_page" images widget pages
pages-Ready = record {
  has = pages-HasWidget;
  filled = rw upgrade-pages progress_bar-Filled;
  rate = rw upgrade-pages progress_bar_rate;
  sync = rw upgrade-pages progress_bar-InSync;
}

ui_page_show_lem_example :
    Shown memory memory-laws "upgrading_page" pages (ui_page_show memory "upgrading_page" pages)
ui_page_show_lem_example =
    ui_page_show_lem memory memory-laws "upgrading_page" pages pages-Exclusive

ui_set_progress_lem_example :
    (s' : memory.Store) × (ui_set_progress memory (some "upgrading_page") 60 pages
      ≡ some (success, s'))
    × Refreshed memory memory-laws "upgrading_page" images widget 60 pages s'
ui_set_progress_lem_example =
    ui_set_progress_lem memory memory-laws "upgrading_page" images widget 60 pages (omega arith)
      pages-Ready
