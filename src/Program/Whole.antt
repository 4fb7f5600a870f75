-- ===== src/Program/Whole.antt =====
-- ui/ui_ota.c from its command line to its end, for an upgrade that has reached its last node.
use openvela_frameworks_syst.Lvgl.{Lvgl}
use openvela_frameworks_syst.Ota.Loop.{Ota}
