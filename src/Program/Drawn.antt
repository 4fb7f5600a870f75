-- ===== src/Program/Drawn.antt =====
-- The progress widget of a configuration file, from ui/ui_config_parse.c to the callbacks of
-- ui/extra/lv_upgrade.c.
use openvela_frameworks_syst.Lvgl.{Lvgl}
