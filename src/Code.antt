-- ===== src/Code.antt =====
-- The result codes of ui/ui_common.h.
use openvela_frameworks_syst.Prelude.{Bool, true, false}

-- ui_result_code_e: success is 0, and the others are the numbers from -1 down.
pub data Code : Type 0 where
  success file_parse_error page_name_null page_not_found user_data_null page_data_null : Code
  file_path_null lv_obj_null lv_obj_child_null image_buff_null file_read_error : Code
  file_content_invalid : Code

-- `ret == UI_SUCCESS`, and so not `ret < 0`.
abbrev pub succeeds : Code → Bool
succeeds success = true
succeeds _ = false
