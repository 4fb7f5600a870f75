-- ===== src/Lib.antt =====
-- The OTA programs of the repository: the boot flags of two slots, the verification of a signed
-- archive, the upgrade screen and its progress widget.
--
-- The programs. An upgrade is a signed zip archive. `zip_verify` (verify/zip_verify.c) checks its
-- signature and its digest. The upgrade program then writes the image of the slot that is not in
-- use, and `bootctl` (bootctl/bootctl.c) keeps in a property store which slot is active, which one
-- may be booted, which one has proved itself and whether a trial is under way. `ota_ui`
-- (ui/ui_ota.c) reads the progress of the upgrade from the same store and shows it on pages
-- (ui/ui_display.c) that it has read from a configuration file (ui/ui_config_parse.c), through a
-- widget of its own (ui/extra/lv_upgrade.c). `avb_verify` (verify/avb_verify.c) checks an image with
-- libavb and keeps the rollback indexes of the images.
--
-- The files.
--   * Prelude, and the files under Prelude: the names the others share, Boolean tests and lists over
--     the native numbers, signed integers, 32-bit words and little-endian numbers.
--   * Boot: the flags of bootctl/bootctl.c as a record, and what each command makes of them
--     (`update_flags`, `done_flags`, `mark_success`, `boot_flags` stand for bootctl_update,
--     bootctl_done, bootctl_success and bootctl_boot). Boot/Select, Boot/Invariant and Boot/Upgrade
--     are about these: the choice of a slot, the states between two commands, a whole upgrade.
--   * Boot/Store: the same commands over the property store, with their errors; Boot/Command is
--     `main`. Boot/Store/Refine and Boot/Store/Commands connect them with Boot, Boot/Store/Crash is
--     about a write that stops half way, and Boot/Store/Memory has stores for which the laws hold, one in
--     which chosen writes fail.
--   * Zip: the blocks of an archive in verify/zip_verify.c (parse_block, parse_kv_block,
--     get_signature_info); Zip/Layout writes a signature block as a signing tool does. Zip/Archive is
--     parse_app_block, and Zip/Archive/Parts puts an archive together. Zip/Digest is calc_chunk_count,
--     md_one_chunk and md_file_block, with the digests of a chunk and of a block in its children.
--     Zip/Verify is verify_signature, verify_digest, verify_app, verify and main, and
--     Zip/Verify/Sound says what a return value means.
--   * Ota: ota_calc_progress and ota_sync_upgrade_progress of ui/ui_ota.c; Ota/Loop is the loop of its
--     `main`, with what the display answers as given; Ota/Bounds, Ota/Pace and Ota/Loop/Rounds prove
--     things about them. Ota/Screen is the loop over the display of Display, with its proofs in
--     Ota/Screen/Played, Ota/Screen/Refine and Ota/Screen/Finish.
--   * Code: ui_result_code_e of ui/ui_common.h.
--   * Lvgl: the calls of LVGL that the pages need, with their laws; Lvgl/Memory is a display for which
--     the laws hold, and Lvgl/Sample has four pages on it.
--   * Display: the pages of ui/ui_display.c (ui_find_page, ui_page_show, ui_page_hide, ui_page_exist,
--     ui_set_progress, ui_get_current_page_name). Display/Tree, Display/Show, Display/Current and
--     Display/Progress hold proofs.
--   * Config: ui/ui_config_parse.c, from the name tables to ui_config_init, under the functions'
--     names. Config/Names has the tables and `Input`. Config/Kept and Config/Elements are about
--     what reading an element leaves alone, Config/Check says which files are taken, Config/Pages,
--     Config/Load and Config/Show are about the pages read, and Config/Chain, Config/Further,
--     Config/Widget, Config/Ready and Config/Bar about a progress widget among them; Config/Sample
--     is a file. Config/Null says where the reader comes to a member without a name, which crashes it.
--     Config/Buffer is what get_image_data_from_file writes into the buffer of a file, and Config/Rate,
--     with Widget/Rate, is about the frames per second that a file sets.
--   * Program: `main` of ui/ui_ota.c from the configuration on, over Config, Display and Ota/Screen;
--     Program/Pages says which file it wants. Program/Options is the whole of `main`, from the answers of
--     getopt to the closing command, and Program/Whole is about it. Program/Drawn is about the widget of
--     a configuration file and the callbacks that draw it.
--   * Widget: the progress, its digits and the image slots of ui/extra/lv_upgrade.c. Widget/Closest
--     is lv_get_closest_element_index, Widget/Size the functions that compute the size of the content
--     and lv_upgrade_set_progress; Widget/Digits, Widget/Slots and Widget/Size/Safe hold proofs.
--     Widget/Draw is the drawing callbacks (lv_calc_draw_area, lv_render_*_content, lv_index_change and
--     the switch of lv_upgrade_event): a callback gives the calls of LVGL that it makes, an area being
--     four 32-bit patterns. Widget/Draw/Number is about where the digits are drawn and
--     Widget/Draw/Events about a sequence of events. Widget/Files is read_data_from_file and
--     get_image_data_from_file, with its proofs in Widget/Files/Read, and Widget/Free the destructor.
--   * Avb: the reads and writes of a partition in verify/avb_verify.c and its public key check, with
--     Avb/Partition and Avb/Key for their proofs; Avb/Rollback is the rollback indexes and avb_verify, and
--     Avb/Command is `main` of verify/avb_main.c. Avb/Values is the persistent values and the other small
--     operations, Avb/Hash is avb_hash_desc and avb_hash_desc_dump; Avb/Values/Names and Avb/Hash/Sound
--     are about them.
--   * the files called Tests: the theorems at concrete values.
--
-- What is a parameter. The property store (kvdb.h) is the record `Kvdb`; its laws say that a write
-- that succeeds changes one key and that one that fails changes none. SHA-256 and the RSA check of
-- libavb, the unzip library and the system calls of zip_verify are records as well; a read of the
-- file may deliver less than was asked for. The answers of the display and the values of the
-- properties are functions of the round. LVGL is the record `Lvgl` over an unknown state of the
-- display; its laws say which part of the tree a call changes, and that a page, which covers the
-- screen, is visible unless it is hidden. cJSON, strtol, strtoul and the file system are the
-- record `Input`, a null pointer being `none`, and a member of an array having no name; the numbers that name images are taken to be not
-- negative. For verify/avb_verify.c the answers to `read` and `write` are a list, so that
-- an interrupted call and an error are answers too, and what avb_slot_verify returned is an
-- argument; the functions of libavb that avb_hash_desc calls are the record `Libavb`, and the
-- properties are `Props` and `Properties`; for verify/avb_main.c and ui/ui_ota.c so are the answers
-- of getopt. Of lv_image_dsc_t only the order of its first fields is used. Each of these is
-- instantiated by concrete functions in the tests.
--
-- Bounds and fuel. A machine word of 32 bits is a natural number with its wrap-around written out
-- (`% 2 ^ 32`), and the numbers in an archive are little-endian, as the code's casts read them on
-- its targets. off_t and intptr_t are taken to have 64 bits. `read_chunk` has fuel: the length of
-- the chunk and one more, which is enough since each read that does not end the loop delivers a
-- byte. The start of a chunk is the product of two `int`s, which is taken to wrap and is then
-- extended by its sign. The loop of ui/ui_ota.c has no bound in the code; its model takes the number of rounds,
-- and a period of 0, by which the code divides, is a crash. The
-- loops of verify/avb_verify.c go on while calls are interrupted; they end when as many other
-- answers come as there are bytes to move.
--
-- What is not modelled. The help texts and the log lines, the sleep behind the loop of ui/ui_ota.c, what the
-- start of LVGL and its timer do, what a redraw of the screen makes of objects other than the widget whose
-- progress is set, the styles of the widget's arc, what LVGL does with the calls of a
-- drawing callback, and the handler that frees the image of a label. The host tools under tools/ are
-- not C, and tools/lvgl_image_converter is a copy of another project.
pub mod Avb
pub mod Boot
pub mod Code
pub mod Config
pub mod Display
pub mod Lvgl
pub mod Ota
pub mod Prelude
pub mod Program
pub mod Widget
pub mod Zip
