-- ===== src/Viewer/Bars.antt =====
-- The menu bar and the tool bar of the frame (dlv/dlv_frame.cpp) with the identifiers of dlv/dlv.h: which
-- entries there are, and which are enabled. Their texts and images are left out.
use dill.Base.{
  ℕ, Bool, true, false, ◌&&◌, ◌||◌, Option, none, some, List, [], ◌∷◌, ◌==◌, if◌then◌else◌,
}

-- `enum DLVID`.
pub data DlvId : Type 0 where
  main_frame channel_notebook conn_stat_timer log_list_ctrl reg_list_ctrl priority_combo : DlvId
  filter_text_ctrl show_reg_btn filter_add_btn filter_del_btn filter_edit_btn log_clear_btn : DlvId
  recording_btn main_tool_bar tool_subscribe tool_open_log subscribe_dlg : DlvId
  channel_check_list_box : DlvId

unfoldable pub dlv_id : DlvId → ℕ
dlv_id main_frame = 5299
dlv_id channel_notebook = 5300
dlv_id conn_stat_timer = 5301
dlv_id log_list_ctrl = 5302
dlv_id reg_list_ctrl = 5303
dlv_id priority_combo = 5304
dlv_id filter_text_ctrl = 5305
dlv_id show_reg_btn = 5306
dlv_id filter_add_btn = 5307
dlv_id filter_del_btn = 5308
dlv_id filter_edit_btn = 5309
dlv_id log_clear_btn = 5310
dlv_id recording_btn = 5311
dlv_id main_tool_bar = 5312
dlv_id tool_subscribe = 5313
dlv_id tool_open_log = 5314
dlv_id subscribe_dlg = 5315
dlv_id channel_check_list_box = 5316

-- What an entry stands for: an identifier of the viewer, `wxID_EXIT` or `wxID_ABOUT`.
pub data CommandId : Type 0 where
  dlv : DlvId → CommandId
  wx_exit wx_about : CommandId

unfoldable pub same_id : CommandId → CommandId → Bool
same_id (dlv a) (dlv b) = dlv_id a == dlv_id b
same_id (dlv a) wx_exit = false
same_id (dlv a) wx_about = false
same_id wx_exit (dlv b) = false
same_id wx_exit wx_exit = true
same_id wx_exit wx_about = false
same_id wx_about (dlv b) = false
same_id wx_about wx_exit = false
same_id wx_about wx_about = true

-- An entry of a menu or of the tool bar, which may be enabled, or a separator.
pub data Entry : Type 0 where
  entry : CommandId → Bool → Entry
  separator : Entry

-- `wxMenu::Enable` and `wxToolBar::EnableTool`.
unfoldable pub enable : CommandId → Bool → List Entry → List Entry
enable id on [] = []
enable id on (separator ∷ es) = separator ∷ enable id on es
enable id on (entry other was ∷ es) =
    entry other (if same_id id other then on else was) ∷ enable id on es

-- `wxMenuBar::Enable`, for the menus of the bar.
unfoldable pub enable_item : CommandId → Bool → List (List Entry) → List (List Entry)
enable_item id on [] = []
enable_item id on (menu ∷ menus) = enable id on menu ∷ enable_item id on menus

unfoldable pub setup_tool_bar : List Entry
setup_tool_bar =
    enable (dlv tool_subscribe) false
      (entry (dlv tool_open_log) true ∷ entry (dlv tool_subscribe) true ∷ [])

abbrev pub file_menu : List Entry
file_menu =
    entry (dlv tool_open_log) true
    ∷ separator
    ∷ entry (dlv tool_subscribe) true
    ∷ separator
    ∷ entry wx_exit true
    ∷ []

unfoldable pub setup_menu_bar : List (List Entry)
setup_menu_bar = enable (dlv tool_subscribe) false file_menu ∷ (entry wx_about true ∷ []) ∷ []

-- Whether an entry with the identifier is there and enabled.
unfoldable pub is_enabled : CommandId → List Entry → Bool
is_enabled id [] = false
is_enabled id (separator ∷ es) = is_enabled id es
is_enabled id (entry other on ∷ es) = (same_id id other && on) || is_enabled id es

unfoldable pub is_item_enabled : CommandId → List (List Entry) → Bool
is_item_enabled id [] = false
is_item_enabled id (menu ∷ menus) = is_enabled id menu || is_item_enabled id menus

-- The handler of the event table that an entry leads to, if it has one.
pub data Handler : Type 0 where
  about quit subscribe opens_log : Handler

unfoldable pub handler_of : CommandId → Option Handler
handler_of wx_about = some about
handler_of wx_exit = some quit
handler_of (dlv id) =
    if dlv_id id == dlv_id tool_subscribe
    then some subscribe
    else (if dlv_id id == dlv_id tool_open_log then some opens_log else none)
