-- ===== src/Tests/Desk.antt =====
-- List controls and a notebook as lists, for runs of the viewer.
use dill.Base.{ℕ, zero, suc, refl, Bool, true, false, List, [], ◌∷◌, ◌++◌, Bytes, length}
use dill.Viewer.Widgets.{ListCtrl, Row, new_row, put_cell, put_colour, change_row}
use dill.Viewer.Desktop.{Desktop, Tab, remove_tab}
use dill.Viewer.Events.{DlvEvtDataLog}
use dill.Viewer.App.{Dill, ChannelData, DlvApp, server_and_subscriber}

abbrev pub list_control : ListCtrl
list_control = record {
  Ctrl = List Row;
  rows = λ c. c;
  get_item_count = length;
  insert_item = λ pos label c. c ++ (new_row label ∷ []);
  set_item = λ pos col text c. change_row pos (put_cell col text) c;
  set_item_text_colour = λ pos colour c. change_row pos (put_colour colour) c;
  clear_all = λ c. [];
  get_item_count_lem = λ c. refl;
  rows-insert_item = λ pos label c h. refl;
  rows-set_item = λ pos col text c. refl;
  rows-set_item_text_colour = λ pos colour c. refl;
  rows-clear_all = λ c. refl;
}

abbrev pub desk : Desktop
desk = record {
  lists = list_control;
  new_list = [];
  rows-new_list = refl;
  Notebook = List Tab;
  tabs = λ n. n;
  new_notebook = [];
  add_page = λ page text n. n ++ ((text, page) ∷ []);
  delete_page = λ i n. remove_tab i n;
  tabs-new_notebook = refl;
  tabs-add_page = λ page text n. refl;
  tabs-delete_page = λ i n. refl;
  from_utf8 = λ text. text;
  date = λ seconds milliseconds. seconds ∷ [];
}

-- A server with two channels, `A` and `B`, that cannot be told of subscriptions where `able` is false.
abbrev pub two_channels : Bool → Dill
two_channels able = record {
  available_channels = λ t. 2;
  get_channel_name =
      λ t i. elim i [ zero ↦ 65 ∷ [] | suc k ↦ elim k [ zero ↦ 66 ∷ [] | suc _ ↦ [] ] ];
  subscribe_channel = λ t. able;
}

abbrev pub no_server : Dill
no_server = record {
  available_channels = λ t. 0;
  get_channel_name = λ t i. [];
  subscribe_channel = λ t. false;
}

-- An application that knows channels.
abbrev pub app_of : List ChannelData → DlvApp
app_of ds = record {
  started = server_and_subscriber;
  channel_data = ds;
  server_addr = [];
  server_port = 9876;
  timer_runs = true;
  quiting = false;
  posted = [];
  calls = 0;
}

abbrev pub channel : ℕ → Bytes → ChannelData
channel page name = record { page = page; name = name }

abbrev pub warn_log : DlvEvtDataLog
warn_log = record {
  priority = 3;
  channel = 0;
  tag = 84 ∷ [];
  message = 77 ∷ [];
  timestamp_sec = 5;
  timestamp_ms = 6;
}
