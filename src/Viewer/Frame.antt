-- ===== src/Viewer/Frame.antt =====
-- dlv/dlv_frame.cpp, the class `DlvFrame`: the notebook with a page for each subscribed channel, and what
-- the frame does with the events that the application posts. The pages are those of the application's
-- heap, by their addresses, and a deleted one leaves a gap that no later page gets. Icons, the text of
-- the status bar and the file dialogue are left out.
pub mod Sound
pub mod Steps
pub mod Handlers
pub mod Failed
use dill.Base.{
  ℕ, zero, suc, Bool, true, false, ◌&&◌, Option, none, some, List, [], ◌∷◌, ◌++◌, Bytes,
  use_after_free, Result, ok, err, ◌>>=◌, or_fault, ltb, ◌==◌, if◌then◌else◌, bytes_eq, length,
  get_elem?, set,
}
use dill.Viewer.Events.{
  DlvEvtDataConnStatus, DlvEvtDataLog, DlvEvtDataRegister, DlvDillEvent, conn_stat, log_data,
  reg_data,
}
use dill.Viewer.Desktop.{Desktop, Tab}
use dill.Viewer.Bars.{
  Entry, dlv, tool_subscribe, setup_menu_bar, setup_tool_bar, enable, enable_item,
}
use dill.Viewer.Page.{
  PageEvent, on_page_event, DlvChannelPage, live, new_page, on_append_log, on_update_register,
}
use dill.Viewer.App.{
  Dill, DlvApp, get_channel_name, get_channel_page_by_id, subscribe_channel, set_quiting,
}

pub record DlvFrame (W : Desktop) : Type 0 where
  pub app : DlvApp
  pub channel_notebook : W.Notebook
  -- The page whose address is the position and one.
  pub pages : List (Option (DlvChannelPage W.lists))
  pub waiting_first_channel : Bool
  pub menu_bar : List (List Entry)
  pub tool_bar : List Entry
  pub status : Option DlvEvtDataConnStatus
  pub destroyed : Bool

-- The constructor.
unfoldable pub new_frame : (W : Desktop) → DlvApp → DlvFrame W
new_frame W a = record {
  app = a;
  channel_notebook = W.new_notebook;
  pages = [];
  waiting_first_channel = true;
  menu_bar = setup_menu_bar;
  tool_bar = setup_tool_bar;
  status = none;
  destroyed = false;
}

-- A page by its address, and the pages with another in its place.
unfoldable pub page_at : (W : Desktop) → ℕ → DlvFrame W → Result (DlvChannelPage W.lists)
page_at W zero f = err use_after_free
page_at W (suc i) f = elim (get_elem? f.pages i) [
  | none ↦ err use_after_free
  | some p ↦ or_fault p use_after_free
]

unfoldable pub put_page : (W : Desktop) → ℕ → DlvChannelPage W.lists → DlvFrame W → DlvFrame W
put_page W zero p f = f
put_page W (suc i) p f = record f { pages = set f.pages i (some p) }

-- A page is deleted; a null pointer is left alone.
unfoldable pub free_page : (W : Desktop) → ℕ → DlvFrame W → DlvFrame W
free_page W zero f = f
free_page W (suc i) f = record f { pages = set f.pages i none }

-- The loop of `DoSubscribeChannel` that finds the tab with a text.
unfoldable pub find_tab : Bytes → List Tab → Option (ℕ × ℕ)
find_tab text [] = none
find_tab text ((other, page) ∷ ts) =
    if bytes_eq other text
    then some (0, page)
    else elim (find_tab text ts) [ none ↦ none | some (i, page) ↦ some (suc i, page) ]

unfoldable pub do_subscribe_channel : (W : Desktop) → Dill → ℕ → Bool → DlvFrame W → DlvFrame W
do_subscribe_channel W dill chidx true f =
    let chname = W.from_utf8 (get_channel_name chidx f.app) in
    let page = suc (length f.pages) in
    record f {
      app = (subscribe_channel dill chidx page true f.app).1;
      channel_notebook = W.add_page page chname f.channel_notebook;
      pages = f.pages ++ (some (new_page W.lists live W.new_list W.new_list) ∷ []);
    }
do_subscribe_channel W dill chidx false f =
    let chname = W.from_utf8 (get_channel_name chidx f.app) in
    let f' = record f { app = (subscribe_channel dill chidx 0 false f.app).1 } in
    elim (find_tab chname (W.tabs f.channel_notebook)) [
      | none ↦ f'
      | some (i, page) ↦ record (free_page W page f') {
        channel_notebook = W.delete_page i f.channel_notebook;
      }
    ]

unfoldable pub on_update_conn_stat :
    (W : Desktop) → Dill → DlvEvtDataConnStatus → DlvFrame W → DlvFrame W
on_update_conn_stat W dill d f =
    let f' = record f { status = some d } in
    if f.waiting_first_channel && ltb 0 d.channel_num
    then record (do_subscribe_channel W dill 0 true f') {
      waiting_first_channel = false;
      menu_bar = enable_item (dlv tool_subscribe) true f.menu_bar;
      tool_bar = enable (dlv tool_subscribe) true f.tool_bar;
    }
    else f'

-- What is done to the page of a channel, if it has one.
unfoldable pub with_page :
    (W : Desktop)
    → ℕ
    → (DlvChannelPage W.lists → Result (DlvChannelPage W.lists))
    → DlvFrame W
    → Result (DlvFrame W)
with_page W channel act f = get_channel_page_by_id channel f.app >>= λ page.
    if page == 0
    then ok f
    else (page_at W page f >>= λ p. act p >>= λ p'. ok (put_page W page p' f))

unfoldable pub on_dill_log_data : (W : Desktop) → DlvEvtDataLog → DlvFrame W → Result (DlvFrame W)
on_dill_log_data W d f = with_page W d.channel (on_append_log W.lists W.date d) f

unfoldable pub on_dill_register_update :
    (W : Desktop) → DlvEvtDataRegister → DlvFrame W → Result (DlvFrame W)
on_dill_register_update W d f = with_page W d.channel (λ p. ok (on_update_register W.lists d p)) f

-- `OnClose`, also by way of `OnQuit`.
unfoldable pub on_close : {W : Desktop} → DlvFrame W → DlvFrame W
on_close f = record f { app = set_quiting f.app; destroyed = true }

-- The table of the events that the application posts.
unfoldable pub on_dill_event :
    (W : Desktop) → Dill → DlvDillEvent → DlvFrame W → Result (DlvFrame W)
on_dill_event W dill (conn_stat d) f = ok (on_update_conn_stat W dill d f)
on_dill_event W dill (log_data d) f = on_dill_log_data W d f
on_dill_event W dill (reg_data d) f = on_dill_register_update W d f

-- The user acts on a page; a deleted one gets no events.
unfoldable pub on_page_clicked : (W : Desktop) → ℕ → PageEvent → DlvFrame W → Result (DlvFrame W)
on_page_clicked W page e f = elim (page_at W page f) [
  | err fault ↦ ok f
  | ok p ↦ on_page_event W.lists W.date e p >>= λ p'. ok (put_page W page p' f)
]
