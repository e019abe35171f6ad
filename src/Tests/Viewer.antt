-- ===== src/Tests/Viewer.antt =====
-- The theorems about the viewer at concrete inputs.
use dill.Base.{
  ℕ, zero, suc, ◌<◌, ◌≡◌, refl, sym, ap, ◌∙◌, ◌≢◌, ◌⊎◌, true, false, Option, none, some, List, [],
  ◌∷◌, ◌++◌, map, arith, Bytes, c_str, use_after_free, ok, err, ◌==◌, bytes_eq, get_elem?, ◌+◌, All,
  length, inr, ◌≤◌, subst,
}
use dill.Tests.Runs.{server3, published, server3-channel_data}
use dill.Server.Channels.Registry.{names_of}
use dill.Protocol.{max_str}
use dill.Channel.{new_channel}
use dill.Session.Status.{of_server, status_lem}
use dill.Tests.Desk.{list_control, desk, two_channels, no_server, app_of, channel, warn_log}
use dill.Viewer.Events.{log_data, reg_data, conn_stat, DlvEvtDataLog, DlvEvtDataRegister}
use dill.Viewer.Page.{
  DlvChannelPage, PageEvent, log_appended, register_updated, priority_selected, live, new_page,
  on_page_events,
}
use dill.Viewer.Page.Latest.{latest_lem, latest}
use dill.Viewer.Page.Registers.{shown_content}
use dill.Viewer.App.{
  ChannelData, DlvApp, pair_pages, load_channels, update_connection_status, get_channel_names,
  is_channel_id_subscribed, is_quiting,
}
use dill.Viewer.App.Refresh.{repaired_by, pair_pages_lem, load_channels_ends, Lists}
use dill.Viewer.App.Mirror.{update_connection_status_lem, refreshed, told, lost_pages}
use dill.Viewer.Frame.{
  DlvFrame, new_frame, do_subscribe_channel, on_dill_log_data, on_dill_register_update, find_tab,
}
use dill.Viewer.Frame.Steps.{IsSafe}
use dill.Viewer.Frame.Failed.{unsubscribe_failed}
use dill.Viewer.Dialog.{
  FrameEvent, dill_event, subscribe_clicked, closed, on_frame_events, on_subscribe,
}
use dill.Viewer.Dialog.Safety.{on_frame_events-IsSafe, Starts}
use dill.Viewer.Dialog.Outcome.{on_subscribe_lem}
use dill.Viewer.Bars.{setup_menu_bar, setup_tool_bar}

abbrev no_date : ℕ → ℕ → Bytes
no_date seconds milliseconds = []

abbrev register_seven : DlvEvtDataRegister
register_seven = record { channel = 0; register = 82 ∷ []; content = 55 ∷ [] }

abbrev clicks : List PageEvent
clicks =
    log_appended warn_log
    ∷ register_updated register_seven
    ∷ priority_selected 2
    ∷ log_appended warn_log
    ∷ []

latest_lem_example :
    (p : DlvChannelPage list_control) × (on_page_events list_control no_date clicks
        (new_page list_control live [] [])
      ≡ ok p)
    × ((name : Bytes) → shown_content list_control name p ≡ latest name clicks none)
latest_lem_example =
    latest_lem list_control no_date clicks live [] [] refl refl
      (omega arith, (tt, (tt, (omega arith, tt))))

abbrev name_a : Bytes
name_a = 65 ∷ []

abbrev name_b : Bytes
name_b = 66 ∷ []

abbrev old_channels : List ChannelData
old_channels = channel 4 name_b ∷ channel 0 name_a ∷ []

abbrev new_channels : List ChannelData
new_channels = channel 0 name_a ∷ channel 0 name_b ∷ []

pair_pages_lem_example :
    pair_pages old_channels new_channels ≡ map (repaired_by old_channels) new_channels
unfolding bytes_eq
pair_pages_lem_example = pair_pages_lem old_channels new_channels ((refl, tt), (tt, tt))

load_channels_ends_example :
    (a : DlvApp) × (load_channels (two_channels true) 3 (app_of []) ≡ some a)
load_channels_ends_example =
    load_channels_ends (two_channels true) 2 3 (app_of []) (λ t. omega arith) (omega arith)
      (omega arith)

abbrev two_names : List Bytes
two_names = name_a ∷ name_b ∷ []

-- The answers stay the same.
two_channels_named :
    (t i : ℕ) (name : Bytes)
    → get_elem? two_names i ≡ some name
    → (two_channels true).get_channel_name t i ≡ name
two_channels_named t zero name e = cc
two_channels_named t (suc zero) name e = cc
two_channels_named t (suc (suc i)) name e = cc

two_channels-Lists : Lists (two_channels true) two_names
two_channels-Lists = record { available = λ t. refl; named = two_channels_named }

no_server-Lists : Lists no_server []
no_server-Lists = record { available = λ t. refl; named = λ t i name e. cc }

update_connection_status_lem_example :
    (a' : DlvApp) × (update_connection_status (two_channels true) 3 (app_of (channel 4 name_a ∷ []))
      ≡ some a')
    × (a'.channel_data ≡ refreshed two_names (channel 4 name_a ∷ []))
    × (a'.posted ≡ told (app_of []) two_names ∷ [])
    × (is_quiting a' ≡ false)
    × (2 < 1
          ⊎ ((rest : List Bytes) × (two_names
                ≡ get_channel_names (app_of (channel 4 name_a ∷ [])) ++ rest))
        → get_channel_names a' ≡ two_names)
unfolding is_quiting bytes_eq
update_connection_status_lem_example =
    update_connection_status_lem (two_channels true) two_names 3 (app_of (channel 4 name_a ∷ []))
      two_channels-Lists ((refl, tt), (tt, tt)) (omega arith) refl

lost_pages_example :
    (a' a'' : DlvApp) × (update_connection_status no_server 3 (app_of (channel 4 name_a ∷ []))
      ≡ some a')
    × (a'.channel_data ≡ [])
    × (update_connection_status (two_channels true) 3 a' ≡ some a'')
    × (get_channel_names a'' ≡ two_names)
    × All (λ d. d.page ≡ 0) a''.channel_data
unfolding is_quiting bytes_eq
lost_pages_example =
    lost_pages no_server (two_channels true) two_names 3 (app_of (channel 4 name_a ∷ []))
      no_server-Lists two_channels-Lists ((refl, tt), (tt, tt)) (omega arith) refl

-- The text of a channel that may be there.
abbrev text_at : Option ChannelData → Bytes
text_at none = []
text_at (some d) = c_str d.name

names_differ : text_at (some (channel 0 name_a)) ≢ text_at (some (channel 0 name_b))
unfolding c_str
names_differ e =
    let heads : Path ℕ 65 66 = ap (λ xs. elim xs [ [] ↦ 0 | x ∷ _ ↦ x ]) e in absurd (omega arith)

-- Channels with different texts, none with a page.
new_channels_distinct :
    (i j : ℕ) (d e : ChannelData)
    → get_elem? new_channels i ≡ some d
    → get_elem? new_channels j ≡ some e
    → c_str d.name ≡ c_str e.name
    → i ≡ j
new_channels_distinct zero zero d e at at' same = refl
new_channels_distinct zero (suc zero) d e at at' same =
    absurd (names_differ (ap text_at at ∙ same ∙ sym (ap text_at at')))
new_channels_distinct (suc zero) zero d e at at' same =
    absurd (names_differ (sym (ap text_at at ∙ same ∙ sym (ap text_at at'))))
new_channels_distinct (suc zero) (suc zero) d e at at' same = refl
new_channels_distinct zero (suc (suc j)) d e at at' same = cc
new_channels_distinct (suc zero) (suc (suc j)) d e at at' same = cc
new_channels_distinct (suc (suc i)) j d e at at' same = cc

new_channels-Starts : Starts desk (two_channels true) (app_of new_channels)
new_channels-Starts = record { distinct = new_channels_distinct; no_page = (refl, (refl, tt)) }

abbrev frame_events : List FrameEvent
frame_events =
    dill_event (conn_stat (record { server_addr = []; server_port = 9876; channel_num = 2 }))
    ∷ dill_event (log_data warn_log)
    ∷ subscribe_clicked true (λ i. i == 1)
    ∷ dill_event (reg_data register_seven)
    ∷ closed
    ∷ []

on_frame_events-IsSafe_example :
    (f : DlvFrame desk) × (on_frame_events desk
        (two_channels true)
        frame_events
        (new_frame desk (app_of new_channels))
      ≡ ok f)
    × IsSafe desk f
on_frame_events-IsSafe_example =
    on_frame_events-IsSafe desk (two_channels true) frame_events (app_of new_channels)
      new_channels-Starts (λ t. refl)
      (tt, ((omega arith, omega arith), (tt, (omega arith, (tt, tt)))))

on_subscribe_lem_example :
    (on_subscribe desk
        (two_channels true)
        false
        (λ i. i == 1)
        (new_frame desk (app_of new_channels))
      ≡ new_frame desk (app_of new_channels))
    × ((i : ℕ)
        → i < 2
        → is_channel_id_subscribed i
            (on_subscribe desk
              (two_channels true)
              true
              (λ i. i == 1)
              (new_frame desk (app_of new_channels))).app
          ≡ (i == 1))
unfolding new_frame
on_subscribe_lem_example =
    on_subscribe_lem desk (two_channels true) (λ t. refl) (λ i. i == 1)
      (new_frame desk (app_of new_channels)) new_channels_distinct

-- A frame with one page, of the channel `A`.
abbrev one_page : DlvFrame desk
one_page = record {
  app = app_of (channel 1 name_a ∷ []);
  channel_notebook = (name_a, 1) ∷ [];
  pages = some (new_page list_control live [] []) ∷ [];
  waiting_first_channel = false;
  menu_bar = setup_menu_bar;
  tool_bar = setup_tool_bar;
  status = none;
  destroyed = false;
}

unsubscribe_failed_example :
    ((ev : DlvEvtDataLog)
      → ev.channel ≡ 0
      → on_dill_log_data desk ev (do_subscribe_channel desk (two_channels false) 0 false one_page)
        ≡ err use_after_free)
    × ((ev : DlvEvtDataRegister)
        → ev.channel ≡ 0
        → on_dill_register_update desk ev
            (do_subscribe_channel desk (two_channels false) 0 false one_page)
          ≡ err use_after_free)
unfolding find_tab bytes_eq c_str
unsubscribe_failed_example =
    unsubscribe_failed desk (two_channels false) 0 0 0 (channel 1 name_a)
      (some (new_page list_control live [] [])) one_page refl refl refl refl refl

server3_short : All (λ name. length name ≤ max_str) (names_of server3.channel_data)
unfolding new_channel c_str
server3_short =
    subst (λ chs. All (λ name. length name ≤ max_str) (names_of chs)) (sym server3-channel_data)
      (omega arith, tt)

-- The server has the one channel `a`, and the viewer knows none.
status_lem_example :
    (a' : DlvApp) × (update_connection_status (of_server server3 (λ t. true)) (4 + 1) (app_of [])
      ≡ some a')
    × (get_channel_names a' ≡ names_of server3.channel_data)
unfolding is_quiting get_channel_names
status_lem_example =
    status_lem true 100 4 (λ t. true) (app_of []) (omega arith) published server3_short refl
      (inr (names_of server3.channel_data, refl))
