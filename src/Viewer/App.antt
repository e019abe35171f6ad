-- ===== src/Viewer/App.antt =====
-- dlv/dlv_app.cpp, the class `DlvApp`: the channels that the viewer knows, with the page that each is
-- shown on, and the events for its frame. A page is named by its address; 0 is the null pointer.
-- `from_utf8` stands for `wxString::FromUTF8`.
pub mod Refresh
pub mod Mirror
use dill.Base.{
  ℕ, zero, suc, ◌+◌, ◌-◌, ◌*◌, ◌/◌, ◌%◌, ◌^◌, ◌≤◌, ◌<◌, min, ◌≡◌, refl, sym, ap, ◌∙◌, subst, ◌≢◌,
  ◌↔◌, ◌⊎◌, inl, inr, Bool, true, false, not, ◌&&◌, ◌||◌, Option, none, some, List, [], ◌∷◌, ◌++◌,
  map, append-nil, append_assoc, arith, Bytes, u16, u32, c_str, overwrite, Fault, use_after_free,
  null_string, out_of_bounds, Result, ok, err, ◌>>=◌, or_fault, invert, length-overwrite,
  take-overwrite, ltb, leb, ◌==◌, if◌then◌else◌, ==_iff, ==_refl, Bool-cases, Option-cases, dec_le,
  dec_lt, ℕ_discrete, not-==, bytes_eq, bytes_eq→eq, bytes_eq_refl, bytes_eq_sym, length, get_elem?,
  set, take, drop, replicate, length-replicate, length-append, length-take, length-drop, take_all,
  length-set, get_elem?-lt, get_elem?-ge, get_elem?-none, get_elem?-append_left,
  get_elem?-append_last, get_elem?-some, length-map, All, All-append, All-set, All-get_elem?,
  All-map, set_insert, set_erase, contains, All-set_insert, All-set_erase, IsOrdered,
  set_insert-IsOrdered, set_erase-IsOrdered, contains-set_insert, contains-set_erase, StringMap,
  map_put, map_find, map_find-map_put,
}
use dill.Protocol.Ops.{event_log, event_reg, ec_succeed}
use dill.Api.Log.{default_port}
use dill.Server.Event.{DillEvent}
use dill.Viewer.Events.{DlvDillEvent, conn_stat, log_data, reg_data}

-- What the calls of libdill return, which ask the server: an argument counts the calls before.
pub record Dill : Type 0 where
  pub available_channels : ℕ → ℕ
  pub get_channel_name : ℕ → ℕ → Bytes
  pub subscribe_channel : ℕ → Bool

pub record ChannelData : Type 0 where
  pub page : ℕ
  pub name : Bytes

-- What `OnInit` starts: a subscriber of the server at an address, or a server and its subscriber.
pub data Started : Type 0 where
  nothing : Started
  subscriber_of : Bytes → ℕ → Started
  server_and_subscriber : Started

pub record DlvApp : Type 0 where
  pub started : Started
  pub channel_data : List ChannelData
  pub server_addr : Bytes
  pub server_port : ℕ
  pub timer_runs : Bool
  pub quiting : Bool
  pub posted : List DlvDillEvent
  pub calls : ℕ

unfoldable pub is_quiting : DlvApp → Bool
is_quiting a = a.quiting

unfoldable pub set_quiting : DlvApp → DlvApp
set_quiting a = record a { timer_runs = false; quiting = true }

-- `wxPostEvent` to the frame.
abbrev pub post_event : DlvDillEvent → DlvApp → DlvApp
post_event e a = record a { posted = a.posted ++ (e ∷ []) }

-- An event of another type trips an assertion, which a release build leaves out.
unfoldable pub dill_callback : (Option Bytes → Bytes) → DillEvent → DlvApp → DlvApp
dill_callback from_utf8 e a =
    if is_quiting a
    then a
    else (if e.type == event_log
        then post_event
            (log_data (record {
              priority = e.priority;
              channel = e.id;
              tag = from_utf8 e.tag;
              message = from_utf8 e.content;
              timestamp_sec = e.timestamp1;
              timestamp_ms = e.timestamp2 / 1000;
            }))
            a
        else (if e.type == event_reg
            then post_event
                (reg_data (record {
                  channel = e.id;
                  register = from_utf8 e.tag;
                  content = from_utf8 e.content;
                }))
                a
            else a))

unfoldable pub get_channel_name : ℕ → DlvApp → Bytes
get_channel_name id a = elim (get_elem? a.channel_data id) [ none ↦ [] | some d ↦ c_str d.name ]

unfoldable pub get_channel_names : DlvApp → List Bytes
get_channel_names a = map (λ d. d.name) a.channel_data

-- There is no test of `id`.
unfoldable pub get_channel_page_by_id : ℕ → DlvApp → Result ℕ
get_channel_page_by_id id a = elim (get_elem? a.channel_data id) [
  | none ↦ err out_of_bounds
  | some d ↦ ok d.page
]

unfoldable pub subscribe_channel : Dill → ℕ → ℕ → Bool → DlvApp → Bool × DlvApp
subscribe_channel dill channel_id page_id subscribe a = elim (get_elem? a.channel_data channel_id) [
  | none ↦ (false, a)
  | some d ↦
      let a' = record a { calls = a.calls + 1 } in
      if dill.subscribe_channel a.calls
      then (
        true,
        record a' {
          channel_data =
              set a.channel_data channel_id (record d { page = if subscribe then page_id else 0 });
        },
      )
      else (false, a')
]

unfoldable pub is_named_subscribed : Bytes → List ChannelData → Bool
is_named_subscribed name [] = false
is_named_subscribed name (d ∷ ds) =
    if bytes_eq d.name name then not (d.page == 0) else is_named_subscribed name ds

unfoldable pub is_channel_subscribed : Bytes → DlvApp → Bool
is_channel_subscribed name a = is_named_subscribed name a.channel_data

unfoldable pub is_channel_id_subscribed : ℕ → DlvApp → Bool
is_channel_id_subscribed id a = elim (get_elem? a.channel_data id) [
  | none ↦ false
  | some d ↦ not (d.page == 0)
]

-- The first loop of `refreshChannelData`, with fuel: each round asks for the number of channels, and
-- for the name of the next one.
unfoldable pub load_channels : Dill → ℕ → DlvApp → Option DlvApp
load_channels dill zero a = none
load_channels dill (suc fuel) a =
    let i = length a.channel_data in
    let d : ChannelData = record { page = 0; name = dill.get_channel_name (a.calls + 1) i } in
    let rest =
      load_channels dill fuel
        (record a { channel_data = a.channel_data ++ (d ∷ []); calls = a.calls + 2 }) in
    if ltb i (dill.available_channels a.calls)
    then rest
    else some (record a { calls = a.calls + 1 })

-- The inner loop that pairs: the first channel of the name gets the page.
unfoldable pub pair_page : ChannelData → List ChannelData → List ChannelData
pair_page old [] = []
pair_page old (d ∷ ds) =
    if bytes_eq d.name old.name then record d { page = old.page } ∷ ds else d ∷ pair_page old ds

unfoldable pub pair_pages : List ChannelData → List ChannelData → List ChannelData
pair_pages [] ds = ds
pair_pages (old ∷ olds) ds = pair_pages olds (if old.page == 0 then ds else pair_page old ds)

unfoldable pub refresh_channel_data : Dill → ℕ → Bool → DlvApp → Option DlvApp
refresh_channel_data dill fuel full_refresh a =
    if full_refresh
    then elim (load_channels dill fuel (record a { channel_data = [] })) [
      | none ↦ none
      | some a' ↦ some (record a' { channel_data = pair_pages a.channel_data a'.channel_data })
    ]
    else load_channels dill fuel a

unfoldable pub update_connection_status : Dill → ℕ → DlvApp → Option DlvApp
update_connection_status dill fuel a =
    if a.quiting
    then some a
    else (let channel_num = dill.available_channels a.calls in
        let size = length a.channel_data in
        let a' = record a { calls = a.calls + 1 } in
        let stat = conn_stat (record {
          server_addr = a.server_addr;
          server_port = a.server_port;
          channel_num = channel_num;
        }) in
        if channel_num == size
        then some (post_event stat a')
        else elim (refresh_channel_data dill fuel (ltb channel_num size) a') [
          | none ↦ none
          | some a'' ↦ some (post_event stat a'')
        ])

-- `OnTimeout`.
unfoldable pub on_timeout : Dill → ℕ → DlvApp → Option DlvApp
on_timeout dill fuel a = update_connection_status dill fuel a

-- The application before its first call of libdill.
abbrev pub new_app : Started → Bytes → ℕ → DlvApp
new_app started server_addr server_port = record {
  started = started;
  channel_data = [];
  server_addr = server_addr;
  server_port = server_port;
  timer_runs = false;
  quiting = false;
  posted = [];
  calls = 0;
}

-- The end of `OnInit`: the status is asked for, and the timer is started.
unfoldable pub run_app : Dill → ℕ → DlvApp → Option (Bool × DlvApp)
run_app dill fuel a = elim (update_connection_status dill fuel a) [
  | none ↦ none
  | some a' ↦ some (true, record a' { timer_runs = true })
]

-- `OnInit`, with the arguments of the command line behind the program's name. `to_long` is
-- `wxString::ToLong`, and `junk` what `port` holds where it fails. `error_code` is the result of
-- `serverInit`, and `default_addr` the text of `DILL_DEFAULT_ADDR`.
unfoldable pub on_init :
    (Bytes → Option ℕ) → ℕ → ℕ → Bytes → Dill → ℕ → List Bytes → Option (Bool × DlvApp)
on_init to_long junk error_code default_addr dill fuel [] =
    if error_code == ec_succeed
    then run_app dill fuel (new_app server_and_subscriber default_addr default_port)
    else some (false, new_app nothing default_addr default_port)
on_init to_long junk error_code default_addr dill fuel (addr ∷ []) =
    run_app dill fuel (new_app (subscriber_of addr default_port) addr default_port)
on_init to_long junk error_code default_addr dill fuel (addr ∷ port ∷ rest) =
    let number : ℕ = elim (to_long port) [ none ↦ junk | some n ↦ n ] in
    run_app dill fuel (new_app (subscriber_of addr number) addr number)

-- `OnExit`: the timer is deleted, and the subscriber and the server are stopped.
unfoldable pub on_exit : DlvApp → DlvApp
on_exit a = record a { timer_runs = false; started = nothing }
