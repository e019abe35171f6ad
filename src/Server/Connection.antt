-- ===== src/Server/Connection.antt =====
-- The handlers of a connection: libdill/src/server_conn.cpp. `conn` is the address of the
-- connection, `this`. The traces are left out.
use dill.Base.{
  ℕ, Bool, ◌&&◌, ◌||◌, Option, none, some, [], Bytes, c_str, overwrite, null_string, Result, ok,
  ◌>>=◌, or_fault, ltb, ◌==◌, if◌then◌else◌, length, set,
}
use dill.Protocol.{DillParcel, inflate}
use dill.Protocol.Wire.{get_u16}
use dill.Protocol.Ops.{
  is_log, priority_register, priority_publish, priority_subscribe, priority_unsubscribe,
  priority_availch, priority_reply_ok, priority_reply_full,
}
use dill.Channel.{DillServerChannel, update_channel, attach_subscriber, detach_subscriber}
use dill.Server.State.{
  WorkingMode, mode_unknown, mode_publisher, mode_subscriber, DillServerConnection, reading_length,
  reading_content, DillServer, set_conn, deref, start, callback, schedule_disconnect, ptrval,
  async_write_parcel, write_all,
}
use dill.Server.Registry.{
  get_channel_data, find_channel_by_name, create_channel_data, get_available_channels,
  get_channel_name,
}

-- The constructor; the two buffers hold whatever the memory held.
unfoldable pub new_connection : Bytes → Bytes → DillServerConnection
new_connection rdbuf wtbuf = record {
  mode = mode_unknown;
  chname = [];
  expecting_size = 0;
  rdbuf = rdbuf;
  wtbuf = wtbuf;
}

-- The fields of `this` are given anew.
abbrev pub put_conn : ℕ → DillServerConnection → DillServer → DillServer
put_conn conn c s = record s { conns = set_conn conn c s.conns }

-- The channel with the given index is given anew; channels carry their index as `ID`.
abbrev pub put_channel : ℕ → DillServerChannel → DillServer → DillServer
put_channel id c s = record s { channel_data = set s.channel_data id c }

unfoldable pub async_read_parcel : ℕ → DillServer → DillServer
async_read_parcel conn s = start (reading_length conn) s

unfoldable pub async_read_parcel_content : ℕ → ℕ → DillServer → DillServer
async_read_parcel_content conn size s = start (reading_content conn size) s

-- `onPublisherParcel`, the cases of the logs and of DILL_PRIORITY_REGISTER.
unfoldable pub on_update : DillParcel → DillServer → Result DillServer
on_update p s = elim (get_channel_data p.id s) [
  | none ↦ ok s
  | some c ↦
      let (c', writes) = update_channel c p in
      (write_all writes (put_channel p.id c' s) >>= λ s.
      ok (
        callback p.op p.id p.timestamp1 p.timestamp2 (some (c_str p.str1)) (some (c_str p.str2)) s))
]

-- The channel of a name, made if there is none; `none` when there is no room for it.
unfoldable pub find_or_create : Bytes → DillServer → Option DillServerChannel × DillServer
find_or_create name s = elim (find_channel_by_name (some name) s) [
  | some c ↦ (some c, s)
  | none ↦ create_channel_data (some name) s
]

-- The reply to a publisher.
unfoldable pub publish_reply : Option DillServerChannel → DillParcel
publish_reply channel = record {
  op = elim channel [ some c ↦ priority_reply_ok | none ↦ priority_reply_full ];
  id = elim channel [ some c ↦ c.id | none ↦ 0 ];
  timestamp1 = 0;
  timestamp2 = 0;
  str1 = [];
  str2 = [];
}

-- `onPublisherParcel`, the case of DILL_PRIORITY_PUBLISH.
unfoldable pub on_publish : ℕ → DillParcel → DillServer → Result DillServer
on_publish conn p s = do
  c ← deref conn s
  let name = c_str p.str1
  let (channel, s) = find_or_create name (put_conn conn (record c { chname = p.str1 }) s)
  s ← async_write_parcel conn (publish_reply channel) s
  ok (callback priority_publish (ptrval conn) 0 0 (some name) none s)

unfoldable pub on_publisher_parcel : ℕ → DillParcel → DillServer → Result DillServer
on_publisher_parcel conn p s =
    if is_log p.op || p.op == priority_register
    then on_update p s
    else (if p.op == priority_publish then on_publish conn p s else ok s)

-- `onSubscribeParcel`, the case of DILL_PRIORITY_AVAILCH. A string is assigned the null pointer if
-- the channel asked for does not exist.
unfoldable pub on_availch : ℕ → DillParcel → DillServer → Result DillServer
on_availch conn p s =
    let reply = record p { timestamp1 = get_available_channels s; timestamp2 = 0 } in
    if ltb 0 (get_available_channels s)
    then (or_fault (get_channel_name p.id s) null_string >>= λ name.
        async_write_parcel conn (record reply { str1 = name }) s)
    else async_write_parcel conn reply s

-- `onSubscribeParcel`, the case of DILL_PRIORITY_SUBSCRIBE.
unfoldable pub on_subscribe : ℕ → DillParcel → DillServer → Result DillServer
on_subscribe conn p s = elim (get_channel_data p.id s) [
  | none ↦ ok s
  | some c ↦
      let (c', writes) = attach_subscriber c conn in
      (write_all writes (put_channel p.id c' s) >>= λ s.
      ok (callback priority_subscribe (ptrval conn) 0 0 (some (c_str c.name)) none s))
]

-- `onSubscribeParcel`, the case of DILL_PRIORITY_UNSUBSCRIBE.
unfoldable pub on_unsubscribe : ℕ → DillParcel → DillServer → DillServer
on_unsubscribe conn p s = elim (get_channel_data p.id s) [
  | none ↦ s
  | some c ↦
      callback priority_unsubscribe (ptrval conn) 0 0 (some (c_str c.name)) none
        (put_channel p.id (detach_subscriber c conn) s)
]

unfoldable pub on_subscribe_parcel : ℕ → DillParcel → DillServer → Result DillServer
on_subscribe_parcel conn p s =
    if p.op == priority_availch
    then on_availch conn p s
    else (if p.op == priority_subscribe
        then on_subscribe conn p s
        else (if p.op == priority_unsubscribe then ok (on_unsubscribe conn p s) else ok s))

-- The labels of `onParcel` that make the peer a publisher, and those that make it a subscriber.
unfoldable pub is_publisher_op : ℕ → Bool
is_publisher_op op = is_log op || (op == priority_publish || op == priority_register)

unfoldable pub is_subscriber_op : ℕ → Bool
is_subscriber_op op =
    op == priority_availch || (op == priority_subscribe || op == priority_unsubscribe)

unfoldable pub on_parcel : ℕ → DillParcel → DillServer → Result DillServer
on_parcel conn p s = do
  c ← deref conn s
  if is_publisher_op p.op
      then on_publisher_parcel conn p (put_conn conn (record c { mode = mode_publisher }) s)
      else (if is_subscriber_op p.op
          then on_subscribe_parcel conn p (put_conn conn (record c { mode = mode_subscriber }) s)
          else ok s)

-- The `switch` of `onReadParcelContentFinished`.
unfoldable pub on_mode : WorkingMode → ℕ → DillParcel → DillServer → Result DillServer
on_mode mode_publisher conn p s = on_publisher_parcel conn p s
on_mode mode_subscriber conn p s = on_subscribe_parcel conn p s
on_mode mode_unknown conn p s = on_parcel conn p s

-- `boost::asio` has put `bytes` at the start of `_rdbuf` when it calls a handler of a read; the
-- number of bytes transferred is the length of `bytes`.
unfoldable pub on_read_parcel_length_finished : ℕ → Bool → Bytes → DillServer → Result DillServer
on_read_parcel_length_finished conn success bytes s = do
  c ← deref conn s
  let rdbuf = overwrite bytes c.rdbuf
  if success && length bytes == 2
      then (get_u16 rdbuf >>= λ (size, _). ok (
          async_read_parcel_content conn size
            (put_conn conn (record c { rdbuf = rdbuf; expecting_size = size }) s)))
      else ok (schedule_disconnect conn (put_conn conn (record c { rdbuf = rdbuf }) s))

unfoldable pub on_read_parcel_content_finished : ℕ → Bool → Bytes → DillServer → Result DillServer
on_read_parcel_content_finished conn success bytes s = do
  c ← deref conn s
  let rdbuf = overwrite bytes c.rdbuf
  let s = put_conn conn (record c { rdbuf = rdbuf }) s
  if success && length bytes == c.expecting_size
      then (inflate rdbuf >>= λ (_, p).
          on_mode c.mode conn p s >>= λ s. ok (async_read_parcel conn s))
      else ok (schedule_disconnect conn s)

-- Only a failed write touches the connection.
unfoldable pub on_write_parcel_finished : ℕ → Bool → DillServer → Result DillServer
on_write_parcel_finished conn success s =
    if success then ok s else (deref conn s >>= λ _. ok (schedule_disconnect conn s))
