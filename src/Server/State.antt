-- ===== src/Server/State.antt =====
-- The state of the server: `DillServerNetIoCallable` (libdill/src/server_netio.h) with its channels
-- and connections (libdill/src/server_conn.h), and the operations that it has handed to
-- `boost::asio`. A connection is named by its address; `conns` holds the connections that are
-- allocated, which are those of `_conn_set`. `pending` holds the operations that have been started
-- and whose handlers have not run; destroying a socket does not remove its operations, since
-- `boost::asio` still runs their handlers, with an error.
use dill.Base.{
  ℕ, ◌+◌, ◌%◌, Bool, Option, none, some, List, [], ◌∷◌, ◌++◌, Bytes, u32, overwrite, use_after_free,
  Result, ok, ◌>>=◌, or_fault, ◌==◌, if◌then◌else◌, take,
}
use dill.Protocol.{DillParcel, deflate_len, deflate}
use dill.Protocol.Wire.{put_u16}
use dill.Channel.{DillServerChannel, Write}
use dill.Server.Event.{DillEvent, make_event}

-- `enum WorkingMode`.
pub data WorkingMode : Type 0 where
  mode_unknown mode_publisher mode_subscriber : WorkingMode

pub record DillServerConnection : Type 0 where
  pub mode : WorkingMode
  pub chname : Bytes
  pub expecting_size : ℕ
  pub rdbuf : Bytes
  pub wtbuf : Bytes

-- An operation with its handler: `onAcceptFinished`, `onReadParcelLengthFinished`,
-- `onReadParcelContentFinished` (with the size asked for), `onWriteParcelFinished` (with the bytes
-- in the buffer when the write was started) and a posted `disconnect`.
pub data Pending : Type 0 where
  accepting : Pending
  reading_length : ℕ → Pending
  reading_content : ℕ → ℕ → Pending
  writing : ℕ → Bytes → Pending
  disconnecting : ℕ → Pending

abbrev pub Conns : Type 0
Conns = List (ℕ × DillServerConnection)

pub record DillServer : Type 0 where
  pub status : ℕ
  pub evcb : Bool
  pub bufsize : ℕ
  pub maxchannels : ℕ
  pub conns : Conns
  pub channel_data : List DillServerChannel
  pub pending : List Pending
  pub events : List (Option DillEvent)

unfoldable pub find_conn : ℕ → Conns → Option DillServerConnection
find_conn a [] = none
find_conn a ((b, c) ∷ cs) = if b == a then some c else find_conn a cs

-- A write to the fields of an allocated connection.
unfoldable pub set_conn : ℕ → DillServerConnection → Conns → Conns
set_conn a v [] = []
set_conn a v ((b, c) ∷ cs) = if b == a then (b, v) ∷ set_conn a v cs else (b, c) ∷ set_conn a v cs

-- `_conn_set.erase(conn)` and `delete conn`.
unfoldable pub erase_conn : ℕ → Conns → Conns
erase_conn a [] = []
erase_conn a ((b, c) ∷ cs) = if b == a then erase_conn a cs else (b, c) ∷ erase_conn a cs

-- An access through a pointer to a connection.
abbrev pub deref : ℕ → DillServer → Result DillServerConnection
deref a s = or_fault (find_conn a s.conns) use_after_free

-- An operation is started, or a call posted.
abbrev pub start : Pending → DillServer → DillServer
start op s = record s { pending = s.pending ++ (op ∷ []) }

-- `callback`: the registered function is called with the event.
unfoldable pub callback : ℕ → ℕ → ℕ → ℕ → Option Bytes → Option Bytes → DillServer → DillServer
callback op id ts_sec ts_frac str1 str2 s =
    if s.evcb
    then record s { events = s.events ++ (make_event op id ts_sec ts_frac str1 str2 ∷ []) }
    else s

-- `registerEventCallback`, for a pointer that may be null.
unfoldable pub register_event_callback : Bool → DillServer → DillServer
register_event_callback fn s = record s { evcb = fn }

unfoldable pub schedule_disconnect : ℕ → DillServer → DillServer
schedule_disconnect conn s = start (disconnecting conn) s

-- `DILL_PTRVAL`.
abbrev pub ptrval : ℕ → ℕ
ptrval a = a % u32

-- The bytes of `_wtbuf` after `asyncWriteParcel` has put the parcel and its length there.
abbrev pub framed : DillParcel → Bytes → Bytes
framed p wtbuf = overwrite (put_u16 (deflate_len p) ++ deflate p) wtbuf

-- `asyncWriteParcel` of a connection.
unfoldable pub async_write_parcel : ℕ → DillParcel → DillServer → Result DillServer
async_write_parcel conn p s = do
  c ← deref conn s
  let wtbuf = framed p c.wtbuf
  ok (
      start (writing conn (take (deflate_len p + 2) wtbuf))
        (record s { conns = set_conn conn (record c { wtbuf = wtbuf }) s.conns }))

-- The calls of `asyncWriteParcel` that a channel makes.
unfoldable pub write_all : List Write → DillServer → Result DillServer
write_all [] s = ok s
write_all ((conn, p) ∷ ws) s = do s ← async_write_parcel conn p s; write_all ws s
