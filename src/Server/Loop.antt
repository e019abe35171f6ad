-- ===== src/Server/Loop.antt =====
-- The event loop: `operator()`, `onAcceptFinished`, `asyncAccept` and `disconnect` of
-- libdill/src/server_netio.cpp. `boost::asio` decides which pending operation completes next, and
-- how.
use dill.Base.{
  ℕ, ◌≡◌, ◌≢◌, Bool, true, false, none, some, List, [], ◌∷◌, ◌++◌, map, Bytes, c_str, Result, ok,
  ◌>>=◌, ◌==◌, if◌then◌else◌,
}
use dill.Protocol.Ops.{priority_connected, priority_disconnected, ec_succeed, ec_bind}
use dill.Channel.{detach_subscriber}
use dill.Server.State.{
  mode_unknown, mode_publisher, mode_subscriber, DillServerConnection, Pending, accepting,
  reading_length, reading_content, writing, disconnecting, DillServer, find_conn, erase_conn, deref,
  start, callback, ptrval, register_event_callback,
}
use dill.Server.Connection.{
  new_connection, async_read_parcel, on_read_parcel_length_finished,
  on_read_parcel_content_finished, on_write_parcel_finished,
}

unfoldable pub async_accept : DillServer → DillServer
async_accept s = start accepting s

-- `address`, `rdbuf` and `wtbuf` are what the allocation of the connection gives.
unfoldable pub on_accept_finished : Bool → ℕ → Bytes → Bytes → DillServer → DillServer
on_accept_finished success address rdbuf wtbuf s =
    if success
    then async_accept (
        callback priority_connected (ptrval address) 0 0 none none (
          async_read_parcel address
            (record s { conns = (address, new_connection rdbuf wtbuf) ∷ s.conns })))
    else async_accept s

-- `isSubscriber` and `isPublisher`.
unfoldable pub is_subscriber : DillServerConnection → Bool
is_subscriber c = elim c.mode [
  | mode_unknown ↦ false
  | mode_publisher ↦ false
  | mode_subscriber ↦ true
]

unfoldable pub is_publisher : DillServerConnection → Bool
is_publisher c = elim c.mode [
  | mode_unknown ↦ false
  | mode_publisher ↦ true
  | mode_subscriber ↦ false
]

-- `disconnect`, for the address 0 of the null pointer too.
unfoldable pub disconnect : ℕ → DillServer → Result DillServer
disconnect conn s =
    if conn == 0
    then ok s
    else (deref conn s >>= λ c.
        let channels =
          (if is_subscriber c
            then map (λ ch. detach_subscriber ch conn) s.channel_data
            else s.channel_data) in
        ok (
          callback priority_disconnected (ptrval conn) (if is_publisher c then 1 else 0) 0
            (some (c_str c.chname)) none
            (record s { conns = erase_conn conn s.conns; channel_data = channels })))

-- How an operation completes: with success or not, with the bytes that were read, and for an
-- accepted connection with the memory that it is put in.
pub record Outcome : Type 0 where
  pub success : Bool
  pub transferred : Bytes
  pub address : ℕ
  pub rdbuf : Bytes
  pub wtbuf : Bytes

-- The handler of an operation that has left the queue.
unfoldable pub handle : Pending → Outcome → DillServer → Result DillServer
handle accepting o s = ok (on_accept_finished o.success o.address o.rdbuf o.wtbuf s)
handle (reading_length conn) o s = on_read_parcel_length_finished conn o.success o.transferred s
handle (reading_content conn size) o s =
    on_read_parcel_content_finished conn o.success o.transferred s
handle (writing conn frame) o s = on_write_parcel_finished conn o.success s
handle (disconnecting conn) o s = disconnect conn s

-- The constructor, where `bound` tells whether the acceptor could be bound to the port.
unfoldable pub new_server : Bool → ℕ → ℕ → DillServer
new_server bound bufsize channels = record {
  status = if bound then ec_succeed else ec_bind;
  evcb = false;
  bufsize = bufsize;
  maxchannels = channels;
  conns = [];
  channel_data = [];
  pending = [];
  events = [];
}

-- `operator()` up to its loop: the thread of a server that is not bound ends at once.
unfoldable pub enter_loop : DillServer → DillServer
enter_loop s = if s.status == ec_succeed then async_accept s else s

-- What the loop does when `_sig_exit` is set: the connections and the channels are deleted.
unfoldable pub leave_loop : DillServer → DillServer
leave_loop s = record s { conns = []; channel_data = [] }

-- What `new` promises of the address of an accepted connection: it is not in use, and not null.
abbrev pub Allocates : Pending → Outcome → DillServer → Type 0
Allocates accepting o s = (find_conn o.address s.conns ≡ none) × (o.address ≢ 0)
Allocates op o s = Unit {0}

-- One round of the loop, `run_one`: some pending operation completes, in a way that `Q` allows.
pub data RunOne (Q : Pending → Outcome → Type 0) (s : DillServer) (r : Result DillServer)
    : Type 0 where
  run_one :
      (before after : List Pending) (op : Pending) (o : Outcome)
      → s.pending ≡ before ++ (op ∷ after)
      → Allocates op o s
      → Q op o
      → r ≡ handle op o (record s { pending = before ++ after })
      → RunOne Q s r

-- The states that the loop reaches; the program may register its callback at any time.
pub data Reach (Q : Pending → Outcome → Type 0) (s : DillServer) : DillServer → Type 0 where
  here : Reach Q s s
  round : {t u : DillServer} → Reach Q s t → RunOne Q t (ok u) → Reach Q s u
  registers : {t : DillServer} (fn : Bool) → Reach Q s t → Reach Q s (register_event_callback fn t)

-- Operations complete in any way, or so that no write fails.
abbrev pub AnyOutcome : Pending → Outcome → Type 0
AnyOutcome op o = Unit {0}

abbrev pub NoWriteFails : Pending → Outcome → Type 0
NoWriteFails (writing conn frame) o = o.success ≡ true
NoWriteFails op o = Unit {0}
