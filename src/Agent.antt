-- ===== src/Agent.antt =====
-- libdill/src/log.cpp, the class `DillLogAgentCallable`: a client that publishes logs on a channel.
-- Each function is one critical section or handler; the traces, the lock and the pause of three
-- seconds before a new attempt to connect are left out.
pub mod Flows
pub mod Queue
pub mod Early
pub mod Stale
use dill.Base.{
  ℕ, ◌+◌, ◌%◌, Bool, true, false, List, [], ◌∷◌, ◌++◌, Bytes, u32, c_str, out_of_bounds, Result, ok,
  err, ◌>>=◌, ◌==◌, if◌then◌else◌,
}
use dill.Protocol.{DillParcel}
use dill.Protocol.Ops.{priority_publish, priority_reply_ok}
use dill.Client.{
  ClientIo, Upcall, on_connected, on_parcel_read, on_parcel_sent, on_io_error, async_connect,
  async_read_parcel, async_write_parcel,
}

pub record DillLogAgent : Type 0 where
  pub io : ClientIo
  pub queue : List DillParcel
  pub pending_logwrites : Bool
  pub loggable : Bool
  pub channel_id : ℕ
  pub channel : Bytes

unfoldable pub new_agent : Bytes → ClientIo → DillLogAgent
new_agent channel io = record {
  io = io;
  queue = [];
  pending_logwrites = false;
  loggable = false;
  channel_id = 0;
  channel = c_str channel;
}

-- `asyncWriteParcel(_queue.front().get())`; there is no front of an empty queue.
unfoldable pub write_front : DillLogAgent → Result DillLogAgent
write_front a = elim a.queue [
  | [] ↦ err out_of_bounds
  | p ∷ rest ↦ ok (record a { io = async_write_parcel p a.io })
]

-- The parcel of a log; `seconds` and `fraction` are the parts of the time since 1970.
unfoldable pub log_parcel : DillLogAgent → ℕ → Bytes → Bytes → ℕ → ℕ → DillParcel
log_parcel a pri tag msg seconds fraction = record {
  op = pri;
  id = a.channel_id;
  timestamp1 = seconds % u32;
  timestamp2 = fraction % u32;
  str1 = c_str tag;
  str2 = c_str msg;
}

-- The part of `post` under the lock.
unfoldable pub enqueue : DillParcel → DillLogAgent → Result DillLogAgent
enqueue p a =
    let a' = record a { queue = a.queue ++ (p ∷ []) } in
    if a.pending_logwrites then ok a' else write_front (record a' { pending_logwrites = true })

-- `post`, with its result; the test of `_loggable` and the part under the lock are one step.
unfoldable pub post : ℕ → Bytes → Bytes → ℕ → ℕ → DillLogAgent → Result (Bool × DillLogAgent)
post pri tag msg seconds fraction a =
    if a.loggable
    then (enqueue (log_parcel a pri tag msg seconds fraction) a >>= λ a. ok (true, a))
    else ok (false, a)

unfoldable pub on_started : DillLogAgent → DillLogAgent
on_started a = record a { loggable = false; pending_logwrites = false; io = async_connect a.io }

unfoldable pub on_error : DillLogAgent → DillLogAgent
on_error a = record a {
  loggable = false;
  queue = [];
  pending_logwrites = false;
  io = async_connect a.io;
}

-- The PUBLISH request. Its numbers are never set: `junk` is what they happen to hold.
unfoldable pub publish_request : DillParcel → Bytes → DillParcel
publish_request junk channel = record junk { op = priority_publish; str1 = channel; str2 = [] }

-- `onConnected`.
unfoldable pub connected : DillParcel → Bool → DillLogAgent → DillLogAgent
connected junk success a =
    if success
    then record a {
      io = async_read_parcel (async_write_parcel (publish_request junk a.channel) a.io);
    }
    else on_error a

-- `onParcelRead`.
unfoldable pub parcel_read : DillParcel → DillLogAgent → DillLogAgent
parcel_read p a =
    if p.op == priority_reply_ok
    then record a { loggable = true; channel_id = p.id }
    else on_error a

-- `onParcelSent` when logs are pending: `pop_front`, then the next write.
unfoldable pub next_write : DillLogAgent → Result DillLogAgent
next_write a = elim a.queue [
  | [] ↦ err out_of_bounds
  | p ∷ [] ↦ ok (record a { queue = []; pending_logwrites = false })
  | p ∷ q ∷ rest ↦ write_front (record a { queue = q ∷ rest })
]

-- `onParcelSent`.
unfoldable pub parcel_sent : Bool → DillLogAgent → Result DillLogAgent
parcel_sent succeed a =
    if succeed then (if a.pending_logwrites then next_write a else ok a) else ok (on_error a)

-- The virtual functions.
unfoldable pub upcall : DillParcel → Upcall → DillLogAgent → Result DillLogAgent
upcall junk (on_connected success) a = ok (connected junk success a)
upcall junk (on_parcel_read p) a = ok (parcel_read p a)
upcall junk (on_parcel_sent succeed) a = parcel_sent succeed a
upcall junk on_io_error a = ok (on_error a)
