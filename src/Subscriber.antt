-- ===== src/Subscriber.antt =====
-- libdill/src/subscribe.cpp, the class `DillSubscriberCallable`: a client that subscribes to channels
-- and turns what it reads into events. A question to the server is two steps of the asking thread,
-- the request and the start of its wait on `_rpc_cond`; between and after them the thread of the
-- connection runs its handlers. The traces and the pause of three seconds are left out.
pub mod Delivery
pub mod Rpc
use dill.Base.{
  ℕ, suc, ◌+◌, ◌-◌, Bool, true, false, Option, none, some, List, [], ◌∷◌, ◌++◌, Bytes, c_str, ◌==◌,
  if◌then◌else◌,
}
use dill.Server.Event.{DillEvent}
use dill.Protocol.{DillParcel}
use dill.Client.{
  on_io_error, is_connected, async_read_parcel, async_connect, Upcall, ClientIo, on_connected,
  async_write_parcel, on_parcel_read, on_parcel_sent,
}
use dill.Protocol.Ops.{
  is_log, ec_succeed, priority_subscribe, priority_availch, event_log, priority_unsubscribe,
  priority_register, event_reg, ec_unknown,
}

pub record DillSubscriber : Type 0 where
  pub io : ClientIo
  pub on_rpc : Bool
  -- Whether `_evcb` is set, and the events it has been called with.
  pub evcb : Bool
  pub events : List DillEvent
  pub availch : ℕ
  pub chname : Bytes
  -- The threads blocked in `_rpc_cond->wait`.
  pub waiting : ℕ

unfoldable pub new_subscriber : ClientIo → DillSubscriber
new_subscriber io = record {
  io = io;
  on_rpc = false;
  evcb = false;
  events = [];
  availch = 0;
  chname = [];
  waiting = 0;
}

unfoldable pub register_event_callback : Bool → DillSubscriber → DillSubscriber
register_event_callback fn s = record s { evcb = fn }

-- The parcel of a request.
abbrev pub request : ℕ → ℕ → DillParcel
request op id = record { op = op; id = id; timestamp1 = 0; timestamp2 = 0; str1 = []; str2 = [] }

unfoldable pub subscribe : ℕ → Bool → DillSubscriber → ℕ × DillSubscriber
subscribe chidx on s =
    if is_connected s.io
    then (
      ec_succeed,
      record s {
        io =
            async_write_parcel
              (request (if on then priority_subscribe else priority_unsubscribe) chidx) s.io;
      },
    )
    else (ec_unknown, s)

-- `availableChannels` and `channelName` up to the lock, for the number 0 and for that of a channel;
-- `none` when the client is not connected.
unfoldable pub ask : ℕ → DillSubscriber → Option DillSubscriber
ask chidx s =
    if is_connected s.io
    then some (record s { io = async_write_parcel (request priority_availch chidx) s.io })
    else none

-- `_on_rpc` is set and the thread blocks, which releases the lock, in one step.
unfoldable pub wait : DillSubscriber → DillSubscriber
wait s = record s { on_rpc = true; waiting = suc s.waiting }

-- `notify_one` of the condition variable: of the threads that wait, one goes on.
unfoldable pub notify_one : DillSubscriber → DillSubscriber
notify_one s = record s { waiting = s.waiting - 1 }

unfoldable pub on_started : DillSubscriber → DillSubscriber
on_started s = record s { io = async_connect s.io }

unfoldable pub on_error : DillSubscriber → DillSubscriber
on_error s =
    let s' = if s.on_rpc then notify_one (record s { availch = 0; chname = [] }) else s in
    record s' { io = async_connect s'.io }

-- `onConnected`.
unfoldable pub connected : Bool → DillSubscriber → DillSubscriber
connected success s = if success then record s { io = async_read_parcel s.io } else on_error s

-- `_evcb(&ev)`.
unfoldable pub emit : DillEvent → DillSubscriber → DillSubscriber
emit ev s = if s.evcb then record s { events = s.events ++ (ev ∷ []) } else s

-- The `switch` of `onParcelRead`.
unfoldable pub dispatch : DillParcel → DillSubscriber → DillSubscriber
dispatch p s =
    if is_log p.op
    then emit
        (record {
          type = event_log;
          priority = p.op;
          id = p.id;
          tag = some (c_str p.str1);
          content = some (c_str p.str2);
          timestamp1 = p.timestamp1;
          timestamp2 = p.timestamp2;
        })
        s
    else (if p.op == priority_register
        then emit
            (record {
              type = event_reg;
              priority = 0;
              id = p.id;
              tag = some (c_str p.str1);
              content = some (c_str p.str2);
              timestamp1 = 0;
              timestamp2 = 0;
            })
            s
        else (if p.op == priority_availch
            then notify_one (record s { availch = p.timestamp1; chname = p.str1; on_rpc = false })
            else s))

-- `onParcelRead`.
unfoldable pub parcel_read : DillParcel → DillSubscriber → DillSubscriber
parcel_read p s = let s' = dispatch p s in record s' { io = async_read_parcel s'.io }

-- `onParcelSent`.
unfoldable pub parcel_sent : Bool → DillSubscriber → DillSubscriber
parcel_sent succeed s = if succeed then s else on_error s

-- The virtual functions.
unfoldable pub upcall : Upcall → DillSubscriber → DillSubscriber
upcall (on_connected success) s = connected success s
upcall (on_parcel_read p) s = parcel_read p s
upcall (on_parcel_sent succeed) s = parcel_sent succeed s
upcall on_io_error s = on_error s
