-- ===== src/Lifetime/Agent.antt =====
-- A log agent (libdill/src/log.cpp) over its connection (libdill/src/client_netio.cpp), while one
-- thread constructs, uses and destroys it, and the thread of the connection runs its loop. A turn of a
-- thread goes up to its next access of something that both use.
pub mod Steady
pub mod Memory
pub mod Races
pub mod Faults
pub mod Ends
pub mod Happens
use dill.Lifetime.{Pointer, unset, null, live, deleted, delete, access, non_null}
use dill.Agent.{DillLogAgent, new_agent, on_started, post, upcall}
use dill.Client.{
  ClientIo, ClientOp, connecting, reading_length, reading_content, writing, Upcall, new_client,
  start, reset_socket, on_connect_finished, on_read_parcel_length_finished,
  on_read_parcel_content_finished, on_write_parcel_finished,
}
use dill.Protocol.{DillParcel}
use dill.Base.{
  ℕ, ◌≡◌, Bool, true, false, Option, none, some, List, [], ◌∷◌, ◌++◌, Bytes, c_str,
  pure_virtual_call, Result, ok, err, ◌>>=◌, if◌then◌else◌, length,
}

-- How far the constructors and the destructor are: the constructor of the base class has started the
-- thread, has returned; the agent is constructed; `stop` has set `_sig_exit`, deleted `_iowork`,
-- cancelled the socket, joined the thread; the rest is freed.
pub data Owner : Type 0 where
  constructs initialises in_use exiting unworked cancelled joined destroyed : Owner

-- How far the thread is: not begun, before the call of `onStarted`, before the test of its loop, in
-- `run_one`, or at its end.
pub data Body : Type 0 where
  begins starts tests runs ended : Body

pub record AgentLife : Type 0 where
  pub agent : DillLogAgent
  pub impl : Pointer
  pub iosvc : Pointer
  pub socket : Pointer
  pub iowork : Pointer
  pub thread : Pointer
  pub data_mtx : Pointer
  pub owner : Owner
  pub body : Body

-- The constructor of the base class up to the return of `start`. The members of the agent are what
-- the memory happens to hold, `junk`.
unfoldable pub new_life : DillLogAgent → ℕ → Bytes → Bytes → Bytes → AgentLife
new_life junk port addr rd_buf wt_buf = record {
  agent = record junk { io = start (new_client port (c_str addr) rd_buf wt_buf) };
  impl = live;
  iosvc = live;
  socket = live;
  iowork = unset;
  thread = live;
  data_mtx = unset;
  owner = constructs;
  body = begins;
}

-- Whether the object is still one of the base class, whose virtual functions are pure.
unfoldable pub is_base : Owner → Bool
is_base constructs = true
is_base initialises = false
is_base in_use = false
is_base exiting = false
is_base unworked = false
is_base cancelled = false
is_base joined = false
is_base destroyed = false

unfoldable pub is_ended : Body → Bool
is_ended begins = false
is_ended starts = false
is_ended tests = false
is_ended runs = false
is_ended ended = true

-- Whether `run_one` has nothing to wait for: no operation is pending, and the work object is gone.
unfoldable pub is_idle : AgentLife → Bool
is_idle l = elim l.agent.io.pending [
  | [] ↦ elim l.iowork [ unset ↦ false | null ↦ false | live ↦ false | deleted ↦ true ]
  | op ∷ ops ↦ false
]

-- A turn of the thread, `operator()`. Within `run_one` it waits.
unfoldable pub body_turn : AgentLife → Result AgentLife
body_turn l = elim l.body [
  | begins ↦ access l.iosvc (record l { iowork = live; body = starts })
  | starts ↦
      if is_base l.owner
      then err pure_virtual_call
      else access l.socket (record l { agent = on_started l.agent; body = tests })
  | tests ↦
      if l.agent.io.sig_exit then ok (record l { body = ended }) else ok (record l { body = runs })
  | runs ↦ access l.iosvc (if is_idle l then record l { body = tests } else l)
  | ended ↦ ok l
]

-- The constructor of the agent, behind that of the base class.
unfoldable pub initialise : Bytes → AgentLife → AgentLife
initialise channel l = record l {
  agent = new_agent channel l.agent.io;
  data_mtx = live;
  owner = in_use;
}

abbrev pub with_io : ClientIo → AgentLife → AgentLife
with_io io l = record l { agent = record l.agent { io = io } }

-- `stop` as far as it sets `_sig_exit`.
unfoldable pub begin_stop : AgentLife → AgentLife
begin_stop l =
    if non_null l.thread
    then record (with_io (record l.agent.io { sig_exit = true }) l) { owner = exiting }
    else record l { owner = joined }

-- The end of `stop`: the thread is joined and deleted; `join` waits for its end.
unfoldable pub join : AgentLife → Result AgentLife
join l =
    if is_ended l.body
    then (delete l.thread >>= λ _. ok (record (with_io (record l.agent.io { running = false }) l) {
      thread = null;
      owner = joined;
    }))
    else ok l

-- The rest of the destructor of the agent, and those of its base class and of the implementation,
-- which calls `stop` again.
unfoldable pub free_rest : AgentLife → Result AgentLife
free_rest l = do
  data_mtx ← delete l.data_mtx
  iowork ← if non_null l.thread then delete l.iowork else ok l.iowork
  io ← access l.socket (reset_socket l.agent.io)
  socket ← access l.iosvc l.socket >>= delete
  iosvc ← delete l.iosvc
  impl ← delete l.impl
  ok (record (with_io io l) {
    data_mtx = data_mtx;
    iowork = iowork;
    socket = socket;
    iosvc = iosvc;
    impl = impl;
    owner = destroyed;
  })

-- A turn of the thread that owns the agent of `channel`.
unfoldable pub owner_turn : Bytes → AgentLife → Result AgentLife
owner_turn channel l = elim l.owner [
  | constructs ↦ ok (record l { owner = initialises })
  | initialises ↦ ok (initialise channel l)
  | in_use ↦ ok (begin_stop l)
  | exiting ↦ delete l.iowork >>= λ iowork. ok (record l { iowork = iowork; owner = unworked })
  | unworked ↦ access l.socket (record l { owner = cancelled })
  | cancelled ↦ join l
  | joined ↦ free_rest l
  | destroyed ↦ ok l
]

-- How an operation completes: with success or not, and the bytes that were read or written.
pub record Outcome : Type 0 where
  pub success : Bool
  pub bytes : Bytes

-- The handler of an operation that has left the queue.
unfoldable pub finish : ClientOp → Outcome → ClientIo → Result (ClientIo × Option Upcall)
finish connecting o io = ok (on_connect_finished o.success io)
finish reading_length o io = on_read_parcel_length_finished o.success o.bytes io
finish (reading_content len) o io = on_read_parcel_content_finished o.success o.bytes io
finish (writing frame) o io = ok (on_write_parcel_finished o.success (length o.bytes) io)

-- The call of the host. Its functions use members that the constructor of the agent initialises,
-- the mutex last.
unfoldable pub call_host : DillParcel → Option Upcall → AgentLife → Result AgentLife
call_host junk none l = ok l
call_host junk (some call) l =
    access l.data_mtx tt >>= λ _. upcall junk call l.agent >>= λ a. ok (record l { agent = a })

-- `run_one` with an operation that has left the queue.
unfoldable pub complete : DillParcel → ClientOp → Outcome → AgentLife → Result AgentLife
complete junk op o l = do
  (io, call) ← finish op o l.agent.io
  l ← access l.socket (with_io io l)
  l ← call_host junk call l
  ok (record l { body = tests })

-- A turn of either thread on the agent of `channel`, or a call of `post`.
pub data Turn (channel : Bytes) (l : AgentLife) (r : Result AgentLife) : Type 0 where
  by_owner : r ≡ owner_turn channel l → Turn channel l r
  by_body : r ≡ body_turn l → Turn channel l r
  completes :
      (junk : DillParcel) (before after : List ClientOp) (op : ClientOp) (o : Outcome)
      → l.body ≡ runs
      → l.agent.io.pending ≡ before ++ (op ∷ after)
      → r ≡ complete junk op o (with_io (record l.agent.io { pending = before ++ after }) l)
      → Turn channel l r
  posts :
      (pri : ℕ) (tag msg : Bytes) (seconds fraction : ℕ)
      → l.owner ≡ in_use
      → r ≡ (post pri tag msg seconds fraction l.agent >>= λ (_, a). ok (record l { agent = a }))
      → Turn channel l r

-- The states that turns lead to.
pub data Turns (channel : Bytes) (l : AgentLife) : AgentLife → Type 0 where
  here : Turns channel l l
  turn : {m n : AgentLife} → Turns channel l m → Turn channel m (ok n) → Turns channel l n
