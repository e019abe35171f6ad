-- ===== src/Lifetime/Server.antt =====
-- The two threads of a server, libdill/src/server_netio.cpp: its own, which runs `operator()`, and the
-- one that runs the destructor. A turn of a thread goes up to its next access of a member that both
-- threads use: `_sig_exit`, `_iowork`, and the `io_service` once it is stopped.
pub mod Memory
pub mod Teardown
pub mod Threads
pub mod Released
pub mod Ends
use dill.Base.{ℕ, ◌≡◌, Bool, true, false, List, ◌∷◌, ◌++◌, Result, ok, ◌>>=◌, ◌==◌, if◌then◌else◌}
use dill.Server.State.{
  Pending, DillServer, accepting, reading_length, reading_content, writing, disconnecting,
  register_event_callback,
}
use dill.Server.Loop.{new_server, leave_loop, Outcome, handle, async_accept, Allocates}
use dill.Protocol.Ops.{ec_succeed}
use dill.Lifetime.{release_socket, non_null, access, release, live, delete, Pointer, null}

-- How far the destructor is: not begun, or having set `_sig_exit`, deleted `_iowork`, stopped the
-- `io_service`, joined the thread, or freed the rest.
pub data Owner : Type 0 where
  in_use exiting unworked stopping joined destroyed : Owner

-- How far the thread is: not begun, before the test of its loop, in `run_one`, behind the loop, or
-- at its end.
pub data Body : Type 0 where
  begins tests runs leaves ended : Body

pub record ServerLife : Type 0 where
  pub server : DillServer
  pub sig_exit : Bool
  pub iosvc : Pointer
  -- Whether `_iosvc->stop()` has been called.
  pub stopped : Bool
  pub iowork : Pointer
  pub server_socket : Pointer
  pub client_socket : Pointer
  pub acceptor : Pointer
  pub thread : Pointer
  pub owner : Owner
  pub body : Body

-- The constructor.
unfoldable pub new_life : Bool → ℕ → ℕ → ServerLife
new_life bound bufsize channels = record {
  server = new_server bound bufsize channels;
  sig_exit = false;
  iosvc = live;
  stopped = false;
  iowork = null;
  server_socket = live;
  client_socket = live;
  acceptor = if bound then live else null;
  thread = live;
  owner = in_use;
  body = begins;
}

-- `operator()` up to its loop. The first `asyncAccept` uses the acceptor and the socket.
unfoldable pub begin : ServerLife → Result ServerLife
begin l =
    if l.server.status == ec_succeed
    then (access l.iosvc tt >>= λ _. access l.acceptor tt >>= λ _.
        access l.client_socket tt >>= λ _.
        ok (record l { iowork = live; server = async_accept l.server; body = tests }))
    else ok (record l { body = ended })

-- A turn of the thread. Within `run_one` it waits, until the `io_service` is stopped or some
-- operation completes.
unfoldable pub body_turn : ServerLife → Result ServerLife
body_turn l = elim l.body [
  | begins ↦ begin l
  | tests ↦ if l.sig_exit then ok (record l { body = leaves }) else ok (record l { body = runs })
  | runs ↦ access l.iosvc (if l.stopped then record l { body = tests } else l)
  | leaves ↦ access l.iosvc (record l { server = leave_loop l.server; body = ended })
  | ended ↦ ok l
]

unfoldable pub is_ended : Body → Bool
is_ended begins = false
is_ended tests = false
is_ended runs = false
is_ended leaves = false
is_ended ended = true

-- The thread is joined and deleted; `join` waits for its end.
unfoldable pub join : ServerLife → Result ServerLife
join l =
    if non_null l.thread
    then (if is_ended l.body
        then (release l.thread >>= λ thread. ok (record l { thread = thread; owner = joined }))
        else ok l)
    else ok (record l { owner = joined })

-- The sockets, the acceptor and the `io_service` are freed.
unfoldable pub free_rest : ServerLife → Result ServerLife
free_rest l = do
  client_socket ← release_socket l.iosvc l.client_socket
  acceptor ← release_socket l.iosvc l.acceptor
  server_socket ← release_socket l.iosvc l.server_socket
  iosvc ← release l.iosvc
  ok (record l {
    client_socket = client_socket;
    acceptor = acceptor;
    server_socket = server_socket;
    iosvc = iosvc;
    owner = destroyed;
  })

-- A turn of the destructor.
unfoldable pub owner_turn : ServerLife → Result ServerLife
owner_turn l = elim l.owner [
  | in_use ↦ ok (record l { sig_exit = true; owner = exiting })
  | exiting ↦
      if non_null l.iosvc
      then (delete l.iowork >>= λ iowork. ok (record l { iowork = iowork; owner = unworked }))
      else ok (record l { owner = stopping })
  | unworked ↦ access l.iosvc (record l { stopped = true; owner = stopping })
  | stopping ↦ join l
  | joined ↦ free_rest l
  | destroyed ↦ ok l
]

-- What becomes of `_client_socket`: a connection takes it over, or it is deleted; then there is a
-- new one.
unfoldable pub next_socket : Pending → Bool → Pointer → Result Pointer
next_socket accepting true p = access p live
next_socket accepting false p = delete p >>= λ _. ok live
next_socket (reading_length conn) success p = ok p
next_socket (reading_content conn size) success p = ok p
next_socket (writing conn frame) success p = ok p
next_socket (disconnecting conn) success p = ok p

-- `run_one` with an operation that has left the queue.
unfoldable pub complete : Pending → Outcome → ServerLife → Result ServerLife
complete op o l = do
  s ← handle op o l.server
  client_socket ← next_socket op o.success l.client_socket
  access l.iosvc (record l { server = s; client_socket = client_socket; body = tests })

-- A turn of either thread. Operations complete in a way that `Q` allows, and the program may
-- register its callback before it destroys the server.
pub data Turn (Q : Pending → Outcome → Type 0) (l : ServerLife) (r : Result ServerLife)
    : Type 0 where
  by_owner : r ≡ owner_turn l → Turn Q l r
  by_body : r ≡ body_turn l → Turn Q l r
  completes :
      (before after : List Pending) (op : Pending) (o : Outcome)
      → l.body ≡ runs
      → l.stopped ≡ false
      → l.server.pending ≡ before ++ (op ∷ after)
      → Allocates op o l.server
      → Q op o
      → r ≡ complete op o (record l { server = record l.server { pending = before ++ after } })
      → Turn Q l r
  registers :
      (fn : Bool)
      → l.owner ≡ in_use
      → r ≡ ok (record l { server = register_event_callback fn l.server })
      → Turn Q l r

-- The states that turns lead to.
pub data Turns (Q : Pending → Outcome → Type 0) (l : ServerLife) : ServerLife → Type 0 where
  here : Turns Q l l
  turn : {m n : ServerLife} → Turns Q l m → Turn Q m (ok n) → Turns Q l n
