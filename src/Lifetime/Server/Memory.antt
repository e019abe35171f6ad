-- ===== src/Lifetime/Server/Memory.antt =====
-- What holds of the pointers and connections of a server (libdill/src/server_netio.cpp) however the
-- turns of its two threads follow one another.
use dill.Lifetime.Server.{
  Owner, in_use, exiting, unworked, stopping, joined, destroyed, Body, begins, tests, runs, leaves,
  ended, new_life, begin, ServerLife, is_ended, body_turn,
}
use dill.Base.{
  ℕ, ◌≡◌, refl, sym, subst, inl, inr, Bool, true, false, [], ◌∷◌, arith, Result, ok, ◌==◌,
  if◌then◌else◌, Bool-cases,
}
use dill.Server.State.{DillServer, accepting}
use dill.Server.Loop.{async_accept, new_server, leave_loop}
use dill.Server.Safety.Invariant.{Inv, nobody, Safe, tokens-append}
use dill.Protocol.Ops.{ec_succeed}
use dill.Lifetime.{live, Pointer, IsOwned, null, access}

-- What belongs to the object before its destructor frees it.
abbrev pub Held : ServerLife → Type 0
Held l = (l.iosvc ≡ live) × (l.server_socket ≡ live) × (l.client_socket ≡ live) × IsOwned l.acceptor

-- What holds where the destructor is.
unfoldable pub Memory : Owner → ServerLife → Type 0
Memory in_use l = Held l × (l.thread ≡ live) × IsOwned l.iowork
Memory exiting l = Held l × (l.thread ≡ live) × IsOwned l.iowork × (l.sig_exit ≡ true)
Memory unworked l = Held l × (l.thread ≡ live) × (l.sig_exit ≡ true)
Memory stopping l = Held l × (l.thread ≡ live) × (l.sig_exit ≡ true) × (l.stopped ≡ true)
Memory joined l = Held l × (l.thread ≡ null) × (is_ended l.body ≡ true)
Memory destroyed l =
    (l.iosvc ≡ null)
    × (l.server_socket ≡ null)
    × (l.client_socket ≡ null)
    × (l.acceptor ≡ null)
    × (l.thread ≡ null)
    × (is_ended l.body ≡ true)

abbrev pub NothingLeft : DillServer → Type 0
NothingLeft s = (s.conns ≡ []) × (s.channel_data ≡ [])

-- What holds where the thread is.
unfoldable pub Loop : Body → ServerLife → Type 0
Loop begins l =
    (l.acceptor ≡ (if l.server.status == ec_succeed then live else null))
    × NothingLeft l.server
    × Inv nobody l.server
Loop tests l = Inv nobody l.server
Loop runs l = Inv nobody l.server
Loop leaves l = Inv nobody l.server
Loop ended l = NothingLeft l.server

pub record IsSound (l : ServerLife) : Type 0 where
  pub loop : Loop l.body l
  pub memory : Memory l.owner l

-- The thread keeps what holds where the destructor is.
pub Memory-body :
    (at : Owner) (l : ServerLife) (s : DillServer) (b : Body) (w c : Pointer)
    → is_ended l.body ≡ false
    → (IsOwned l.iowork → IsOwned w)
    → c ≡ live
    → Memory at l
    → Memory at (record l { server = s; body = b; iowork = w; client_socket = c })
unfolding Memory
Memory-body in_use l s b w c on keeps e (h, t, o) = ((h.0, h.1, e, h.3), t, keeps o)
Memory-body exiting l s b w c on keeps e (h, t, o, x) = ((h.0, h.1, e, h.3), t, keeps o, x)
Memory-body unworked l s b w c on keeps e (h, t, x) = ((h.0, h.1, e, h.3), t, x)
Memory-body stopping l s b w c on keeps e (h, t, x, y) = ((h.0, h.1, e, h.3), t, x, y)
Memory-body joined l s b w c on keeps e (h, t, x) = cc
Memory-body destroyed l s b w c on keeps e (_, _, _, _, _, x) = cc

-- While the thread has not ended, what it uses is there.
pub Memory-Held : (at : Owner) (l : ServerLife) → is_ended l.body ≡ false → Memory at l → Held l
unfolding Memory
Memory-Held in_use l on h = h.0
Memory-Held exiting l on h = h.0
Memory-Held unworked l on h = h.0
Memory-Held stopping l on h = h.0
Memory-Held joined l on h = h.0
Memory-Held destroyed l on (_, _, _, _, _, x) = cc

pub new_life-IsSound :
    (bound : Bool) (bufsize channels : ℕ) → IsSound (new_life bound bufsize channels)
unfolding new_life Memory Loop IsOwned new_server
new_life-IsSound true bufsize channels = record {
  loop = (refl, (refl, refl), record { owned = λ a. omega arith; subscribed = tt });
  memory = ((refl, refl, refl, tt), refl, tt);
}
new_life-IsSound false bufsize channels = record {
  loop = (refl, (refl, refl), record { owned = λ a. omega arith; subscribed = tt });
  memory = ((refl, refl, refl, tt), refl, tt);
}

async_accept-Inv : (s : DillServer) → Inv nobody s → Inv nobody (async_accept s)
unfolding async_accept
async_accept-Inv s v = record {
  owned = λ a. omega (arith, tokens-append a s.pending (accepting ∷ []), v.owned a);
  subscribed = v.subscribed;
}

-- The thread goes on to another place, and the server with it.
pub moves :
    (l : ServerLife) (s : DillServer) (b : Body) (w : Pointer)
    → is_ended l.body ≡ false
    → (IsOwned l.iowork → IsOwned w)
    → Loop b (record l { server = s; body = b; iowork = w })
    → Memory l.owner l
    → IsSound (record l { server = s; body = b; iowork = w })
moves l s b w on keeps v m = record {
  loop = v;
  memory =
      Memory-body l.owner l s b w l.client_socket on keeps
        (let (_, _, c, _) = Memory-Held l.owner l on m in c) m;
}

-- A turn that ends in a sound state.
pub ends : {r : Result ServerLife} (l : ServerLife) → r ≡ ok l → IsSound l → Safe IsSound r
ends l e v = subst (Safe IsSound) (sym e) v

begin-Safe :
    (l : ServerLife)
    → is_ended l.body ≡ false
    → Loop begins l
    → Memory l.owner l
    → Safe IsSound (begin l)
unfolding begin Loop access IsOwned
begin-Safe l on (accepts, none_left, v) m = elim (Bool-cases (l.server.status == ec_succeed)) [
  | inl e ↦
      let (io, _, sock, _) = Memory-Held l.owner l on m in
      ends _ (rw (e, io, accepts, e, sock) refl)
        (moves l (async_accept l.server) tests live on (λ _. tt) (async_accept-Inv l.server v) m)
  | inr e ↦ ends _ (rw e refl) (moves l l.server ended l.iowork on (λ o. o) none_left m)
]

pub body_turn-Safe :
    (b : Body) (l : ServerLife)
    → l.body ≡ b
    → Loop b l
    → Memory l.owner l
    → Safe IsSound (body_turn l)
unfolding body_turn Loop access is_ended leave_loop
body_turn-Safe begins l e v m = subst (Safe IsSound) (sym begun) (begin-Safe l (rw e refl) v m)
  where
    begun : body_turn l ≡ begin l
    begun = rw e refl
body_turn-Safe tests l e v m = elim (Bool-cases l.sig_exit) [
  | inl x ↦ ends _ (rw (e, x) refl) (moves l l.server leaves l.iowork (rw e refl) (λ o. o) v m)
  | inr x ↦ ends _ (rw (e, x) refl) (moves l l.server runs l.iowork (rw e refl) (λ o. o) v m)
]
body_turn-Safe runs l e v m =
    let io = (Memory-Held l.owner l (rw e refl) m).0 in
    elim (Bool-cases l.stopped) [
      | inl x ↦
          ends _ (rw (e, io, x) refl) (moves l l.server tests l.iowork (rw e refl) (λ o. o) v m)
      | inr x ↦ ends _ (rw (e, io, x) refl) (record { loop = rw e v; memory = m })
    ]
body_turn-Safe leaves l e v m =
    ends _ (rw (e, (Memory-Held l.owner l (rw e refl) m).0) refl)
      (moves l (leave_loop l.server) ended l.iowork (rw e refl) (λ o. o) (refl, refl) m)
body_turn-Safe ended l e v m = ends _ (rw e refl) (record { loop = rw e v; memory = m })
