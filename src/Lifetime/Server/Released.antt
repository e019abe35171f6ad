-- ===== src/Lifetime/Server/Released.antt =====
-- What the destructor of libdill/src/server_netio.cpp has freed when it is through.
use dill.Lifetime.{Pointer, null, live, deleted, delete, access, non_null, release}
use dill.Lifetime.Server.{
  ServerLife, new_life, complete, next_socket, join, free_rest, is_ended, body_turn, owner_turn,
  Turn, by_owner, by_body, completes, registers, Turns, here, turn, Owner, in_use, exiting,
  unworked, stopping, joined, destroyed, Body, begins, tests, runs, leaves, ended,
}
use dill.Server.State.{register_event_callback}
use dill.Base.{
  ℕ, ◌≡◌, refl, sym, ◌∙◌, subst, inl, inr, Bool, true, false, [], ◌++◌, Result, ok, err, ◌>>=◌,
  Bool-cases,
}
use dill.Lifetime.Server.Memory.{Memory, Memory-Held, IsSound, new_life-IsSound, Loop}
use dill.Server.Loop.{NoWriteFails, leave_loop, handle}
use dill.Lifetime.Server.Teardown.{free_rest-Safe}
use dill.Lifetime.Server.Threads.{Turns-IsSound, next_socket-live}

-- `P` holds of the value, if there is one.
abbrev Holds : {A : Type 0} → (A → Type 0) → Result A → Type 0
Holds P (ok a) = P a
Holds P (err fault) = Unit {0}

to : {A : Type 0} {r : Result A} (P : A → Type 0) (a : A) → r ≡ ok a → P a → Holds P r
to P a e h = subst (Holds P) (sym e) h

Holds-bind :
    {A B : Type 0} (P : B → Type 0) (r : Result A) (f : A → Result B)
    → ((a : A) → Holds P (f a))
    → Holds P (r >>= f)
Holds-bind P (ok a) f h = h a
Holds-bind P (err fault) f h = tt

abbrev begun : Body → Bool
begun begins = false
begun tests = true
begun runs = true
begun leaves = true
begun ended = true

-- The work object is there until the destructor deletes it.
abbrev Work : Owner → Pointer → Type 0
Work in_use p = p ≡ live
Work exiting p = p ≡ live
Work unworked p = p ≡ deleted
Work stopping p = p ≡ deleted
Work joined p = p ≡ deleted
Work destroyed p = p ≡ deleted

abbrev InTime : ServerLife → Type 0
InTime l = (begun l.body ≡ true) × Work l.owner l.iowork

owner_turn-InTime :
    (at : Owner) (l : ServerLife)
    → l.owner ≡ at
    → Memory at l
    → begun l.body ≡ true
    → Work at l.iowork
    → Holds InTime (owner_turn l)
unfolding owner_turn Memory access non_null join release delete free_rest
owner_turn-InTime in_use l e m b w =
    to InTime (record l { sig_exit = true; owner = exiting }) (rw e refl) (b, w)
owner_turn-InTime exiting l e (h, _, _, _) b w =
    to InTime (record l { iowork = deleted; owner = unworked }) (rw (e, h.0, w) refl) (b, refl)
owner_turn-InTime unworked l e (h, _, _) b w =
    to InTime (record l { stopped = true; owner = stopping }) (rw (e, h.0) refl) (b, w)
owner_turn-InTime stopping l e (h, t, _, _) b w = elim (Bool-cases (is_ended l.body)) [
  | inl z ↦ to InTime (record l { thread = null; owner = joined }) (rw (e, t, z) refl) (b, w)
  | inr z ↦ to InTime l (rw (e, t, z) refl) (b, subst (λ o. Work o l.iowork) (sym e) w)
]
owner_turn-InTime joined l e m b w =
    to InTime
      (record l {
        client_socket = null;
        acceptor = null;
        server_socket = null;
        iosvc = null;
        owner = destroyed;
      })
      (last ∙ free_rest-Safe l m) (b, w)
  where
    last : owner_turn l ≡ free_rest l
    last = rw e refl
owner_turn-InTime destroyed l e m b w =
    to InTime l (rw e refl) (b, subst (λ o. Work o l.iowork) (sym e) w)

body_turn-InTime :
    (b : Body) (l : ServerLife)
    → l.body ≡ b
    → begun b ≡ true
    → Memory l.owner l
    → Work l.owner l.iowork
    → Holds InTime (body_turn l)
unfolding body_turn access is_ended
body_turn-InTime begins l e on m w = cc
body_turn-InTime tests l e on m w = elim (Bool-cases l.sig_exit) [
  | inl x ↦ to InTime (record l { body = leaves }) (rw (e, x) refl) (refl, w)
  | inr x ↦ to InTime (record l { body = runs }) (rw (e, x) refl) (refl, w)
]
body_turn-InTime runs l e on m w =
    let io = (Memory-Held l.owner l (rw e refl) m).0 in
    elim (Bool-cases l.stopped) [
      | inl x ↦ to InTime (record l { body = tests }) (rw (e, io, x) refl) (refl, w)
      | inr x ↦ to InTime l (rw (e, io, x) refl) (rw e refl, w)
    ]
body_turn-InTime leaves l e on m w =
    to InTime (record l { server = leave_loop l.server; body = ended })
      (rw (e, (Memory-Held l.owner l (rw e refl) m).0) refl) (refl, w)
body_turn-InTime ended l e on m w = to InTime l (rw e refl) (rw e refl, w)

-- Nothing but its thread and its destructor touches the work object.
Turn-InTime :
    {l : ServerLife} {r : Result ServerLife}
    → Turn NoWriteFails l r
    → IsSound l
    → InTime l
    → Holds InTime r
unfolding complete access is_ended
Turn-InTime {l} (by_owner e) v (b, w) =
    subst (Holds InTime) (sym e) (owner_turn-InTime l.owner l refl v.memory b w)
Turn-InTime {l} (by_body e) v (b, w) =
    subst (Holds InTime) (sym e) (body_turn-InTime l.body l refl b v.memory w)
Turn-InTime {l} (completes before after op o at _ _ _ _ e) v (b, w) =
    let (io, _, sock, _) = Memory-Held l.owner l (rw at refl) v.memory in
    subst (Holds InTime) (sym e) (
      Holds-bind InTime (handle op o (record l.server { pending = before ++ after }))
        (λ s. next_socket op o.success l.client_socket >>= λ c.
          access l.iosvc (record l { server = s; client_socket = c; body = tests }))
        (λ s.
          to InTime (record l { server = s; client_socket = live; body = tests })
            (rw (sock, next_socket-live op o.success, io) refl) (refl, w)))
Turn-InTime {l} (registers fn _ e) v (b, w) =
    to InTime (record l { server = register_event_callback fn l.server }) e (b, w)

Turns-InTime : {l m : ServerLife} → Turns NoWriteFails l m → IsSound l → InTime l → InTime m
Turns-InTime here v w = w
Turns-InTime (turn r one) v w = Turn-InTime one (Turns-IsSound r v) (Turns-InTime r v w)

ended-NothingLeft :
    (b : Body) (l : ServerLife)
    → is_ended b ≡ true
    → Loop b l
    → (l.server.conns ≡ []) × (l.server.channel_data ≡ [])
unfolding Loop is_ended
ended-NothingLeft begins l e v = cc
ended-NothingLeft tests l e v = cc
ended-NothingLeft runs l e v = cc
ended-NothingLeft leaves l e v = cc
ended-NothingLeft ended l e v = v

-- A server is being used, and its thread has entered the loop; no write fails. However the turns of
-- the thread and of the destructor then follow one another, once the destructor is through
-- everything is freed: the connections and the channels, the thread, the work object, the sockets
-- and the acceptor, and at last the `io_service`.
pub released_lem :
    (bound : Bool) (bufsize channels : ℕ) {l m : ServerLife}
    → Turns NoWriteFails (new_life bound bufsize channels) l
    → l.owner ≡ in_use
    → l.body ≡ runs
    → l.iowork ≡ live
    → Turns NoWriteFails l m
    → m.owner ≡ destroyed
    → (m.server.conns ≡ [])
      × (m.server.channel_data ≡ [])
      × (m.thread ≡ null)
      × (m.iowork ≡ deleted)
      × (m.client_socket ≡ null)
      × (m.server_socket ≡ null)
      × (m.acceptor ≡ null)
      × (m.iosvc ≡ null)
unfolding Memory
released_lem bound bufsize channels {l = l} {m = m} first used waits works rest gone =
    let v = Turns-IsSound first (new_life-IsSound bound bufsize channels) in
    let in_time : InTime l = (rw waits refl, subst (λ o. Work o l.iowork) (sym used) works) in
    let (_, freed) = Turns-InTime rest v in_time in
    let sound = Turns-IsSound rest v in
    let (io, ss, cs, ac, th, over) : Memory destroyed m =
      subst (λ o. Memory o m) gone sound.memory in
    let (cleared, empty) = ended-NothingLeft m.body m over sound.loop in
    (cleared, empty, th, subst (λ o. Work o m.iowork) gone freed, cs, ss, ac, io)
