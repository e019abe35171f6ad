-- ===== src/Lifetime/Server/Ends.antt =====
-- The destructor of libdill/src/server_netio.cpp comes to its end: the thread that it joins ends.
use dill.Lifetime.{null, live, delete, access, non_null, release}
use dill.Lifetime.Server.{
  ServerLife, new_life, join, begin, is_ended, body_turn, owner_turn, Turns, stopping, joined,
  destroyed, Body, begins, tests, runs, leaves, ended,
}
use dill.Server.Safety.Invariant.{Safe}
use dill.Base.{
  ℕ, zero, suc, ◌-◌, ◌≤◌, ◌≡◌, refl, ap, ◌∙◌, subst, inl, inr, Bool, true, arith, Result, ok, ◌>>=◌,
  ◌==◌, Bool-cases,
}
use dill.Lifetime.Server.Memory.{Memory, IsSound, new_life-IsSound, Loop, body_turn-Safe}
use dill.Server.Loop.{NoWriteFails, leave_loop, async_accept}
use dill.Lifetime.Server.Teardown.{free_rest-Safe}
use dill.Lifetime.Server.Threads.{Turns-IsSound}
use dill.Protocol.Ops.{ec_succeed}

-- How many turns the thread has left, once the `io_service` is stopped.
abbrev left : Body → ℕ
left begins = 3
left tests = 2
left runs = 3
left leaves = 1
left ended = 0

abbrev Next : ServerLife → Type 0
Next l =
    (m : ServerLife) × (body_turn l ≡ ok m) × (m.owner ≡ stopping) × (left m.body ≤ left l.body - 1)

body_turn-Next :
    (b : Body) (l : ServerLife)
    → l.body ≡ b
    → l.owner ≡ stopping
    → Loop b l
    → Memory stopping l
    → Next l
unfolding body_turn access is_ended Memory Loop begin
body_turn-Next begins l e stops (accepts, _, _) ((io, _, sock, _), _, x, y) =
    elim (Bool-cases (l.server.status == ec_succeed)) [
      | inl z ↦ (
        record l { iowork = live; server = async_accept l.server; body = tests },
        rw (e, z, io, accepts, z, sock) refl,
        stops,
        rw e (omega arith),
      )
      | inr z ↦ (record l { body = ended }, rw (e, z) refl, stops, rw e (omega arith))
    ]
body_turn-Next tests l e stops v (h, t, x, y) =
    (record l { body = leaves }, rw (e, x) refl, stops, rw e (omega arith))
body_turn-Next runs l e stops v (h, t, x, y) =
    (record l { body = tests }, rw (e, h.0, y) refl, stops, rw e (omega arith))
body_turn-Next leaves l e stops v (h, t, x, y) = (
  record l { server = leave_loop l.server; body = ended },
  rw (e, h.0) refl,
  stops,
  rw e (omega arith),
)
body_turn-Next ended l e stops v m = (l, rw e refl, stops, rw e (omega arith))

-- Turns of the thread, one after the other.
abbrev pub body_turns : ℕ → ServerLife → Result ServerLife
body_turns zero l = ok l
body_turns (suc n) l = body_turn l >>= body_turns n

left-is_ended : (b : Body) → left b ≤ 0 → is_ended b ≡ true
unfolding is_ended
left-is_ended begins h = absurd (omega arith)
left-is_ended tests h = absurd (omega arith)
left-is_ended runs h = absurd (omega arith)
left-is_ended leaves h = absurd (omega arith)
left-is_ended ended h = refl

Next-IsSound : (l : ServerLife) → IsSound l → l.owner ≡ stopping → (next : Next l) × IsSound next.0
Next-IsSound l v stops =
    let next = body_turn-Next l.body l refl stops v.loop (subst (λ o. Memory o l) stops v.memory) in
    (next, subst (Safe IsSound) next.1 (body_turn-Safe l.body l refl v.loop v.memory))

body_turns-Ends :
    (n : ℕ) (l : ServerLife)
    → IsSound l
    → l.owner ≡ stopping
    → left l.body ≤ n
    → (m : ServerLife) × (body_turns n l ≡ ok m)
      × IsSound m
      × (m.owner ≡ stopping)
      × (is_ended m.body ≡ true)
body_turns-Ends zero l v stops h = (l, refl, v, stops, left-is_ended l.body h)
body_turns-Ends (suc n) l v stops h =
    let ((m, e, stops', less), v') = Next-IsSound l v stops in
    let (k, f, v'', stops'', over) = body_turns-Ends n m v' stops' (omega arith) in
    (k, rw e f, v'', stops'', over)

last_turns :
    (l : ServerLife)
    → IsSound l
    → l.owner ≡ stopping
    → is_ended l.body ≡ true
    → (m : ServerLife) × ((owner_turn l >>= owner_turn) ≡ ok m) × (m.owner ≡ destroyed)
unfolding owner_turn join non_null release delete Memory
last_turns l v stops over =
    let (h, t, _, _) : Memory stopping l = subst (λ o. Memory o l) stops v.memory in
    let l' = record l { thread = null; owner = joined } in
    let joins : owner_turn l ≡ ok l' = rw (stops, t, over) refl in
    let freed = free_rest-Safe l' (h, refl, over) in
    (_, ap (λ r. r >>= owner_turn) joins ∙ freed, refl)

-- As long as no write fails, and wherever the server's thread is: when the destructor waits for it
-- after stopping the `io_service`, three turns of the thread, without any operation completing, are
-- enough for it to end, and with two more turns the destructor is through.
pub destructor_ends :
    (bound : Bool) (bufsize channels : ℕ) {l : ServerLife}
    → Turns NoWriteFails (new_life bound bufsize channels) l
    → l.owner ≡ stopping
    → (m : ServerLife) × ((body_turns 3 l >>= λ l. owner_turn l >>= owner_turn) ≡ ok m)
      × (m.owner ≡ destroyed)
destructor_ends bound bufsize channels {l = l} before stops =
    let v = Turns-IsSound before (new_life-IsSound bound bufsize channels) in
    let (m, e, v', stops', over) = body_turns-Ends 3 l v stops (left-three l.body) in
    let (k, f, gone) = last_turns m v' stops' over in (k, rw e f, gone)
  where
    left-three : (b : Body) → left b ≤ 3
    left-three begins = omega arith
    left-three tests = omega arith
    left-three runs = omega arith
    left-three leaves = omega arith
    left-three ended = omega arith
