-- ===== src/Lifetime/Agent/Races.antt =====
-- The threads around a log agent (libdill/src/log.cpp, libdill/src/client_netio.cpp): in which order of
-- their turns they run into a pointer that is wrong.
use dill.Lifetime.{unset, null, live, deleted, delete, access, non_null}
use dill.Lifetime.Agent.{
  AgentLife, Owner, constructs, initialises, in_use, exiting, unworked, cancelled, joined,
  destroyed, Body, begins, starts, tests, runs, ended, is_base, is_ended, body_turn, owner_turn,
  join, begin_stop, initialise, free_rest, with_io, call_host,
}
use dill.Lifetime.Agent.Memory.{Memory, IsSound, ends, begun, body_turn-Safe, work, work-live}
use dill.Lifetime.Agent.Steady.{upcall-Steady}
use dill.Agent.{DillLogAgent, new_agent, upcall}
use dill.Client.{Upcall, reset_socket}
use dill.Protocol.{DillParcel}
use dill.Server.Safety.Invariant.{Safe, Safe-bind}
use dill.Base.{
  ◌≡◌, refl, ap, ◌∙◌, ◌⊎◌, inl, inr, true, false, Option, none, some, Bytes, Fault, unset_pointer,
  pure_virtual_call, Result, err, Bool-cases,
}

-- The faults of a race: the thread calls `onStarted` while the constructor of the base class runs;
-- it completes an operation before the members of the agent are initialised; or `stop` deletes the
-- work object before the thread has made it.
abbrev pub Race : AgentLife → Fault → Type 0
Race l fault =
    ((fault ≡ pure_virtual_call) × (l.owner ≡ constructs) × (l.body ≡ starts))
    ⊎ ((fault ≡ unset_pointer) × (l.owner ≡ initialises) × (l.body ≡ runs))
    ⊎ ((fault ≡ unset_pointer) × (l.owner ≡ exiting) × (l.body ≡ begins))

abbrev pub Races : AgentLife → Result AgentLife → Type 0
Races l r = (fault : Fault) × (r ≡ err fault) × Race l fault

is_base_lem : (at : Owner) → is_base at ≡ true → at ≡ constructs
unfolding is_base
is_base_lem constructs e = refl
is_base_lem initialises e = cc
is_base_lem in_use e = cc
is_base_lem exiting e = cc
is_base_lem unworked e = cc
is_base_lem cancelled e = cc
is_base_lem joined e = cc
is_base_lem destroyed e = cc

pub body_turn_lem : (l : AgentLife) → IsSound l → Safe IsSound (body_turn l) ⊎ Races l (body_turn l)
body_turn_lem l v = elim (body_turn-Safe l.body l refl v) [
  | inl safe ↦ inl safe
  | inr (e, base, at) ↦ inr (pure_virtual_call, e, inl (refl, is_base_lem l.owner base, at))
]

begun_lem : (b : Body) → (b ≡ begins) ⊎ (begun b ≡ true)
begun_lem begins = inl refl
begun_lem starts = inr refl
begun_lem tests = inr refl
begun_lem runs = inr refl
begun_lem ended = inr refl

-- `delete _iowork`.
exiting_lem :
    (channel : Bytes) (l : AgentLife)
    → l.owner ≡ exiting
    → Memory exiting l
    → Safe IsSound (owner_turn channel l) ⊎ Races l (owner_turn channel l)
unfolding owner_turn Memory delete
exiting_lem channel l e (h, d, w, s) = elim (begun_lem l.body) [
  | inl x ↦
      let none_yet : l.iowork ≡ unset = w ∙ ap work x in
      inr (unset_pointer, rw (e, none_yet) refl, inr (inr (refl, e, x)))
  | inr x ↦
      let there : l.iowork ≡ live = w ∙ work-live l.body x in
      inl (
        ends (record l { iowork = deleted; owner = unworked }) (rw (e, there) refl)
          (h, d, refl, x, s))
]

pub owner_turn_lem :
    (at : Owner) (channel : Bytes) (l : AgentLife)
    → l.owner ≡ at
    → Memory at l
    → Safe IsSound (owner_turn channel l) ⊎ Races l (owner_turn channel l)
unfolding owner_turn Memory initialise begin_stop join free_rest delete access reset_socket
    new_agent non_null
owner_turn_lem constructs channel l e (h, d, w, x) =
    inl (ends (record l { owner = initialises }) (rw e refl) (h, d, w))
owner_turn_lem initialises channel l e (h, d, w) =
    inl (ends (initialise channel l) (rw e refl) (h, refl, w))
owner_turn_lem in_use channel l e (h, d, w) =
    let (_, _, _, t) = h in
    inl (
      ends (record (with_io (record l.agent.io { sig_exit = true }) l) { owner = exiting })
        (rw (e, t) refl) (h, d, w, refl))
owner_turn_lem exiting channel l e m = exiting_lem channel l e m
owner_turn_lem unworked channel l e (h, d, w, x, s) =
    let (_, sock, _, _) = h in
    inl (ends (record l { owner = cancelled }) (rw (e, sock) refl) (h, d, w, x, s))
owner_turn_lem cancelled channel l e (h, d, w, x, s) =
    let (io, sock, im, t) = h in
    inl (elim (Bool-cases (is_ended l.body)) [
      | inl z ↦
          ends
            (record (with_io (record l.agent.io { running = false }) l) {
              thread = null;
              owner = joined;
            })
            (rw (e, t, z) refl) (io, sock, im, refl, d, w, z)
      | inr z ↦ ends l (rw (e, z) refl) (rw e (h, d, w, x, s))
    ])
owner_turn_lem joined channel l e (io, sock, im, t, d, w, z) = inl (
    ends
      (record (with_io (reset_socket l.agent.io) l) {
        data_mtx = deleted;
        socket = deleted;
        iosvc = deleted;
        impl = deleted;
        owner = destroyed;
      })
      (rw (e, d, t, sock, io, im) refl) (refl, refl, refl, t, refl, w, z))
owner_turn_lem destroyed channel l e m = inl (ends l (rw e refl) (rw e m))

-- What the host does with a call: it uses members that are there, or is not initialised yet.
pub call_host_lem :
    (junk : DillParcel) (call : Option Upcall) (l : AgentLife)
    → (l.data_mtx ≡ live) ⊎ (l.data_mtx ≡ unset)
    → Safe
        (λ m.
          (a : DillLogAgent) × (m ≡ record l { agent = a }) × (a.io.sig_exit ≡ l.agent.io.sig_exit))
        (call_host junk call l)
      ⊎ ((l.data_mtx ≡ unset) × (call_host junk call l ≡ err unset_pointer))
unfolding call_host access
call_host_lem junk none l d = inl (l.agent, refl, refl)
call_host_lem junk (some call) l (inl d) = inl (
    rw d (
      Safe-bind (λ a. a.io.sig_exit ≡ l.agent.io.sig_exit) _ (upcall junk call l.agent) _
        (upcall-Steady junk call l.agent) (λ a h. (a, refl, h))))
call_host_lem junk (some call) l (inr d) = inr (d, rw d refl)
