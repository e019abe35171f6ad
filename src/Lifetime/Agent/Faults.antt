-- ===== src/Lifetime/Agent/Faults.antt =====
-- Every fault that the threads around a log agent (libdill/src/log.cpp, libdill/src/client_netio.cpp)
-- can run into.
use dill.Lifetime.{unset, live, access}
use dill.Lifetime.Agent.{
  AgentLife, Owner, constructs, initialises, in_use, exiting, unworked, cancelled, joined,
  destroyed, tests, runs, is_base, is_ended, new_life, with_io, Turn, by_owner, by_body, completes,
  posts, Turns, here, turn, finish, complete, call_host, Outcome,
}
use dill.Lifetime.Agent.Memory.{
  Memory, IsSound, ends, Memory-Made, Memory-body, early, Memory-early,
}
use dill.Lifetime.Agent.Steady.{finish-Steady, post-Steady, SteadyIo}
use dill.Lifetime.Agent.Races.{Race, Races, body_turn_lem, owner_turn_lem, call_host_lem}
use dill.Agent.{DillLogAgent, post}
use dill.Client.{ClientOp, Upcall, ClientIo}
use dill.Protocol.{DillParcel}
use dill.Server.Safety.Invariant.{Safe, Safe-bind}
use dill.Base.{
  ℕ, ◌≡◌, refl, sym, ap, ◌∙◌, subst, ◌⊎◌, inl, inr, true, false, Option, ◌++◌, Bytes, Fault,
  use_after_free, null_string, out_of_bounds, null_pointer, unset_pointer, pure_virtual_call,
  Result, ok, err, ◌>>=◌,
}

-- The mutex, while the thread runs its loop.
data_mtx_lem :
    (at : Owner) (l : AgentLife)
    → is_ended l.body ≡ false
    → Memory at l
    → early l.body ≡ false
    → (l.data_mtx ≡ live) ⊎ ((l.data_mtx ≡ unset) × (at ≡ initialises))
unfolding Memory
data_mtx_lem constructs l on (h, d, w, x) y = cc
data_mtx_lem initialises l on (h, d, w) y = inr (d, refl)
data_mtx_lem in_use l on (h, d, w) y = inl d
data_mtx_lem exiting l on (h, d, w, s) y = inl d
data_mtx_lem unworked l on (h, d, w, x, s) y = inl d
data_mtx_lem cancelled l on (h, d, w, x, s) y = inl d
data_mtx_lem joined l on (_, _, _, _, _, _, z) y = cc
data_mtx_lem destroyed l on (_, _, _, _, _, _, z) y = cc

Safe-err :
    {A B : Type 0} (P : A → Type 0) (Q : B → Type 0) (fault : Fault)
    → Safe P (err fault)
    → Safe Q (err fault)
Safe-err P Q use_after_free h = h
Safe-err P Q null_string h = tt
Safe-err P Q out_of_bounds h = tt
Safe-err P Q null_pointer h = h
Safe-err P Q unset_pointer h = h
Safe-err P Q pure_virtual_call h = h

live≢unset : live ≡ unset → ⊥
live≢unset e = cc

abbrev with_agent : DillLogAgent → AgentLife → AgentLife
with_agent a l = record l { agent = a }

complete_lem :
    (junk : DillParcel) (op : ClientOp) (o : Outcome) (l : AgentLife) (io : ClientIo)
    → IsSound l
    → l.body ≡ runs
    → io.sig_exit ≡ l.agent.io.sig_exit
    → Safe IsSound (complete junk op o (with_io io l)) ⊎ Races l (complete junk op o (with_io io l))
unfolding complete access is_ended is_base
complete_lem junk op o l io v at same = go (finish op o io) refl (finish-Steady op o io)
  where
    on : is_ended l.body ≡ false
    on = rw at refl

    late : early l.body ≡ false
    late = rw at refl

    sock : l.socket ≡ live
    sock = let (_, s, _, _) = Memory-Made l.owner l on v in s

    base : is_base l.owner ≡ true → false ≡ true
    base y = subst (λ b. early b ≡ true) at (Memory-early l.owner l y v)

    after :
        (io' : ClientIo) (call : Option Upcall)
        → finish op o io ≡ ok (io', call)
        → complete junk op o (with_io io l)
          ≡ (call_host junk call (with_io io' l) >>= λ l. ok (record l { body = tests }))
    after io' call e = rw (e, sock) refl

    failed :
        (fault : Fault) → finish op o io ≡ err fault → complete junk op o (with_io io l) ≡ err fault
    failed fault e = rw e refl

    go :
        (r : Result (ClientIo × Option Upcall))
        → finish op o io ≡ r
        → SteadyIo io.sig_exit r
        → Safe IsSound (complete junk op o (with_io io l))
          ⊎ Races l (complete junk op o (with_io io l))
    go (err fault) e h = inl (
        subst (Safe IsSound) (sym (failed fault e)) (
          Safe-err {A = ClientIo × Option Upcall} (λ (j, _). j.sig_exit ≡ io.sig_exit) IsSound fault
            h))
    go (ok (io', call)) e h = elim (data_mtx_lem l.owner l on v late) [
      | inl d ↦ elim (call_host_lem junk call (with_io io' l) (inl d)) [
        | inl safe ↦ inl (subst (Safe IsSound) (sym (after io' call e)) (ends_in safe))
        | inr (none_there, _) ↦ absurd (live≢unset (sym d ∙ none_there))
      ]
      | inr (d, first) ↦ elim (call_host_lem junk call (with_io io' l) (inr d)) [
        | inl safe ↦ inl (subst (Safe IsSound) (sym (after io' call e)) (ends_in safe))
        | inr (_, faults) ↦ inr (
          unset_pointer,
          after io' call e
              ∙ ap (λ (r : Result AgentLife). r >>= λ l. ok (record l { body = tests })) faults,
          inr (inl (refl, first, at)),
        )
      ]
    ]
      where
        ends_in :
            Safe
              (λ m. (a : DillLogAgent) × (m ≡ with_agent a l) × (a.io.sig_exit ≡ io'.sig_exit))
              (call_host junk call (with_io io' l))
            → Safe IsSound
                (call_host junk call (with_io io' l) >>= λ l. ok (record l { body = tests }))
        ends_in safe =
            Safe-bind
              (λ m. (a : DillLogAgent) × (m ≡ with_agent a l) × (a.io.sig_exit ≡ io'.sig_exit))
              IsSound (call_host junk call (with_io io' l)) _ safe
              (λ m (a, e, k).
                ends (record l { agent = a; body = tests })
                  (ap {A = AgentLife} (λ m. ok (record m { body = tests })) e)
                  (Memory-body l.owner l a tests on (rw at refl) refl base (k ∙ h ∙ same) v))

posts_lem :
    (l : AgentLife) (pri : ℕ) (tag msg : Bytes) (seconds fraction : ℕ)
    → IsSound l
    → l.owner ≡ in_use
    → Safe IsSound (post pri tag msg seconds fraction l.agent >>= λ (_, a). ok (with_agent a l))
unfolding Memory
posts_lem l pri tag msg seconds fraction v e =
    Safe-bind (λ (_, b). b.io.sig_exit ≡ l.agent.io.sig_exit) IsSound
      (post pri tag msg seconds fraction l.agent) (λ (_, a). ok (with_agent a l))
      (post-Steady pri tag msg seconds fraction l.agent)
      (λ (_, a) h.
        let (m, d, w) : Memory in_use l = subst (λ o. Memory o l) e v in
        subst (λ o. Memory o (with_agent a l)) (sym e) (m, d, w))

Turn-lem :
    {channel : Bytes} {l : AgentLife} {r : Result AgentLife}
    → Turn channel l r
    → IsSound l
    → Safe IsSound r ⊎ Races l r
Turn-lem {channel} {l} (by_owner e) v =
    subst (λ r. Safe IsSound r ⊎ Races l r) (sym e) (owner_turn_lem l.owner channel l refl v)
Turn-lem {l = l} (by_body e) v = subst (λ r. Safe IsSound r ⊎ Races l r) (sym e) (body_turn_lem l v)
Turn-lem {l = l} (completes junk before after op o at split e) v =
    subst (λ r. Safe IsSound r ⊎ Races l r) (sym e)
      (complete_lem junk op o l (record l.agent.io { pending = before ++ after }) v at refl)
Turn-lem {l = l} (posts pri tag msg seconds fraction used e) v =
    subst (λ r. Safe IsSound r ⊎ Races l r) (sym e)
      (inl (posts_lem l pri tag msg seconds fraction v used))

-- A race is a fault, so a turn that goes on is sound.
Turn-IsSound : {channel : Bytes} {l m : AgentLife} → Turn channel l (ok m) → IsSound l → IsSound m
Turn-IsSound one v = elim (Turn-lem one v) [ inl safe ↦ safe | inr (fault, e, _) ↦ cc ]

pub Turns-IsSound : {channel : Bytes} {l m : AgentLife} → Turns channel l m → IsSound l → IsSound m
Turns-IsSound here v = v
Turns-IsSound (turn r one) v = Turn-IsSound one (Turns-IsSound r v)

pub new_life-IsSound :
    (junk : DillLogAgent) (port : ℕ) (addr rd_buf wt_buf : Bytes)
    → IsSound (new_life junk port addr rd_buf wt_buf)
unfolding new_life Memory
new_life-IsSound junk port addr rd_buf wt_buf = ((refl, refl, refl, refl), refl, refl, refl)

Safe-fault :
    {A : Type 0} (P : A → Type 0) (fault : Fault)
    → Safe P (err fault)
    → (fault ≡ null_string) ⊎ (fault ≡ out_of_bounds)
Safe-fault P use_after_free h = absurd h
Safe-fault P null_string h = inl refl
Safe-fault P out_of_bounds h = inr refl
Safe-fault P null_pointer h = absurd h
Safe-fault P unset_pointer h = absurd h
Safe-fault P pure_virtual_call h = absurd h

-- A log agent is constructed, used and destroyed by one thread while the thread of its connection
-- runs, in any order of their turns, with logs posted while it is in use. A fault of a turn is one of
-- the handlers, a null pointer as a string or a read beyond a buffer, or it is one of three races:
-- the thread calls `onStarted` while the constructor of the base class runs, or completes an
-- operation before the members of the agent are initialised, or has not yet made the work object
-- that `stop` deletes. Nothing is used after it has been deleted, or deleted twice.
pub faults_lem :
    (channel : Bytes) (junk : DillLogAgent) (port : ℕ) (addr rd_buf wt_buf : Bytes) {l : AgentLife}
    (fault : Fault)
    → Turns channel (new_life junk port addr rd_buf wt_buf) l
    → Turn channel l (err fault)
    → (fault ≡ null_string) ⊎ (fault ≡ out_of_bounds) ⊎ Race l fault
faults_lem channel junk port addr rd_buf wt_buf {l = l} fault before next =
    elim (Turn-lem next (Turns-IsSound before (new_life-IsSound junk port addr rd_buf wt_buf))) [
      | inl safe ↦ elim (Safe-fault IsSound fault safe) [ inl e ↦ inl e | inr e ↦ inr (inl e) ]
      | inr (other, e, race) ↦
          inr (inr (subst (Race l) (ap (λ r. elim r [ err f ↦ f | ok x ↦ other ]) (sym e)) race))
    ]
