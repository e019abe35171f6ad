-- ===== src/Lifetime/Agent/Memory.antt =====
-- What holds of the pointers of a log agent (libdill/src/log.cpp) and its connection
-- (libdill/src/client_netio.cpp) however the turns of the two threads follow one another, and that the
-- thread of the connection keeps it.
use dill.Lifetime.{Pointer, unset, null, live, deleted, access}
use dill.Lifetime.Agent.{
  AgentLife, Owner, constructs, initialises, in_use, exiting, unworked, cancelled, joined,
  destroyed, Body, begins, starts, tests, runs, ended, is_base, is_ended, body_turn, is_idle,
}
use dill.Agent.{DillLogAgent, on_started}
use dill.Server.Safety.Invariant.{Safe}
use dill.Base.{
  ◌≡◌, refl, sym, ◌∙◌, subst, ◌⊎◌, inl, inr, Bool, true, false, pure_virtual_call, Result, ok, err,
  if◌then◌else◌, Bool-cases,
}
use dill.Client.{async_connect}

abbrev pub begun : Body → Bool
begun begins = false
begun starts = true
begun tests = true
begun runs = true
begun ended = true

-- Whether the thread has not called `onStarted`.
abbrev pub early : Body → Bool
early begins = true
early starts = true
early tests = false
early runs = false
early ended = false

-- The work object, before it is deleted.
abbrev pub work : Body → Pointer
work b = if begun b then live else unset

-- What the constructor of the base class has made.
abbrev pub Made : AgentLife → Type 0
Made l = (l.iosvc ≡ live) × (l.socket ≡ live) × (l.impl ≡ live) × (l.thread ≡ live)

abbrev pub Stopping : AgentLife → Type 0
Stopping l =
    Made l
    × (l.data_mtx ≡ live)
    × (l.iowork ≡ deleted)
    × (begun l.body ≡ true)
    × (l.agent.io.sig_exit ≡ true)

-- What holds where the owner is.
unfoldable pub Memory : Owner → AgentLife → Type 0
Memory constructs l =
    Made l × (l.data_mtx ≡ unset) × (l.iowork ≡ work l.body) × (early l.body ≡ true)
Memory initialises l = Made l × (l.data_mtx ≡ unset) × (l.iowork ≡ work l.body)
Memory in_use l = Made l × (l.data_mtx ≡ live) × (l.iowork ≡ work l.body)
Memory exiting l =
    Made l × (l.data_mtx ≡ live) × (l.iowork ≡ work l.body) × (l.agent.io.sig_exit ≡ true)
Memory unworked l = Stopping l
Memory cancelled l = Stopping l
Memory joined l =
    (l.iosvc ≡ live)
    × (l.socket ≡ live)
    × (l.impl ≡ live)
    × (l.thread ≡ null)
    × (l.data_mtx ≡ live)
    × (l.iowork ≡ deleted)
    × (is_ended l.body ≡ true)
Memory destroyed l =
    (l.iosvc ≡ deleted)
    × (l.socket ≡ deleted)
    × (l.impl ≡ deleted)
    × (l.thread ≡ null)
    × (l.data_mtx ≡ deleted)
    × (l.iowork ≡ deleted)
    × (is_ended l.body ≡ true)

abbrev pub IsSound : AgentLife → Type 0
IsSound l = Memory l.owner l

-- While the thread has not ended, what it uses is there.
pub Memory-Made : (at : Owner) (l : AgentLife) → is_ended l.body ≡ false → Memory at l → Made l
unfolding Memory
Memory-Made constructs l on (h, _, _, _) = h
Memory-Made initialises l on (h, _, _) = h
Memory-Made in_use l on (h, _, _) = h
Memory-Made exiting l on (h, _, _, _) = h
Memory-Made unworked l on (h, _, _, _, _) = h
Memory-Made cancelled l on (h, _, _, _, _) = h
Memory-Made joined l on (_, _, _, _, _, _, x) = cc
Memory-Made destroyed l on (_, _, _, _, _, _, x) = cc

pub Memory-early :
    (at : Owner) (l : AgentLife) → is_base at ≡ true → Memory at l → early l.body ≡ true
unfolding Memory is_base
Memory-early constructs l b (_, _, _, x) = x
Memory-early initialises l b m = cc
Memory-early in_use l b m = cc
Memory-early exiting l b m = cc
Memory-early unworked l b m = cc
Memory-early cancelled l b m = cc
Memory-early joined l b m = cc
Memory-early destroyed l b m = cc

pub work-live : (b : Body) → begun b ≡ true → work b ≡ live
work-live b e = rw e refl

-- The thread, once it has begun, goes on to another place, and the agent with it.
pub Memory-body :
    (at : Owner) (l : AgentLife) (a : DillLogAgent) (b : Body)
    → is_ended l.body ≡ false
    → begun l.body ≡ true
    → begun b ≡ true
    → (is_base at ≡ true → early b ≡ true)
    → a.io.sig_exit ≡ l.agent.io.sig_exit
    → Memory at l
    → Memory at (record l { agent = a; body = b })
unfolding Memory is_base
Memory-body constructs l a b on x y k e (h, d, w, _) = (h, d, rw y (w ∙ work-live l.body x), k refl)
Memory-body initialises l a b on x y k e (h, d, w) = (h, d, rw y (w ∙ work-live l.body x))
Memory-body in_use l a b on x y k e (h, d, w) = (h, d, rw y (w ∙ work-live l.body x))
Memory-body exiting l a b on x y k e (h, d, w, s) = (h, d, rw y (w ∙ work-live l.body x), e ∙ s)
Memory-body unworked l a b on x y k e (h, d, w, _, s) = (h, d, w, y, e ∙ s)
Memory-body cancelled l a b on x y k e (h, d, w, _, s) = (h, d, w, y, e ∙ s)
Memory-body joined l a b on x y k e (_, _, _, _, _, _, z) = cc
Memory-body destroyed l a b on x y k e (_, _, _, _, _, _, z) = cc

-- The thread begins.
Memory-begins :
    (at : Owner) (l : AgentLife)
    → is_ended l.body ≡ false
    → begun l.body ≡ false
    → Memory at l
    → Memory at (record l { iowork = live; body = starts })
unfolding Memory is_ended
Memory-begins constructs l on x (h, d, w, _) = (h, d, refl, refl)
Memory-begins initialises l on x (h, d, w) = (h, d, refl)
Memory-begins in_use l on x (h, d, w) = (h, d, refl)
Memory-begins exiting l on x (h, d, w, s) = (h, d, refl, s)
Memory-begins unworked l on x (_, _, _, y, _) = cc
Memory-begins cancelled l on x (_, _, _, y, _) = cc
Memory-begins joined l on x (_, _, _, _, _, _, z) = cc
Memory-begins destroyed l on x (_, _, _, _, _, _, z) = cc

-- A turn that ends in a sound state, and one that cannot fault otherwise.
pub ends : {r : Result AgentLife} (l : AgentLife) → r ≡ ok l → IsSound l → Safe IsSound r
ends l e v = subst (Safe IsSound) (sym e) v

-- The turns of the thread are safe but for the call of `onStarted` within the constructor.
pub body_turn-Safe :
    (b : Body) (l : AgentLife)
    → l.body ≡ b
    → IsSound l
    → Safe IsSound (body_turn l)
      ⊎ ((body_turn l ≡ err pure_virtual_call) × (is_base l.owner ≡ true) × (b ≡ starts))
unfolding body_turn access is_ended on_started async_connect is_idle
body_turn-Safe begins l e v =
    let (io, _, _, _) = Memory-Made l.owner l (rw e refl) v in
    inl (
      ends (record l { iowork = live; body = starts }) (rw (e, io) refl)
        (Memory-begins l.owner l (rw e refl) (rw e refl) v))
body_turn-Safe starts l e v =
    let (_, sock, _, _) = Memory-Made l.owner l (rw e refl) v in
    elim (Bool-cases (is_base l.owner)) [
      | inl x ↦ inr (rw (e, x) refl, x, refl)
      | inr x ↦ inl (
          ends (record l { agent = on_started l.agent; body = tests }) (rw (e, x, sock) refl)
            (Memory-body l.owner l (on_started l.agent) tests (rw e refl) (rw e refl) refl (λ y. cc)
              refl v))
    ]
body_turn-Safe tests l e v =
    let later : is_base l.owner ≡ true → early l.body ≡ true = λ y. Memory-early l.owner l y v in
    let none : is_base l.owner ≡ true → false ≡ true =
      λ y. subst (λ b. early b ≡ true) e (later y) in
    inl (elim (Bool-cases l.agent.io.sig_exit) [
      | inl x ↦
          ends (record l { body = ended }) (rw (e, x) refl)
            (Memory-body l.owner l l.agent ended (rw e refl) (rw e refl) refl none refl v)
      | inr x ↦
          ends (record l { body = runs }) (rw (e, x) refl)
            (Memory-body l.owner l l.agent runs (rw e refl) (rw e refl) refl none refl v)
    ])
body_turn-Safe runs l e v =
    let (io, _, _, _) = Memory-Made l.owner l (rw e refl) v in
    let none : is_base l.owner ≡ true → false ≡ true =
      λ y. subst (λ b. early b ≡ true) e (Memory-early l.owner l y v) in
    inl (elim (Bool-cases (is_idle l)) [
      | inl x ↦
          ends (record l { body = tests }) (rw (e, io, x) refl)
            (Memory-body l.owner l l.agent tests (rw e refl) (rw e refl) refl none refl v)
      | inr x ↦ ends l (rw (e, io, x) refl) v
    ])
body_turn-Safe ended l e v = inl (ends l (rw e refl) v)
