-- ===== src/Lifetime/Agent/Ends.antt =====
-- `stop` of libdill/src/client_netio.cpp and the destructors around it come to their end: the thread that
-- is joined ends, and everything is freed.
use dill.Lifetime.{null, live, deleted, access, delete, non_null}
use dill.Lifetime.Agent.{
  AgentLife, cancelled, joined, destroyed, Body, begins, starts, tests, runs, ended, is_base,
  is_ended, is_idle, new_life, with_io, owner_turn, body_turn, join, free_rest, Turns, finish,
  complete, call_host, Outcome,
}
use dill.Lifetime.Agent.Memory.{Memory, Stopping, begun}
use dill.Lifetime.Agent.Faults.{Turns-IsSound, new_life-IsSound}
use dill.Agent.{DillLogAgent, on_started}
use dill.Client.{
  ClientIo, ClientOp, connecting, reading_length, reading_content, writing, reset_socket,
  async_connect, read_failed, on_connect_finished, on_read_parcel_length_finished,
  on_read_parcel_content_finished, on_write_parcel_finished,
}
use dill.Protocol.{DillParcel}
use dill.Base.{
  ℕ, zero, suc, ◌≡◌, refl, sym, ap, ◌∙◌, subst, ◌≢◌, true, false, none, List, [], ◌∷◌, ◌++◌, Bytes,
  overwrite, Result, ok, ◌>>=◌,
}

-- Everything of the agent is freed.
abbrev pub Freed : AgentLife → Type 0
Freed l =
    (l.owner ≡ destroyed)
    × (l.iosvc ≡ deleted)
    × (l.socket ≡ deleted)
    × (l.impl ≡ deleted)
    × (l.thread ≡ null)
    × (l.data_mtx ≡ deleted)
    × (l.iowork ≡ deleted)

-- Two turns of the destructor, and turns of the thread before them.
abbrev last_turns : Bytes → AgentLife → Result AgentLife
last_turns channel l = owner_turn channel l >>= owner_turn channel

abbrev pub turns : Bytes → ℕ → AgentLife → Result AgentLife
turns channel zero l = last_turns channel l
turns channel (suc n) l = body_turn l >>= turns channel n

abbrev Finishes : Result AgentLife → Type 0
Finishes r = (m : AgentLife) × (r ≡ ok m) × Freed m

-- The destructor waits, and has cancelled the socket.
abbrev Waits : AgentLife → Type 0
Waits l = (l.owner ≡ cancelled) × Stopping l

last_turns-Finishes :
    (channel : Bytes) (l : AgentLife)
    → Waits l
    → is_ended l.body ≡ true
    → Finishes (last_turns channel l)
unfolding owner_turn join free_rest delete access non_null
last_turns-Finishes channel l (e, ((io, sock, im, t), d, w, x, s)) z =
    let l' = record (with_io (record l.agent.io { running = false }) l) {
      thread = null;
      owner = joined;
    } in
    let m = record (with_io (reset_socket l'.agent.io) l') {
      data_mtx = deleted;
      socket = deleted;
      iosvc = deleted;
      impl = deleted;
      owner = destroyed;
    } in
    let first : owner_turn channel l ≡ ok l' = rw (e, z, t) refl in
    let second : owner_turn channel l' ≡ ok m = rw (d, sock, io, im) refl in
    (m, ap (λ r. r >>= owner_turn channel) first ∙ second, (refl, refl, refl, refl, refl, refl, w))

-- A turn of the thread that goes on to a place from where the rest finishes.
goes_on :
    (channel : Bytes) (n : ℕ) (l m : AgentLife)
    → body_turn l ≡ ok m
    → Finishes (turns channel n m)
    → Finishes (turns channel (suc n) l)
goes_on channel n l m e (k, f, freed) = (k, ap (λ r. r >>= turns channel n) e ∙ f, freed)

ended-Finishes :
    (channel : Bytes) (n : ℕ) (l : AgentLife)
    → Waits l
    → l.body ≡ ended
    → Finishes (turns channel n l)
unfolding is_ended body_turn
ended-Finishes channel zero l h at = last_turns-Finishes channel l h (rw at refl)
ended-Finishes channel (suc n) l h at =
    goes_on channel n l l (rw at refl) (ended-Finishes channel n l h at)

tests-Finishes :
    (channel : Bytes) (n : ℕ) (l : AgentLife)
    → Waits l
    → l.body ≡ tests
    → Finishes (turns channel (suc n) l)
unfolding body_turn
tests-Finishes channel n l (e, (mk, d, w, x, s)) at =
    goes_on channel n l (record l { body = ended }) (rw (at, s) refl)
      (ended-Finishes channel n (record l { body = ended }) (e, (mk, d, w, refl, s)) refl)

starts-Finishes :
    (channel : Bytes) (n : ℕ) (l : AgentLife)
    → Waits l
    → l.body ≡ starts
    → Finishes (turns channel (suc (suc n)) l)
unfolding body_turn is_base access on_started async_connect
starts-Finishes channel n l (e, (mk, d, w, x, s)) at =
    let (_, sock, _, _) = mk in
    let m = record l { agent = on_started l.agent; body = tests } in
    goes_on channel (suc n) l m (rw (at, e, sock) refl)
      (tests-Finishes channel n m (e, (mk, d, w, refl, s)) refl)

idle-Finishes :
    (channel : Bytes) (n : ℕ) (l : AgentLife)
    → Waits l
    → l.body ≡ runs
    → l.agent.io.pending ≡ []
    → Finishes (turns channel (suc (suc n)) l)
unfolding body_turn access is_idle
idle-Finishes channel n l (e, (mk, d, w, x, s)) at none_left =
    let (io, _, _, _) = mk in
    let idle : is_idle l ≡ true = rw (none_left, w) refl in
    let m = record l { body = tests } in
    goes_on channel (suc n) l m (goes io idle)
      (tests-Finishes channel n m (e, (mk, d, w, refl, s)) refl)
  where
    goes : l.iosvc ≡ live → is_idle l ≡ true → body_turn l ≡ ok (record l { body = tests })
    goes io idle = rw (at, io, none_left, w) refl

-- A handler that is told of an error when `_sig_exit` is set calls nothing of the host.
aborted_lem :
    (op : ClientOp) (o : Outcome) (io : ClientIo)
    → o.success ≡ false
    → io.sig_exit ≡ true
    → (io' : ClientIo) × (finish op o io ≡ ok (io', none)) × (io'.sig_exit ≡ true)
unfolding finish on_connect_finished on_read_parcel_length_finished on_read_parcel_content_finished
    on_write_parcel_finished read_failed
aborted_lem connecting o io f s = (record io { sig_connected = false }, rw (f, s) refl, s)
aborted_lem reading_length o io f s =
    (record io { rd_buf = overwrite o.bytes io.rd_buf }, rw (f, s) refl, s)
aborted_lem (reading_content len) o io f s =
    (record io { rd_buf = overwrite o.bytes io.rd_buf }, rw (f, s) refl, s)
aborted_lem (writing frame) o io f s = (io, rw (f, s) refl, s)

aborted-Finishes :
    (channel : Bytes) (junk : DillParcel) (op : ClientOp) (o : Outcome) (l : AgentLife)
    (ops : List ClientOp)
    → Waits l
    → l.body ≡ runs
    → o.success ≡ false
    → Finishes
        (complete junk op o (with_io (record l.agent.io { pending = ops }) l) >>= turns channel 1)
unfolding complete access call_host
aborted-Finishes channel junk op o l ops (e, (mk, d, w, x, s)) at f =
    let (_, sock, _, _) = mk in
    let (io', done, s') = aborted_lem op o (record l.agent.io { pending = ops }) f s in
    let m = record (with_io io' l) { body = tests } in
    let completed : complete junk op o (with_io (record l.agent.io { pending = ops }) l) ≡ ok m =
      rw (done, sock) refl in
    let (k, g, freed) = tests-Finishes channel 0 m (e, (mk, d, w, refl, s')) refl in
    (k, ap (λ r. r >>= turns channel 1) completed ∙ g, freed)

-- What is left to run when the destructor waits for the thread and has cancelled the socket: turns of
-- the thread, or an operation that completes with an error and a turn behind it; then turns of the
-- destructor.
pub data Remaining (channel : Bytes) (l : AgentLife) (r : Result AgentLife) : Type 0 where
  outside : l.body ≢ runs → r ≡ turns channel 3 l → Remaining channel l r
  idle : l.body ≡ runs → l.agent.io.pending ≡ [] → r ≡ turns channel 3 l → Remaining channel l r
  aborts :
      (parcel : DillParcel) (before after : List ClientOp) (op : ClientOp) (o : Outcome)
      → l.body ≡ runs
      → l.agent.io.pending ≡ before ++ (op ∷ after)
      → o.success ≡ false
      → r ≡ (
          complete parcel op o (with_io (record l.agent.io { pending = before ++ after }) l)
          >>= turns channel 1)
      → Remaining channel l r

begun-begins : (b : Body) → b ≡ begins → begun b ≡ false
begun-begins b e = rw e refl

outside-Finishes :
    (channel : Bytes) (b : Body) (l : AgentLife)
    → l.body ≡ b
    → Waits l
    → l.body ≢ runs
    → Finishes (turns channel 3 l)
outside-Finishes channel begins l e (_, (_, _, _, x, _)) h =
    let early : begun l.body ≡ false = begun-begins l.body e in cc
outside-Finishes channel starts l e w h = starts-Finishes channel 1 l w e
outside-Finishes channel tests l e w h = tests-Finishes channel 2 l w e
outside-Finishes channel runs l e w h = absurd (h e)
outside-Finishes channel ended l e w h = ended-Finishes channel 3 l w e

-- Where the destructor waits for the thread and has cancelled the socket, it comes to its end without
-- a fault, and everything is freed: three turns of the thread are enough if it is not in `run_one`, or
-- there without any operation, and if any one of its operations completes with an error, one turn
-- behind that.
pub stop_ends :
    (channel : Bytes) (junk : DillLogAgent) (port : ℕ) (addr rd_buf wt_buf : Bytes) {l : AgentLife}
    {r : Result AgentLife}
    → Turns channel (new_life junk port addr rd_buf wt_buf) l
    → l.owner ≡ cancelled
    → Remaining channel l r
    → (m : AgentLife) × (r ≡ ok m) × Freed m
unfolding Memory
stop_ends channel junk port addr rd_buf wt_buf {l = l} before at rest =
    let v = Turns-IsSound before (new_life-IsSound junk port addr rd_buf wt_buf) in
    finishes rest (at, subst (λ o. Memory o l) at v)
  where
    finishes : {r : Result AgentLife} → Remaining channel l r → Waits l → Finishes r
    finishes (outside b e) w = subst Finishes (sym e) (outside-Finishes channel l.body l refl w b)
    finishes (idle b none_left e) w =
        subst Finishes (sym e) (idle-Finishes channel 1 l w b none_left)
    finishes (aborts parcel first last op o b split f e) w =
        subst Finishes (sym e) (aborted-Finishes channel parcel op o l (first ++ last) w b f)
