-- ===== src/Server/Safety/Run.antt =====
-- The event loop of libdill/src/server_netio.cpp never touches a deleted connection while no write
-- fails, and does after one that fails.
use dill.Base.{
  ℕ, ◌≡◌, refl, sym, ap, subst, ◌≢◌, Bool, true, false, List, [], ◌∷◌, ◌++◌, arith, use_after_free,
  Result, err,
}
use dill.Server.State.{
  Pending, accepting, reading_length, reading_content, writing, disconnecting, DillServer,
  register_event_callback,
}
use dill.Server.Connection.{on_write_parcel_finished}
use dill.Server.Loop.{
  async_accept, Outcome, handle, new_server, enter_loop, Allocates, RunOne, run_one, Reach, here,
  round, registers, NoWriteFails,
}
use dill.Server.Safety.Invariant.{Inv, tokens, tokens-append, nobody, Safe}
use dill.Server.Safety.Handlers.{
  on_read_parcel_length_finished-Safe, on_read_parcel_content_finished-Safe, disconnect-Safe,
  on_accept_finished-Inv,
}

-- What the handler of an operation holds.
abbrev held_by : Pending → ℕ → ℕ
held_by op a = tokens a (op ∷ [])

pub Inv-held : {h k : ℕ → ℕ} (s : DillServer) → ((a : ℕ) → h a ≡ k a) → Inv h s → Inv k s
Inv-held s e v = record { owned = λ a. omega (arith, e a, v.owned a); subscribed = v.subscribed }

pub Inv-take :
    (s : DillServer) (before after : List Pending) (op : Pending)
    → s.pending ≡ before ++ (op ∷ after)
    → Inv nobody s
    → Inv (held_by op) (record s { pending = before ++ after })
Inv-take s before after op e v = record {
  owned = λ a. omega (
    arith,
    v.owned a,
    ap (tokens a) e,
    tokens-append a before (op ∷ after),
    tokens-append a before after,
    tokens-append a (op ∷ []) after,
  );
  subscribed = v.subscribed;
}

pub handle-Safe :
    (op : Pending) (o : Outcome) (s : DillServer)
    → Allocates op o s
    → NoWriteFails op o
    → Inv (held_by op) s
    → Safe (Inv nobody) (handle op o s)
unfolding handle on_write_parcel_finished
handle-Safe accepting o s fresh q v =
    on_accept_finished-Inv o.success o.address o.rdbuf o.wtbuf s fresh.0 (Inv-held s (λ a. refl) v)
handle-Safe (reading_length conn) o s _ q v =
    on_read_parcel_length_finished-Safe conn o.success o.transferred s
      (Inv-held s (λ a. omega arith) v)
handle-Safe (reading_content conn size) o s _ q v =
    on_read_parcel_content_finished-Safe conn o.success o.transferred s
      (Inv-held s (λ a. omega arith) v)
handle-Safe (writing conn frame) o s _ q v = rw q (Inv-held s (λ a. refl) v)
handle-Safe (disconnecting conn) o s _ q v =
    disconnect-Safe conn s (Inv-held s (λ a. omega arith) v)

pub Allocates-pending :
    (op : Pending) (o : Outcome) (s : DillServer) (ops : List Pending)
    → Allocates op o s
    → Allocates op o (record s { pending = ops })
Allocates-pending accepting o s ops h = h
Allocates-pending _ o s ops h = tt

RunOne-Safe :
    {s : DillServer} {r : Result DillServer}
    → RunOne NoWriteFails s r
    → Inv nobody s
    → Safe (Inv nobody) r
RunOne-Safe {s} (run_one before after op o split fresh q e) v = subst (Safe (Inv nobody)) (sym e) (
    handle-Safe op o (record s { pending = before ++ after })
      (Allocates-pending op o s (before ++ after) fresh) q (Inv-take s before after op split v))

pub enter_loop-Inv :
    (bound : Bool) (bufsize channels : ℕ)
    → Inv nobody (enter_loop (new_server bound bufsize channels))
unfolding enter_loop new_server async_accept
enter_loop-Inv true bufsize channels = record { owned = λ a. omega arith; subscribed = tt }
enter_loop-Inv false bufsize channels = record { owned = λ a. omega arith; subscribed = tt }

pub Reach-Inv : {s t : DillServer} → Inv nobody s → Reach NoWriteFails s t → Inv nobody t
unfolding register_event_callback
Reach-Inv v here = v
Reach-Inv v (round r one) = RunOne-Safe one (Reach-Inv v r)
Reach-Inv v (registers fn r) =
    let w = Reach-Inv v r in record { owned = w.owned; subscribed = w.subscribed }

-- As long as no write fails, the loop of a server never touches a deleted connection: in no state
-- that it reaches after its construction, whatever its peers send and however the reads and accepts
-- complete, does the next handler fault with a use after free.
loop_no_use_after_free :
    (bound : Bool) (bufsize channels : ℕ) {s : DillServer} {r : Result DillServer}
    → Reach NoWriteFails (enter_loop (new_server bound bufsize channels)) s
    → RunOne NoWriteFails s r
    → r ≢ err use_after_free
loop_no_use_after_free bound bufsize channels reach one e =
    subst (Safe (Inv nobody)) e
      (RunOne-Safe one (Reach-Inv (enter_loop-Inv bound bufsize channels) reach))
