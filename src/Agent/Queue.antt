-- ===== src/Agent/Queue.antt =====
-- The queue of the log agent (libdill/src/log.cpp) between a reply of the server and the next error:
-- which writes are under way, and in which order the logs go out.
use dill.Base.{
  ℕ, ◌≡◌, refl, sym, ap, ◌∙◌, subst, Bool, true, false, not, some, List, [], ◌∷◌, ◌++◌, map,
  append-nil, append_assoc, Bytes, ok, ==_refl, length,
}
use dill.Protocol.{DillParcel}
use dill.Agent.Flows.{
  in_flight, is_empty, expected, Flows, write_lem, ok_inj, enqueue-Flows, enqueue-total,
}
use dill.Agent.{
  DillLogAgent, post, log_parcel, upcall, enqueue, write_front, parcel_sent, next_write,
}
use dill.Server.Frames.{frame}
use dill.Client.{
  ClientOp, writing, ClientIo, Upcall, on_write_parcel_finished, async_write_parcel, on_parcel_sent,
}

-- The agent, once the server has answered and the PUBLISH request has been written.
pub record IsIdle (a : DillLogAgent) : Type 0 where
  pub logs : a.loggable ≡ true
  pub empty : a.queue ≡ []
  pub not_writing : a.pending_logwrites ≡ false
  pub quiet : a.io.pending ≡ []
  pub runs : a.io.sig_exit ≡ false
  pub buffer : length a.io.wt_buf ≡ 65538

-- `Logged junk a₀ accepted written a`: from `a₀`, calls of `post` that returned true and whole writes
-- that completed have led to `a`; the first gave the parcels `accepted`, the second the frames
-- `written`, both in order.
pub data Logged (junk : DillParcel) (a₀ : DillLogAgent)
    : List DillParcel → List Bytes → DillLogAgent → Type 0 where
  begun : Logged junk a₀ [] [] a₀
  posted :
      {accepted : List DillParcel} {written : List Bytes} {a a' : DillLogAgent}
      → Logged junk a₀ accepted written a
      → (pri : ℕ) (tag msg : Bytes) (seconds fraction : ℕ)
      → post pri tag msg seconds fraction a ≡ ok (true, a')
      → Logged junk a₀ (accepted ++ (log_parcel a pri tag msg seconds fraction ∷ [])) written a'
  completed :
      {accepted : List DillParcel} {written : List Bytes} {a a' : DillLogAgent} {bytes : Bytes}
      {rest : List ClientOp} {io : ClientIo} {call : Upcall}
      → Logged junk a₀ accepted written a
      → a.io.pending ≡ writing bytes ∷ rest
      → on_write_parcel_finished true (length bytes) (record a.io { pending = rest })
        ≡ (io, some call)
      → upcall junk call (record a { io = io }) ≡ ok a'
      → Logged junk a₀ accepted (written ++ (bytes ∷ [])) a'

write_finished_lem :
    (n : ℕ) (io : ClientIo)
    → io.sig_exit ≡ false
    → io.expecting_wtlen ≡ n
    → on_write_parcel_finished true n io ≡ (io, some (on_parcel_sent true))
unfolding on_write_parcel_finished
write_finished_lem n io s e = rw (s, e, ==_refl n) refl

sent_last :
    (junk p : DillParcel) (a : DillLogAgent)
    → a.queue ≡ p ∷ []
    → a.pending_logwrites ≡ true
    → upcall junk (on_parcel_sent true) a ≡ ok (record a { queue = []; pending_logwrites = false })
unfolding upcall parcel_sent next_write
sent_last junk p a e w = rw (w, e) refl

sent_next :
    (junk p x : DillParcel) (q : List DillParcel) (a : DillLogAgent)
    → a.queue ≡ p ∷ x ∷ q
    → a.pending_logwrites ≡ true
    → upcall junk (on_parcel_sent true) a
      ≡ ok (record a { queue = x ∷ q; io = async_write_parcel x a.io })
unfolding upcall parcel_sent next_write write_front
sent_next junk p x q a e w = rw (w, e) refl

-- A whole write that completes is that of the front of the queue.
complete_lem :
    {accepted : List DillParcel} {written : List Bytes} {a a' : DillLogAgent} {bytes : Bytes}
    {rest : List ClientOp} {io : ClientIo} {call : Upcall} (junk : DillParcel) {p : DillParcel}
    {q : List DillParcel}
    → a.queue ≡ p ∷ q
    → Flows accepted written a
    → a.io.pending ≡ writing bytes ∷ rest
    → on_write_parcel_finished true (length bytes) (record a.io { pending = rest })
      ≡ (io, some call)
    → upcall junk call (record a { io = io }) ≡ ok a'
    → (bytes ≡ frame p)
      × (upcall junk (on_parcel_sent true) (record a { io = record a.io { pending = [] } }) ≡ ok a')
unfolding expected
complete_lem {a = a} {bytes = bytes} {rest = rest} {io = io} {call = call} junk {p} {q} e v at done
      r =
    let h : writing bytes ∷ rest ≡ writing (frame p) ∷ [] = sym at ∙ v.flights ∙ ap in_flight e in
    let same : bytes ≡ frame p = cc in
    let none_left : rest ≡ [] = cc in
    let d =
      sym (
        write_finished_lem (length bytes) (record a.io { pending = rest }) v.runs
          (v.expects ∙ ap (λ q. expected q a.io.expecting_wtlen) e ∙ ap length (sym same)))
      ∙ done in
    let dio : record a.io { pending = rest } ≡ io = ap (λ x. x.0) d in
    let dcall : some (on_parcel_sent true) ≡ some call = ap (λ x. x.1) d in
    let same_call : on_parcel_sent true ≡ call = cc in
    (
      same,
      ap (λ r. upcall junk (on_parcel_sent true) (record a { io = record a.io { pending = r } }))
            (sym none_left)
          ∙ ap (λ i. upcall junk (on_parcel_sent true) (record a { io = i })) dio
          ∙ ap (λ c. upcall junk c (record a { io = io })) same_call
          ∙ r,
    )

complete-Flows :
    {accepted : List DillParcel} {written : List Bytes} {a a' : DillLogAgent} {bytes : Bytes}
    {rest : List ClientOp} {io : ClientIo} {call : Upcall} (junk : DillParcel) (q : List DillParcel)
    → a.queue ≡ q
    → Flows accepted written a
    → a.io.pending ≡ writing bytes ∷ rest
    → on_write_parcel_finished true (length bytes) (record a.io { pending = rest })
      ≡ (io, some call)
    → upcall junk call (record a { io = io }) ≡ ok a'
    → Flows accepted (written ++ (bytes ∷ [])) a'
unfolding expected
complete-Flows {a = a} {bytes = bytes} junk [] e v at done r =
    let h = sym at ∙ v.flights ∙ ap in_flight e in cc
complete-Flows {accepted} {written} {a} {a'} {bytes} junk (p ∷ []) e v at done r =
    let (same, r') = complete_lem junk e v at done r in
    let w : a.pending_logwrites ≡ true = v.writes ∙ ap (λ q. not (is_empty q)) e in
    subst (Flows accepted (written ++ (bytes ∷ []))) (ok_inj (sym (sent_last junk p _ e w) ∙ r'))
      (record {
        order = rw (append-nil, v.order, e, same) refl;
        flights = refl;
        writes = refl;
        runs = v.runs;
        logs = v.logs;
        buffer = v.buffer;
        expects = refl;
      })
complete-Flows {accepted} {written} {a} {a'} {bytes} junk (p ∷ x ∷ q) e v at done r =
    let (same, r') = complete_lem junk e v at done r in
    let w : a.pending_logwrites ≡ true = v.writes ∙ ap (λ q. not (is_empty q)) e in
    let (fl, ru, bu, ex) = write_lem x (record a.io { pending = [] }) v.buffer refl in
    subst (Flows accepted (written ++ (bytes ∷ [])))
      (ok_inj (sym (sent_next junk p x q _ e w) ∙ r'))
      (record {
        order = rw (v.order, e, same, append_assoc) refl;
        flights = fl;
        writes = w;
        runs = ru ∙ v.runs;
        logs = v.logs;
        buffer = bu;
        expects = ex;
      })

IsIdle-Flows : {a : DillLogAgent} → IsIdle a → Flows [] [] a
unfolding expected
IsIdle-Flows {a} v = record {
  order = rw (v.empty) refl;
  flights = rw (v.empty, v.quiet) refl;
  writes = rw (v.empty, v.not_writing) refl;
  runs = v.runs;
  logs = v.logs;
  buffer = v.buffer;
  expects = rw (v.empty) refl;
}

post-accepts :
    (pri : ℕ) (tag msg : Bytes) (seconds fraction : ℕ) (a : DillLogAgent)
    {accepted : List DillParcel} {written : List Bytes}
    → Flows accepted written a
    → (a' : DillLogAgent) × (enqueue (log_parcel a pri tag msg seconds fraction) a ≡ ok a')
      × (post pri tag msg seconds fraction a ≡ ok (true, a'))
unfolding post
post-accepts pri tag msg seconds fraction a v =
    let (a', e) =
      enqueue-total (log_parcel a pri tag msg seconds fraction) a a.queue refl v.writes in
    (a', e, rw e (rw (v.logs) refl))

same_agent : {a a' : DillLogAgent} → ◌≡◌ {A = Bool × DillLogAgent} (true, a) (true, a') → a ≡ a'
same_agent e = ap (λ x. x.1) e

Logged-Flows :
    {junk : DillParcel} {a₀ a : DillLogAgent} {accepted : List DillParcel} {written : List Bytes}
    → IsIdle a₀
    → Logged junk a₀ accepted written a
    → Flows accepted written a
Logged-Flows i begun = IsIdle-Flows i
Logged-Flows i (posted {a = a} l pri tag msg seconds fraction h) =
    let v = Logged-Flows i l in
    enqueue-Flows (log_parcel a pri tag msg seconds fraction) a.queue refl v (
      let (a₁, e, r) = post-accepts pri tag msg seconds fraction a v in
      e ∙ ap (λ x. ok x) (same_agent (ok_inj (sym r ∙ h))))
Logged-Flows {junk} i (completed {a = a} l at done r) =
    complete-Flows junk a.queue refl (Logged-Flows i l) at done r

-- From an agent that is idle, however calls of `post` and completions of whole writes alternate: what
-- was written, then the frames of the queue, are the frames of the accepted logs in their order; of
-- the queue just the front is being written; and every further call of `post` is accepted without a
-- fault.
pub logged_lem :
    {junk : DillParcel} {a₀ a : DillLogAgent} {accepted : List DillParcel} {written : List Bytes}
    → IsIdle a₀
    → Logged junk a₀ accepted written a
    → (map frame accepted ≡ written ++ map frame a.queue)
      × (a.io.pending ≡ in_flight a.queue)
      × ((pri : ℕ) (tag msg : Bytes) (seconds fraction : ℕ)
          → (a' : DillLogAgent) × (post pri tag msg seconds fraction a ≡ ok (true, a')))
logged_lem i l =
    let v = Logged-Flows i l in
    (
      v.order,
      v.flights,
      λ pri tag msg seconds fraction.
          let (a', e, r) = post-accepts pri tag msg seconds fraction _ v in (a', r),
    )
