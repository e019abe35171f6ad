-- ===== src/Agent/Flows.antt =====
-- What holds of the log agent (libdill/src/log.cpp) while logs flow, and that the part of `post` under
-- the lock keeps it.
use dill.Base.{
  ℕ, ◌+◌, ◌≡◌, refl, sym, ap, ◌∙◌, subst, Bool, true, false, not, List, [], ◌∷◌, ◌++◌, map,
  append-nil, append_assoc, arith, Bytes, ok, length-overwrite, take-overwrite, length,
}
use dill.Protocol.{DillParcel, deflate_len}
use dill.Agent.{DillLogAgent, enqueue, write_front}
use dill.Server.Frames.{frame, length-frame}
use mathlib.Core.List.{map-append}
use dill.Client.{ClientOp, writing, ClientIo, async_write_parcel}
use dill.Protocol.Size.{deflate_len_bounds}

-- The writes under way for a queue: that of its front.
abbrev pub in_flight : List DillParcel → List ClientOp
in_flight [] = []
in_flight (p ∷ rest) = writing (frame p) ∷ []

abbrev pub is_empty : List DillParcel → Bool
is_empty [] = true
is_empty (p ∷ rest) = false

-- What a write of the front of the queue is to transfer.
unfoldable pub expected : List DillParcel → ℕ → ℕ
expected [] n = n
expected (p ∷ rest) n = length (frame p)

-- What holds of the agent while logs flow.
pub record Flows (accepted : List DillParcel) (written : List Bytes) (a : DillLogAgent)
    : Type 0 where
  pub order : map frame accepted ≡ written ++ map frame a.queue
  pub flights : a.io.pending ≡ in_flight a.queue
  pub writes : a.pending_logwrites ≡ not (is_empty a.queue)
  pub runs : a.io.sig_exit ≡ false
  pub logs : a.loggable ≡ true
  pub buffer : length a.io.wt_buf ≡ 65538
  pub expects : a.io.expecting_wtlen ≡ expected a.queue a.io.expecting_wtlen

pub write_lem :
    (p : DillParcel) (io : ClientIo)
    → length io.wt_buf ≡ 65538
    → io.pending ≡ []
    → let io' = async_write_parcel p io in
      (io'.pending ≡ in_flight (p ∷ []))
      × (io'.sig_exit ≡ io.sig_exit)
      × (length io'.wt_buf ≡ 65538)
      × (io'.expecting_wtlen ≡ length (frame p))
unfolding async_write_parcel
write_lem p io h e =
    rw (e, take-overwrite (deflate_len p + 2) (frame p) io.wt_buf (omega (arith, length-frame p)))
      (
        refl,
        refl,
        length-overwrite (frame p) io.wt_buf (omega (arith, length-frame p, deflate_len_bounds p))
            ∙ h,
        sym (length-frame p),
      )

pub enqueue-first :
    (p : DillParcel) (a : DillLogAgent)
    → a.queue ≡ []
    → a.pending_logwrites ≡ false
    → enqueue p a
      ≡ ok (record a { queue = p ∷ []; pending_logwrites = true; io = async_write_parcel p a.io })
unfolding enqueue write_front
enqueue-first p a e w = rw (e, w) refl

enqueue-more :
    (p : DillParcel) (a : DillLogAgent)
    → a.pending_logwrites ≡ true
    → enqueue p a ≡ ok (record a { queue = a.queue ++ (p ∷ []) })
unfolding enqueue
enqueue-more p a w = rw w refl

pub ok_inj : {A : Type 0} {x y : A} → ok x ≡ ok y → x ≡ y
ok_inj e = cc

pub enqueue-Flows :
    {accepted : List DillParcel} {written : List Bytes} {a a' : DillLogAgent} (p : DillParcel)
    (q : List DillParcel)
    → a.queue ≡ q
    → Flows accepted written a
    → enqueue p a ≡ ok a'
    → Flows (accepted ++ (p ∷ [])) written a'
unfolding expected
enqueue-Flows {accepted} {written} {a} p [] e v h =
    let (fl, ru, bu, ex) = write_lem p a.io v.buffer (v.flights ∙ ap in_flight e) in
    subst (Flows (accepted ++ (p ∷ [])) written)
      (ok_inj (sym (enqueue-first p a e (v.writes ∙ ap (λ q. not (is_empty q)) e)) ∙ h))
      (record {
        order = rw (map-append, v.order, e, append-nil) refl;
        flights = fl;
        writes = refl;
        runs = ru ∙ v.runs;
        logs = v.logs;
        buffer = bu;
        expects = ex;
      })
enqueue-Flows {accepted} {written} {a} p (x ∷ q) e v h =
    subst (Flows (accepted ++ (p ∷ [])) written)
      (ok_inj (sym (enqueue-more p a (v.writes ∙ ap (λ q. not (is_empty q)) e)) ∙ h))
      (record {
        order = rw (map-append, v.order, map-append, append_assoc) refl;
        flights = rw e (v.flights ∙ ap in_flight e);
        writes = rw e (v.writes ∙ ap (λ q. not (is_empty q)) e);
        runs = v.runs;
        logs = v.logs;
        buffer = v.buffer;
        expects = rw e (v.expects ∙ ap (λ q. expected q a.io.expecting_wtlen) e);
      })

pub enqueue-total :
    (p : DillParcel) (a : DillLogAgent) (q : List DillParcel)
    → a.queue ≡ q
    → a.pending_logwrites ≡ not (is_empty q)
    → (a' : DillLogAgent) × (enqueue p a ≡ ok a')
enqueue-total p a [] e w = (_, enqueue-first p a e w)
enqueue-total p a (x ∷ q) e w = (_, enqueue-more p a w)
