-- ===== src/Agent/Early.antt =====
-- A log that is posted before the write of the PUBLISH request has completed (libdill/src/log.cpp).
use dill.Base.{
  ℕ, ◌≡◌, ◌≢◌, refl, true, false, some, [], ◌∷◌, Bytes, ok, ◌+◌, length, drop, not-==, take,
  take-overwrite, arith, ◌++◌, ap, List, ◌∙◌,
}
use dill.Protocol.{DillParcel, deflate_len}
use dill.Agent.{DillLogAgent, post, log_parcel, upcall, parcel_sent, on_error}
use dill.Agent.Flows.{enqueue-first}
use dill.Client.{
  ClientIo, ClientOp, writing, connecting, on_write_parcel_finished, async_write_parcel,
  reset_socket, on_parcel_sent,
}
use dill.Server.Frames.{frame, length-frame}
use dill.Server.State.{framed}

short_write_lem :
    (n : ℕ) (io : ClientIo)
    → io.sig_exit ≡ false
    → n ≢ io.expecting_wtlen
    → on_write_parcel_finished true n io ≡ (reset_socket io, some (on_parcel_sent false))
unfolding on_write_parcel_finished
short_write_lem n io run other = rw (run, not-== _ _ other) refl

-- When the server's reply has been read by an agent that is not stopped, no log is queued and just the
-- write of the PUBLISH request is still under way, a log whose frame has another length than the
-- request is accepted by `post`; but the whole write of the request, when it completes, is then taken
-- for a failed one: the agent drops the log from its queue, is not loggable any more, and starts to
-- connect again, while the write of the log is still under way.
pub early_post_lem :
    (junk : DillParcel) (a : DillLogAgent) (request : Bytes) (pri : ℕ) (tag msg : Bytes)
    (seconds fraction : ℕ)
    → a.loggable ≡ true
    → a.queue ≡ []
    → a.pending_logwrites ≡ false
    → a.io.sig_exit ≡ false
    → a.io.pending ≡ writing request ∷ []
    → length request ≢ deflate_len (log_parcel a pri tag msg seconds fraction) + 2
    → (b : DillLogAgent) × (c : DillLogAgent) × (io : ClientIo) × (post pri tag msg seconds fraction
          a
        ≡ ok (true, b))
      × (on_write_parcel_finished true
            (length request)
            (record b.io { pending = drop 1 b.io.pending })
          ≡ (io, some (on_parcel_sent false)))
      × (upcall junk (on_parcel_sent false) (record b { io = io }) ≡ ok c)
      × (c.queue ≡ [])
      × (c.loggable ≡ false)
      × (c.io.pending
          ≡ writing (frame (log_parcel a pri tag msg seconds fraction)) ∷ connecting ∷ [])
unfolding post upcall parcel_sent on_error async_write_parcel reset_socket dill.Client.async_connect
early_post_lem junk a request pri tag msg seconds fraction l q w run flight other =
    let p = log_parcel a pri tag msg seconds fraction in
    let b : DillLogAgent = record a {
      queue = p ∷ [];
      pending_logwrites = true;
      io = async_write_parcel p a.io;
    } in
    let sent : take (deflate_len p + 2) (framed p a.io.wt_buf) ≡ frame p =
      take-overwrite (deflate_len p + 2) (frame p) a.io.wt_buf (omega (arith, length-frame p)) in
    let connects : drop 1
            (a.io.pending ++ (writing (take (deflate_len p + 2) (framed p a.io.wt_buf)) ∷ []))
          ++ (connecting ∷ [])
        ≡ writing (frame p) ∷ connecting ∷ [] =
      ap
        (λ (ops : List ClientOp).
          drop 1 (ops ++ (writing (take (deflate_len p + 2) (framed p a.io.wt_buf)) ∷ []))
          ++ (connecting ∷ []))
        flight
      ∙ ap (λ (bytes : Bytes). writing bytes ∷ connecting ∷ []) sent in
    let left : ClientIo = record b.io { pending = drop 1 b.io.pending } in
    (
      b,
      on_error (record b { io = reset_socket left }),
      reset_socket left,
      rw (enqueue-first p a q w) (rw l refl),
      short_write_lem (length request) left run other,
      refl,
      refl,
      refl,
      connects,
    )
