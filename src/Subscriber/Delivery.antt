-- ===== src/Subscriber/Delivery.antt =====
-- From the bytes that the server sends to the event that the subscriber of them sees.
use dill.Client.{
  ClientIo, reading_length, reading_content, on_parcel_read, on_read_parcel_length_finished,
  on_read_parcel_content_finished, async_read_parcel_content, async_read_parcel,
}
use dill.Subscriber.{dispatch, emit, parcel_read, DillSubscriber, upcall}
use dill.Protocol.{DillParcel, IsParcel, max_str, deflate_len, deflate}
use dill.Base.{
  ◌≡◌, refl, subst, inl, inr, true, ◌||◌, none, some, [], ◌∷◌, ◌++◌, append_assoc, arith, c_str,
  overwrite, ok, ◌==◌, if◌then◌else◌, ==_refl, Bool-cases, take, drop,
}
use dill.Server.Event.{DillEvent}
use dill.Protocol.Ops.{is_log, priority_register, event_log, event_reg}
use dill.Server.Frames.{frame}
use dill.Protocol.RoundTrip.{clip, inflate-deflate}
use dill.Protocol.Size.{length-deflate, deflate_len_bounds}
use dill.Protocol.Wire.{u16_parts}

-- The event of a log or a register update that a publisher sent as `p`.
abbrev pub delivered : DillParcel → DillEvent
delivered p = record {
  type = if is_log p.op then event_log else event_reg;
  priority = if is_log p.op then p.op else 0;
  id = p.id;
  tag = some (c_str (take max_str p.str1));
  content = some (c_str (take max_str p.str2));
  timestamp1 = if is_log p.op then p.timestamp1 else 0;
  timestamp2 = if is_log p.op then p.timestamp2 else 0;
}

-- The state after the read of the length, and after that of the parcel.
length_read : DillParcel → ClientIo → ClientIo
length_read p io = record io {
  rd_buf = overwrite (take 2 (frame p)) io.rd_buf;
  expecting_rdlen = deflate_len p;
  pending = io.pending ++ (reading_content (deflate_len p) ∷ []);
}

content_read : DillParcel → ClientIo → ClientIo
content_read p io = record (length_read p io) {
  rd_buf = overwrite (deflate p) (length_read p io).rd_buf;
}

length_read_lem :
    (p : DillParcel) (io : ClientIo)
    → io.expecting_rdlen ≡ 2
    → on_read_parcel_length_finished true (take 2 (frame p)) io ≡ ok (length_read p io, none)
unfolding on_read_parcel_length_finished length_read overwrite async_read_parcel_content
length_read_lem p io two =
    rw (two, u16_parts (deflate_len p) (omega (arith, deflate_len_bounds p))) refl

content_read_lem :
    (p : DillParcel) (io : ClientIo)
    → IsParcel p
    → on_read_parcel_content_finished true (deflate p) (length_read p io)
      ≡ ok (content_read p io, some (on_parcel_read (clip p)))
unfolding on_read_parcel_content_finished length_read content_read overwrite
content_read_lem p io v = rw (length-deflate p, ==_refl (deflate_len p), inflate-deflate p _ v) refl

-- The two reads of a client give a parcel that was sent to its host.
pub reads_lem :
    (p : DillParcel) (io : ClientIo)
    → IsParcel p
    → io.expecting_rdlen ≡ 2
    → (io₁ io₂ : ClientIo) × (on_read_parcel_length_finished true (take 2 (frame p)) io
        ≡ ok (io₁, none))
      × (on_read_parcel_content_finished true (drop 2 (frame p)) io₁
          ≡ ok (io₂, some (on_parcel_read (clip p))))
reads_lem p io v two =
    (length_read p io, content_read p io, length_read_lem p io two, content_read_lem p io v)

event_lem :
    (p : DillParcel) (s : DillSubscriber)
    → (is_log p.op || p.op == priority_register) ≡ true
    → s.evcb ≡ true
    → dispatch (clip p) s ≡ record s { events = s.events ++ (delivered p ∷ []) }
unfolding dispatch emit
event_lem p s op cb = elim (Bool-cases (is_log p.op)) [
  | inl e ↦ rw (e, cb) refl
  | inr e ↦
      let r : (p.op == priority_register) ≡ true =
        subst (λ b. (b || p.op == priority_register) ≡ true) e op in
      rw (e, r, cb) refl
]

-- A subscriber with a callback, which is to read a length, and whose two reads return the two parts of
-- the bytes that were sent for a log or a register update whose numbers fit their C types, calls its callback once, with the number of the channel and the strings,
-- cut to 23766 bytes and to their first null byte; of a log with its priority and time, of a register
-- update with the priority 0 and both time stamps 0, whatever the parcel has there. Then it starts
-- the next read.
pub delivery_lem :
    (p : DillParcel) (s : DillSubscriber)
    → IsParcel p
    → (is_log p.op || p.op == priority_register) ≡ true
    → s.evcb ≡ true
    → s.io.expecting_rdlen ≡ 2
    → (io₁ io₂ : ClientIo) × (on_read_parcel_length_finished true (take 2 (frame p)) s.io
        ≡ ok (io₁, none))
      × (on_read_parcel_content_finished true (drop 2 (frame p)) io₁
          ≡ ok (io₂, some (on_parcel_read (clip p))))
      × (let s' = upcall (on_parcel_read (clip p)) (record s { io = io₂ }) in
          (s'.events ≡ s.events ++ (delivered p ∷ []))
          × (s'.io.pending
              ≡ s.io.pending ++ (reading_content (deflate_len p) ∷ reading_length ∷ [])))
unfolding upcall parcel_read async_read_parcel content_read length_read
delivery_lem p s v op cb two = (
  length_read p s.io,
  content_read p s.io,
  length_read_lem p s.io two,
  content_read_lem p s.io v,
  rw (event_lem p (record s { io = content_read p s.io }) op cb, append_assoc) (refl, refl),
)
