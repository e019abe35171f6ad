-- ===== src/Lifetime/Agent/Steady.antt =====
-- The handlers of a client (libdill/src/client_netio.cpp) and those of the log agent
-- (libdill/src/log.cpp) use no pointer of the objects around them, and leave `_sig_exit` as it is.
use dill.Lifetime.Agent.{finish, Outcome}
use dill.Agent.{
  DillLogAgent, on_error, connected, parcel_read, parcel_sent, next_write, write_front, enqueue,
  upcall, post, log_parcel,
}
use dill.Client.{
  ClientIo, ClientOp, connecting, reading_length, reading_content, writing, Upcall, on_connected,
  on_parcel_read, on_parcel_sent, on_io_error, reset_socket, async_connect, async_write_parcel,
  async_read_parcel, async_read_parcel_content, on_connect_finished, on_read_parcel_length_finished,
  on_read_parcel_content_finished, on_write_parcel_finished, read_failed,
}
use dill.Server.Safety.Invariant.{Safe, Safe-bind, Safe-if}
use dill.Server.Safety.Reads.{get_u16-Quiet, inflate-Quiet}
use dill.Protocol.{DillParcel, inflate}
use dill.Base.{
  ℕ, ◌≡◌, refl, inl, inr, Bool, true, false, ◌&&◌, Option, List, [], ◌∷◌, ◌++◌, Bytes, overwrite,
  Result, ok, ◌==◌, Bool-cases, length,
}
use dill.Protocol.Wire.{get_u16}
use dill.Protocol.Ops.{priority_reply_ok}

-- A result of the agent, or of its connection, with that flag.
abbrev pub Steady : Bool → Result DillLogAgent → Type 0
Steady e = Safe (λ a. a.io.sig_exit ≡ e)

abbrev pub SteadyIo : Bool → Result (ClientIo × Option Upcall) → Type 0
SteadyIo e = Safe (λ (io, _). io.sig_exit ≡ e)

write_front-Steady :
    (q : List DillParcel) (a : DillLogAgent) → a.queue ≡ q → Steady a.io.sig_exit (write_front a)
unfolding write_front async_write_parcel
write_front-Steady [] a e = rw e tt
write_front-Steady (p ∷ rest) a e = rw e refl

enqueue-Steady : (p : DillParcel) (a : DillLogAgent) → Steady a.io.sig_exit (enqueue p a)
unfolding enqueue
enqueue-Steady p a = elim (Bool-cases a.pending_logwrites) [
  | inl e ↦ rw e refl
  | inr e ↦ rw e (
      write_front-Steady (a.queue ++ (p ∷ []))
        (record a { queue = a.queue ++ (p ∷ []); pending_logwrites = true }) refl)
]

pub post-Steady :
    (pri : ℕ) (tag msg : Bytes) (seconds fraction : ℕ) (a : DillLogAgent)
    → Safe (λ (_, b). b.io.sig_exit ≡ a.io.sig_exit) (post pri tag msg seconds fraction a)
unfolding post
post-Steady pri tag msg seconds fraction a =
    Safe-if (λ (_, b). b.io.sig_exit ≡ a.io.sig_exit) a.loggable _ _
      (Safe-bind (λ b. b.io.sig_exit ≡ a.io.sig_exit) (λ (_, b). b.io.sig_exit ≡ a.io.sig_exit)
        (enqueue (log_parcel a pri tag msg seconds fraction) a) (λ b. ok (true, b))
        (enqueue-Steady (log_parcel a pri tag msg seconds fraction) a) (λ b h. h))
      refl

next_write-Steady :
    (q : List DillParcel) (a : DillLogAgent) → a.queue ≡ q → Steady a.io.sig_exit (next_write a)
unfolding next_write
next_write-Steady [] a e = rw e tt
next_write-Steady (p ∷ []) a e = rw e refl
next_write-Steady (p ∷ q ∷ rest) a e =
    rw e (write_front-Steady (q ∷ rest) (record a { queue = q ∷ rest }) refl)

pub upcall-Steady :
    (junk : DillParcel) (call : Upcall) (a : DillLogAgent)
    → Steady a.io.sig_exit (upcall junk call a)
unfolding upcall connected parcel_read parcel_sent on_error async_connect async_read_parcel
    async_write_parcel
upcall-Steady junk (on_connected true) a = refl
upcall-Steady junk (on_connected false) a = refl
upcall-Steady junk (on_parcel_read p) a = elim (Bool-cases (p.op == priority_reply_ok)) [
  | inl e ↦ rw e refl
  | inr e ↦ rw e refl
]
upcall-Steady junk (on_parcel_sent true) a =
    Safe-if (λ b. b.io.sig_exit ≡ a.io.sig_exit) a.pending_logwrites _ _
      (next_write-Steady a.queue a refl) refl
upcall-Steady junk (on_parcel_sent false) a = refl
upcall-Steady junk on_io_error a = refl

read_failed-Steady : (io : ClientIo) → (read_failed io).0.sig_exit ≡ io.sig_exit
unfolding read_failed reset_socket
read_failed-Steady io = elim (Bool-cases io.sig_exit) [ inl e ↦ rw e refl | inr e ↦ rw e refl ]

length_finished-Steady :
    (success : Bool) (bytes : Bytes) (io : ClientIo)
    → SteadyIo io.sig_exit (on_read_parcel_length_finished success bytes io)
unfolding on_read_parcel_length_finished async_read_parcel_content
length_finished-Steady success bytes io =
    let io' = record io { rd_buf = overwrite bytes io.rd_buf } in
    elim (Bool-cases (success && length bytes == io.expecting_rdlen)) [
      | inl e ↦ rw e (
          Safe-bind (λ _. Unit {0}) (λ (j, _). j.sig_exit ≡ io.sig_exit) (get_u16 io'.rd_buf) _
            (get_u16-Quiet io'.rd_buf) (λ _ _. refl))
      | inr e ↦ rw e (read_failed-Steady io')
    ]

content_finished-Steady :
    (success : Bool) (bytes : Bytes) (io : ClientIo)
    → SteadyIo io.sig_exit (on_read_parcel_content_finished success bytes io)
unfolding on_read_parcel_content_finished
content_finished-Steady success bytes io =
    let io' = record io { rd_buf = overwrite bytes io.rd_buf } in
    elim (Bool-cases (success && length bytes == io.expecting_rdlen)) [
      | inl e ↦ rw e (
          Safe-bind (λ _. Unit {0}) (λ (j, _). j.sig_exit ≡ io.sig_exit) (inflate io'.rd_buf) _
            (inflate-Quiet io'.rd_buf) (λ _ _. refl))
      | inr e ↦ rw e (read_failed-Steady io')
    ]

pub finish-Steady :
    (op : ClientOp) (o : Outcome) (io : ClientIo) → SteadyIo io.sig_exit (finish op o io)
unfolding finish on_connect_finished on_write_parcel_finished reset_socket
finish-Steady connecting o io = elim (Bool-cases io.sig_exit) [
  | inl e ↦ rw e refl
  | inr e ↦ elim (Bool-cases o.success) [ inl f ↦ rw (e, f) refl | inr f ↦ rw (e, f) refl ]
]
finish-Steady reading_length o io = length_finished-Steady o.success o.bytes io
finish-Steady (reading_content len) o io = content_finished-Steady o.success o.bytes io
finish-Steady (writing frame) o io = elim (Bool-cases io.sig_exit) [
  | inl e ↦ rw e refl
  | inr e ↦ elim (Bool-cases (o.success && length o.bytes == io.expecting_wtlen)) [
    | inl f ↦ rw (e, f) refl
    | inr f ↦ rw (e, f) refl
  ]
]
