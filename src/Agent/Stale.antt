-- ===== src/Agent/Stale.antt =====
-- What is left of a connection when the log agent (libdill/src/log.cpp) connects again. An error closes
-- the socket (libdill/src/client_netio.cpp), which completes what else is pending on it with an error:
-- first the read of the old connection, whose handler closes the socket of the new attempt, and then
-- each attempt by the failure of the one before it.
use dill.Agent.{DillLogAgent, upcall, connected, parcel_sent, on_error}
use dill.Client.{
  ClientIo, connecting, Upcall, on_connect_finished, on_read_parcel_length_finished,
  on_write_parcel_finished, read_failed, reset_socket, async_connect, writing, reading_length,
}
use dill.Protocol.{DillParcel}
use dill.Base.{
  ℕ, zero, suc, ◌≡◌, refl, ap, ◌∙◌, false, Option, none, some, [], ◌∷◌, ◌++◌, Bytes, overwrite,
  Result, ok, ◌>>=◌, drop,
}

-- The operations that are pending without the first one.
abbrev pub taken : ClientIo → ClientIo
taken io = record io { pending = drop 1 io.pending }

-- What the agent becomes when a handler has returned, and the call of the host that it makes.
abbrev pub react : DillParcel → ClientIo × Option Upcall → DillLogAgent → Result DillLogAgent
react junk (io, none) a = ok (record a { io = io })
react junk (io, some call) a = upcall junk call (record a { io = io })

-- The agent behind an error on its socket.
abbrev lost : DillLogAgent → DillLogAgent
lost a = on_error (record a { io = reset_socket (taken a.io) })

write_fails :
    (junk : DillParcel) (n : ℕ) (a : DillLogAgent)
    → a.io.sig_exit ≡ false
    → react junk (on_write_parcel_finished false n (taken a.io)) a ≡ ok (lost a)
unfolding on_write_parcel_finished upcall parcel_sent
write_fails junk n a running = rw running refl

read_fails :
    (junk : DillParcel) (a : DillLogAgent)
    → a.io.sig_exit ≡ false
    → (on_read_parcel_length_finished false [] (taken a.io) >>= λ r. react junk r a) ≡ ok (lost a)
unfolding on_read_parcel_length_finished read_failed upcall overwrite
read_fails junk a running = rw running refl

-- Attempts to connect that fail, one after the other.
abbrev pub attempts_fail : DillParcel → ℕ → DillLogAgent → Result DillLogAgent
attempts_fail junk zero a = ok a
attempts_fail junk (suc n) a =
    react junk (on_connect_finished false (taken a.io)) a >>= attempts_fail junk n

attempt_fails :
    (junk : DillParcel) (a : DillLogAgent)
    → a.io.sig_exit ≡ false
    → react junk (on_connect_finished false (taken a.io)) a ≡ ok (lost a)
unfolding on_connect_finished upcall connected reset_socket
attempt_fails junk a running = rw running refl

lost_lem :
    (a : DillLogAgent)
    → ((lost a).io.pending ≡ drop 1 a.io.pending ++ (connecting ∷ []))
      × ((lost a).io.sig_exit ≡ a.io.sig_exit)
unfolding on_error async_connect reset_socket
lost_lem a = (refl, refl)

attempts_lem :
    (junk : DillParcel) (n : ℕ) (a : DillLogAgent)
    → a.io.sig_exit ≡ false
    → a.io.pending ≡ connecting ∷ connecting ∷ []
    → (b : DillLogAgent) × (attempts_fail junk n a ≡ ok b)
      × (b.io.pending ≡ connecting ∷ connecting ∷ [])
attempts_lem junk zero a running two = (a, refl, two)
attempts_lem junk (suc n) a running two =
    let (pend, run) = lost_lem a in
    let (b, e, still) =
      attempts_lem junk n (lost a) (run ∙ running)
        (pend ∙ ap (λ q. drop 1 q ++ (connecting ∷ [])) two) in
    (b, ap (λ r. r >>= attempts_fail junk n) (attempt_fails junk a running) ∙ e, still)

-- The write of an agent fails while a read is pending, and then the read fails as well. The agent
-- connects again after each, so that two attempts to connect are pending; and after any number of
-- attempts that fail there are still two.
pub stale_read_lem :
    (junk : DillParcel) (transferred attempts : ℕ) (a : DillLogAgent) (bytes : Bytes)
    → a.io.sig_exit ≡ false
    → a.io.pending ≡ writing bytes ∷ reading_length ∷ []
    → (b c d : DillLogAgent) × (react junk
          (on_write_parcel_finished false transferred (taken a.io))
          a
        ≡ ok b)
      × (b.io.pending ≡ reading_length ∷ connecting ∷ [])
      × ((on_read_parcel_length_finished false [] (taken b.io) >>= λ r. react junk r b) ≡ ok c)
      × (c.io.pending ≡ connecting ∷ connecting ∷ [])
      × (attempts_fail junk attempts c ≡ ok d)
      × (d.io.pending ≡ connecting ∷ connecting ∷ [])
stale_read_lem junk transferred attempts a bytes running flight =
    let b = lost a in
    let c = lost b in
    let (pend_b, run_b) = lost_lem a in
    let (pend_c, run_c) = lost_lem b in
    let first : b.io.pending ≡ reading_length ∷ connecting ∷ [] =
      pend_b ∙ ap (λ q. drop 1 q ++ (connecting ∷ [])) flight in
    let second : c.io.pending ≡ connecting ∷ connecting ∷ [] =
      pend_c ∙ ap (λ q. drop 1 q ++ (connecting ∷ [])) first in
    let (d, failing, third) = attempts_lem junk attempts c (run_c ∙ run_b ∙ running) second in
    (
      b,
      c,
      d,
      write_fails junk transferred a running,
      first,
      read_fails junk b (run_b ∙ running),
      second,
      failing,
      third,
    )
