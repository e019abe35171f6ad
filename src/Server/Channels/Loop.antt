-- ===== src/Server/Channels/Loop.antt =====
-- The event loop of libdill/src/server_netio.cpp changes the channels only in the ways of `Closed`.
use dill.Base.{
  ℕ, refl, sym, subst, Bool, true, false, ◌&&◌, List, [], ◌++◌, map, Bytes, c_str, overwrite,
  use_after_free, Result, ok, or_fault, ◌==◌, if◌then◌else◌, length, All,
}
use dill.Channel.{DillServerChannel, detach_subscriber}
use dill.Server.State.{
  Pending, accepting, reading_length, reading_content, writing, disconnecting, DillServer,
  register_event_callback, schedule_disconnect, find_conn, ptrval,
}
use dill.Server.Channels.Closed.{Closed, Holds, Holds-bind, Holds-then, Holds-if}
use dill.Server.Channels.Kept.{Kept, callback-Kept, on_mode-Kept}
use dill.Server.Loop.{
  here, round, registers, run_one, on_accept_finished, handle, enter_loop, disconnect, Outcome,
  new_server, async_accept, RunOne, Reach, is_subscriber, is_publisher,
}
use dill.Server.Connection.{
  on_write_parcel_finished, on_read_parcel_length_finished, on_read_parcel_content_finished,
  async_read_parcel_content, async_read_parcel, on_mode,
}
use dill.Server.Channels.Reports.{IsReport, connected-IsReport, disconnected-IsReport}
use dill.Protocol.Wire.{get_u16}
use dill.Protocol.{inflate}

module _ (bufsize maxchannels : ℕ) (P : List DillServerChannel → Type 0)
    (closed : Closed bufsize maxchannels P) where
  abbrev K : DillServer → Type 0
  K = Kept bufsize maxchannels P

  on_read_parcel_length_finished-Kept :
      (conn : ℕ) (success : Bool) (bytes : Bytes) (s : DillServer)
      → K s
      → Holds K (on_read_parcel_length_finished conn success bytes s)
  unfolding on_read_parcel_length_finished async_read_parcel_content schedule_disconnect
  on_read_parcel_length_finished-Kept conn success bytes s k =
      Holds-then K (or_fault (find_conn conn s.conns) use_after_free) _ λ c.
        Holds-if K (success && length bytes == 2) _ _
          (Holds-then K (get_u16 (overwrite bytes c.rdbuf)) _ (λ _. k)) k

  on_read_parcel_content_finished-Kept :
      (conn : ℕ) (success : Bool) (bytes : Bytes) (s : DillServer)
      → K s
      → Holds K (on_read_parcel_content_finished conn success bytes s)
  unfolding on_read_parcel_content_finished async_read_parcel schedule_disconnect
  on_read_parcel_content_finished-Kept conn success bytes s k =
      Holds-then K (or_fault (find_conn conn s.conns) use_after_free) _ λ c.
        Holds-if K (success && length bytes == c.expecting_size) _ _
          (Holds-then K (inflate (overwrite bytes c.rdbuf)) _ λ (_, p).
            Holds-bind K K (on_mode c.mode conn p _) _
              (on_mode-Kept bufsize maxchannels P closed c.mode conn p _ k) (λ t w. w))
          k

  on_write_parcel_finished-Kept :
      (conn : ℕ) (success : Bool) (s : DillServer)
      → K s
      → Holds K (on_write_parcel_finished conn success s)
  unfolding on_write_parcel_finished schedule_disconnect
  on_write_parcel_finished-Kept conn success s k =
      Holds-if K success (ok s) _ k
        (Holds-then K (or_fault (find_conn conn s.conns) use_after_free) _ (λ c. k))

  detach_if :
      (b : Bool) (conn : ℕ) (s : DillServer)
      → K s
      → K (record s {
        channel_data =
            if b then map (λ ch. detach_subscriber ch conn) s.channel_data else s.channel_data;
      })
  detach_if true conn s k = record {
    bufsize_is = k.bufsize_is;
    maxchannels_is = k.maxchannels_is;
    channels = closed.detaches_all s.channel_data conn k.channels;
    reported = k.reported;
  }
  detach_if false conn s k = k

  disconnect-Kept : (conn : ℕ) (s : DillServer) → K s → Holds K (disconnect conn s)
  unfolding disconnect
  disconnect-Kept conn s k = Holds-if K (conn == 0) (ok s) _ k (
      Holds-then K (or_fault (find_conn conn s.conns) use_after_free) _ (λ c.
        callback-Kept bufsize maxchannels P closed _ _ _ _ _ _ _
          (disconnected-IsReport (ptrval conn) (if is_publisher c then 1 else 0) (c_str c.chname))
          (detach_if (is_subscriber c) conn s k)))

  on_accept_finished-Kept :
      (success : Bool) (address : ℕ) (rdbuf wtbuf : Bytes) (s : DillServer)
      → K s
      → K (on_accept_finished success address rdbuf wtbuf s)
  unfolding on_accept_finished async_accept async_read_parcel
  on_accept_finished-Kept false address rdbuf wtbuf s k = k
  on_accept_finished-Kept true address rdbuf wtbuf s k =
      callback-Kept bufsize maxchannels P closed _ _ _ _ _ _ _ (connected-IsReport (ptrval address))
        k

  handle-Kept : (op : Pending) (o : Outcome) (s : DillServer) → K s → Holds K (handle op o s)
  unfolding handle
  handle-Kept accepting o s k = on_accept_finished-Kept o.success o.address o.rdbuf o.wtbuf s k
  handle-Kept (reading_length conn) o s k =
      on_read_parcel_length_finished-Kept conn o.success o.transferred s k
  handle-Kept (reading_content conn size) o s k =
      on_read_parcel_content_finished-Kept conn o.success o.transferred s k
  handle-Kept (writing conn frame) o s k = on_write_parcel_finished-Kept conn o.success s k
  handle-Kept (disconnecting conn) o s k = disconnect-Kept conn s k

  RunOne-Kept :
      {Q : Pending → Outcome → Type 0} {s : DillServer} {r : Result DillServer}
      → RunOne Q s r
      → K s
      → Holds K r
  RunOne-Kept {s} (run_one before after op o split fresh q e) k =
      subst (Holds K) (sym e) (handle-Kept op o (record s { pending = before ++ after }) k)

  Reach-Kept : {Q : Pending → Outcome → Type 0} {s t : DillServer} → K s → Reach Q s t → K t
  unfolding register_event_callback
  Reach-Kept k here = k
  Reach-Kept k (round r one) = RunOne-Kept one (Reach-Kept k r)
  Reach-Kept k (registers fn r) = Reach-Kept k r

  start-Kept : (bound : Bool) → P [] → K (enter_loop (new_server bound bufsize maxchannels))
  unfolding enter_loop new_server async_accept
  start-Kept true h = record {
    bufsize_is = refl;
    maxchannels_is = refl;
    channels = h;
    reported = tt;
  }
  start-Kept false h = record {
    bufsize_is = refl;
    maxchannels_is = refl;
    channels = h;
    reported = tt;
  }

  -- So it holds in every state that a server reaches.
  pub Reach-channels :
      {Q : Pending → Outcome → Type 0} (bound : Bool) {s : DillServer}
      → P []
      → Reach Q (enter_loop (new_server bound bufsize maxchannels)) s
      → P s.channel_data
  Reach-channels bound h r = (Reach-Kept (start-Kept bound h) r).channels

  -- And each event is one of those that `callback` sets all fields of.
  pub Reach-events :
      {Q : Pending → Outcome → Type 0} (bound : Bool) {s : DillServer}
      → P []
      → Reach Q (enter_loop (new_server bound bufsize maxchannels)) s
      → All IsReport s.events
  Reach-events bound h r = (Reach-Kept (start-Kept bound h) r).reported
