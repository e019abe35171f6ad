-- ===== src/Server/Safety/Faults.antt =====
-- How the loop of libdill/src/server_netio.cpp comes to touch a deleted connection after a write has
-- failed: the read that is still pending completes after the connection is gone.
use dill.Base.{
  ℕ, ◌≡◌, refl, sym, ap, ◌∙◌, ◌≢◌, false, Option, none, some, List, [], ◌∷◌, ◌++◌, map, arith,
  Bytes, c_str, use_after_free, ok, err, if◌then◌else◌, not-==,
}
use dill.Server.State.{
  DillServerConnection, Pending, reading_length, writing, disconnecting, DillServer, Conns,
  find_conn, erase_conn, callback, schedule_disconnect, ptrval,
}
use dill.Server.Loop.{
  Outcome, handle, RunOne, run_one, Reach, here, round, AnyOutcome, disconnect, is_subscriber,
  is_publisher,
}
use dill.Server.Connection.{on_write_parcel_finished, on_read_parcel_length_finished}
use dill.Channel.{detach_subscriber}
use dill.Protocol.Ops.{priority_disconnected}

find_conn-erase_conn : (a : ℕ) (cs : Conns) → find_conn a (erase_conn a cs) ≡ none
unfolding find_conn erase_conn
find_conn-erase_conn a [] = refl
find_conn-erase_conn a ((b, c) ∷ cs) = ground (arith, find_conn-erase_conn a cs)

-- An operation that completes with an error, with nothing read.
abbrev aborted : Outcome
aborted = record { success = false; transferred = []; address = 0; rdbuf = []; wtbuf = [] }

callback_frame :
    (op id t1 t2 : ℕ) (str1 str2 : Option Bytes) (s : DillServer)
    → let t = callback op id t1 t2 str1 str2 s in (t.conns ≡ s.conns) × (t.pending ≡ s.pending)
unfolding callback
callback_frame op id t1 t2 str1 str2 s = ground arith

-- The connection that a `disconnect` has deleted is not found, and the queue is as it was.
disconnect-deletes :
    (conn : ℕ) (s : DillServer) (c : DillServerConnection)
    → conn ≢ 0
    → find_conn conn s.conns ≡ some c
    → (t : DillServer) × (disconnect conn s ≡ ok t)
      × (find_conn conn t.conns ≡ none)
      × (t.pending ≡ s.pending)
unfolding disconnect
disconnect-deletes conn s c h e =
    let chs =
      (if is_subscriber c
        then map (λ ch. detach_subscriber ch conn) s.channel_data
        else s.channel_data) in
    let s' = record s { conns = erase_conn conn s.conns; channel_data = chs } in
    let (same_conns, same_pending) =
      callback_frame priority_disconnected (ptrval conn) (if is_publisher c then 1 else 0) 0
        (some (c_str c.chname)) none s' in
    (
      callback priority_disconnected (ptrval conn) (if is_publisher c then 1 else 0) 0
          (some (c_str c.chname)) none s',
      rw (not-== conn 0 h, e),
      ap (find_conn conn) same_conns ∙ find_conn-erase_conn conn s.conns,
      same_pending,
    )

-- A write to an allocated connection that fails while a read of the connection is pending can lead
-- the loop to a use after free: the posted disconnect deletes the connection, and the handler of
-- the read, which the closed socket completes with an error, then accesses it.
pub failed_write_use_after_free :
    (s : DillServer) (conn : ℕ) (c : DillServerConnection) (frame : Bytes) (rest : List Pending)
    → conn ≢ 0
    → find_conn conn s.conns ≡ some c
    → s.pending ≡ writing conn frame ∷ reading_length conn ∷ rest
    → (t : DillServer) × Reach AnyOutcome s t × RunOne AnyOutcome t (err use_after_free)
unfolding handle on_write_parcel_finished schedule_disconnect on_read_parcel_length_finished
failed_write_use_after_free s conn c frame rest h e p =
    let s1 = record s { pending = (reading_length conn ∷ rest) ++ (disconnecting conn ∷ []) } in
    let (t, gone, missing, same) =
      disconnect-deletes conn (record s { pending = (reading_length conn ∷ rest) ++ [] }) c h e in
    let failed : RunOne AnyOutcome s (ok s1) =
      run_one [] (reading_length conn ∷ rest) (writing conn frame) aborted p tt tt (rw e) in
    let deleted : RunOne AnyOutcome s1 (ok t) =
      run_one (reading_length conn ∷ rest) [] (disconnecting conn) aborted refl tt tt (sym gone) in
    (
      t,
      round (round here failed) deleted,
      run_one [] (rest ++ []) (reading_length conn) aborted same tt tt (rw missing),
    )
