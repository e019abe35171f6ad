-- ===== src/Tests/Threads.antt =====
-- The threads of a server (libdill/src/server_netio.cpp) at concrete input.
use dill.Lifetime.{live, null, deleted, access, delete, non_null, release, release_socket}
use dill.Lifetime.Server.{
  ServerLife, begin, complete, body_turn, owner_turn, next_socket, join, free_rest, is_ended,
  in_use, stopping, destroyed, runs, Turn, Turns, here, turn, by_owner, by_body, completes,
}
use dill.Lifetime.Server.Released.{released_lem}
use dill.Lifetime.Server.Ends.{destructor_ends, body_turns}
use dill.Base.{
  ◌≡◌, refl, ◌⊎◌, true, [], ◌∷◌, arith, overwrite, null_string, out_of_bounds, Result, ok, err,
  ◌>>=◌,
}
use dill.Tests.Runs.{read}
use dill.Lifetime.Server.Threads.{Turns-fault}
use dill.Server.Connection.{
  new_connection, async_read_parcel, async_read_parcel_content, on_read_parcel_length_finished,
  on_read_parcel_content_finished,
}
use dill.Server.State.{accepting, reading_length, reading_content, find_conn, callback, set_conn}
use dill.Server.Loop.{
  Outcome, handle, new_server, NoWriteFails, on_accept_finished, async_accept, leave_loop,
}
use dill.Protocol.{inflate}

abbrev life0 : ServerLife
life0 = dill.Lifetime.Server.new_life true 100 4

unfoldable life_of : Result ServerLife → ServerLife
life_of (ok l) = l
life_of (err e) = life0

-- The thread enters its loop and waits.
abbrev waiting : ServerLife
waiting = life_of (body_turn (life_of (body_turn life0)))

waits : Turns NoWriteFails life0 waiting
unfolding life_of body_turn begin access async_accept new_server dill.Lifetime.Server.new_life
waits = turn (turn here (by_body refl)) (by_body refl)

abbrev stopped : ServerLife
stopped = life_of (owner_turn (life_of (owner_turn (life_of (owner_turn waiting)))))

abbrev gone : ServerLife
gone = life_of (body_turns 3 stopped >>= λ l. owner_turn l >>= owner_turn)

stops : Turns NoWriteFails waiting stopped
unfolding life_of body_turn begin access async_accept new_server dill.Lifetime.Server.new_life
    owner_turn non_null delete
stops = turn (turn (turn here (by_owner refl)) (by_owner refl)) (by_owner refl)

ends : Turns NoWriteFails stopped gone
unfolding life_of body_turn begin access async_accept new_server dill.Lifetime.Server.new_life
    owner_turn non_null delete release release_socket join free_rest is_ended leave_loop
ends =
    turn
      (turn (turn (turn (turn here (by_body refl)) (by_body refl)) (by_body refl)) (by_owner refl))
      (by_owner refl)

append :
    {l m n : ServerLife} → Turns NoWriteFails l m → Turns NoWriteFails m n → Turns NoWriteFails l n
append r here = r
append r (turn s one) = turn (append r s) one

destructor_ends_example :
    (m : ServerLife) × ((body_turns 3 stopped >>= λ l. owner_turn l >>= owner_turn) ≡ ok m)
    × (m.owner ≡ destroyed)
unfolding life_of body_turn begin access async_accept new_server dill.Lifetime.Server.new_life
    owner_turn non_null delete
destructor_ends_example = destructor_ends true 100 4 (append waits stops) refl

released_lem_example :
    (gone.server.conns ≡ [])
    × (gone.server.channel_data ≡ [])
    × (gone.thread ≡ null)
    × (gone.iowork ≡ deleted)
    × (gone.client_socket ≡ null)
    × (gone.server_socket ≡ null)
    × (gone.acceptor ≡ null)
    × (gone.iosvc ≡ null)
unfolding life_of body_turn begin access async_accept new_server dill.Lifetime.Server.new_life
    owner_turn non_null delete release release_socket join free_rest is_ended leave_loop
released_lem_example = released_lem true 100 4 waits refl refl refl (append stops ends) refl

abbrev accepted : Outcome
accepted = record { success = true; transferred = []; address = 7; rdbuf = []; wtbuf = [] }

-- A client connects and sends a parcel of no bytes.
abbrev connected : ServerLife
connected = life_of (
    complete accepting accepted (record waiting { server = record waiting.server { pending = [] } })
    >>= body_turn)

abbrev length_read : ServerLife
length_read = life_of (
    complete (reading_length 7) (read (0 ∷ 0 ∷ []))
      (record connected { server = record connected.server { pending = accepting ∷ [] } })
    >>= body_turn)

connects : Turns NoWriteFails waiting connected
unfolding life_of body_turn begin access async_accept new_server dill.Lifetime.Server.new_life
    complete handle next_socket on_accept_finished callback async_read_parcel new_connection
    find_conn set_conn on_read_parcel_length_finished async_read_parcel_content
    on_read_parcel_content_finished overwrite inflate
connects =
    turn
      (turn here
        (completes [] [] accepting accepted refl refl refl (refl, λ e. omega (arith, e)) tt refl))
      (by_body refl)

reads_length : Turns NoWriteFails connected length_read
unfolding life_of body_turn begin access async_accept new_server dill.Lifetime.Server.new_life
    complete handle next_socket on_accept_finished callback async_read_parcel new_connection
    find_conn set_conn on_read_parcel_length_finished async_read_parcel_content
    on_read_parcel_content_finished overwrite inflate
reads_length =
    turn
      (turn here (
        completes [] (accepting ∷ []) (reading_length 7) (read (0 ∷ 0 ∷ [])) refl refl refl tt tt
          refl))
      (by_body refl)

reads_nothing : Turn NoWriteFails length_read (err out_of_bounds)
unfolding life_of body_turn begin access async_accept new_server dill.Lifetime.Server.new_life
    complete handle next_socket on_accept_finished callback async_read_parcel new_connection
    find_conn set_conn on_read_parcel_length_finished async_read_parcel_content
    on_read_parcel_content_finished overwrite inflate
reads_nothing =
    completes (accepting ∷ []) [] (reading_content 7 0) (read []) refl refl refl tt tt refl

Turns-fault_example : (out_of_bounds ≡ null_string) ⊎ (out_of_bounds ≡ out_of_bounds)
Turns-fault_example =
    Turns-fault true 100 4 (append waits (append connects reads_length)) reads_nothing out_of_bounds
      refl
