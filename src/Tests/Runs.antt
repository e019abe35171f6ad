-- ===== src/Tests/Runs.antt =====
-- A run of the server of libdill/src/server_netio.cpp: a client connects and asks to publish.
use dill.Server.Connection.{
  is_publisher_op, is_subscriber_op, find_or_create, publish_reply, on_publish, on_publisher_parcel,
  on_parcel, on_mode, new_connection, async_read_parcel, async_read_parcel_content,
  on_read_parcel_length_finished, on_read_parcel_content_finished,
}
use dill.Base.{
  ◌≡◌, refl, true, some, [], ◌∷◌, arith, Bytes, c_str, overwrite, Result, ok, err, none,
}
use dill.Protocol.{DillParcel, deflate, deflate_len, inflate, str_len}
use dill.Protocol.Ops.{priority_publish, is_log, priority_connected}
use dill.Protocol.Wire.{put_u16, get_bytes}
use dill.Channel.{new_channel}
use dill.Server.State.{
  DillServer, register_event_callback, accepting, reading_length, reading_content, find_conn,
  callback, set_conn, erase_conn,
}
use dill.Server.Loop.{
  Outcome, handle, new_server, enter_loop, Reach, here, registers, round, RunOne, run_one,
  NoWriteFails, on_accept_finished, async_accept,
}
use dill.Server.Registry.{get_channel_data, find_channel_by_name, find_name, create_channel_data}
use dill.Server.Event.{make_event}

abbrev pub publish_parcel : DillParcel
publish_parcel = record {
  op = priority_publish;
  id = 0;
  timestamp1 = 0;
  timestamp2 = 0;
  str1 = 97 ∷ [];
  str2 = [];
}

abbrev pub read : Bytes → Outcome
read bytes = record { success = true; transferred = bytes; address = 0; rdbuf = []; wtbuf = [] }

abbrev accepted : Outcome
accepted = record { success = true; transferred = []; address = 7; rdbuf = []; wtbuf = [] }

abbrev pub server0 : DillServer
server0 = new_server true 100 4

unfoldable pub state_of : Result DillServer → DillServer
state_of (ok s) = s
state_of (err e) = server0

-- The program has registered its callback.
abbrev entered : DillServer
entered = register_event_callback true (enter_loop server0)

-- The connection is accepted, then the length and the PUBLISH parcel are read.
abbrev server1 : DillServer
server1 = state_of (handle accepting accepted (record entered { pending = [] }))

abbrev server2 : DillServer
server2 = state_of (
    handle (reading_length 7) (read (put_u16 (deflate_len publish_parcel)))
      (record server1 { pending = accepting ∷ [] }))

abbrev pub server3 : DillServer
server3 = state_of (
    handle (reading_content 7 (deflate_len publish_parcel)) (read (deflate publish_parcel))
      (record server2 { pending = accepting ∷ [] }))

run1 : RunOne NoWriteFails entered (ok server1)
unfolding state_of handle register_event_callback enter_loop new_server on_accept_finished
    async_accept find_conn callback async_read_parcel new_connection on_read_parcel_length_finished
    async_read_parcel_content on_read_parcel_content_finished on_mode on_parcel set_conn overwrite
    deflate deflate_len inflate str_len on_publisher_parcel on_publish is_publisher_op
    is_subscriber_op find_or_create find_channel_by_name find_name create_channel_data new_channel
    publish_reply erase_conn is_log c_str get_bytes dill.Server.State.async_write_parcel
run1 = run_one [] [] accepting accepted refl (refl, λ e. omega (arith, e)) tt refl

run2 : RunOne NoWriteFails server1 (ok server2)
unfolding state_of handle register_event_callback enter_loop new_server on_accept_finished
    async_accept find_conn callback async_read_parcel new_connection on_read_parcel_length_finished
    async_read_parcel_content on_read_parcel_content_finished on_mode on_parcel set_conn overwrite
    deflate deflate_len inflate str_len on_publisher_parcel on_publish is_publisher_op
    is_subscriber_op find_or_create find_channel_by_name find_name create_channel_data new_channel
    publish_reply erase_conn is_log c_str get_bytes dill.Server.State.async_write_parcel
run2 =
    run_one [] (accepting ∷ []) (reading_length 7) (read (put_u16 (deflate_len publish_parcel)))
      refl tt tt refl

run3 : RunOne NoWriteFails server2 (ok server3)
unfolding state_of handle register_event_callback enter_loop new_server on_accept_finished
    async_accept find_conn callback async_read_parcel new_connection on_read_parcel_length_finished
    async_read_parcel_content on_read_parcel_content_finished on_mode on_parcel set_conn overwrite
    deflate deflate_len inflate str_len on_publisher_parcel on_publish is_publisher_op
    is_subscriber_op find_or_create find_channel_by_name find_name create_channel_data new_channel
    publish_reply erase_conn is_log c_str get_bytes dill.Server.State.async_write_parcel
run3 =
    run_one (accepting ∷ []) [] (reading_content 7 (deflate_len publish_parcel))
      (read (deflate publish_parcel)) refl tt tt refl

-- A server that has made a channel for the client.
pub published : Reach NoWriteFails (enter_loop server0) server3
published = round (round (round (registers true here) run1) run2) run3

pub server3-channel_data : server3.channel_data ≡ new_channel 0 100 (97 ∷ []) ∷ []
unfolding state_of handle register_event_callback enter_loop new_server on_accept_finished
    async_accept find_conn callback async_read_parcel new_connection on_read_parcel_length_finished
    async_read_parcel_content on_read_parcel_content_finished on_mode on_parcel set_conn overwrite
    deflate deflate_len inflate str_len on_publisher_parcel on_publish is_publisher_op
    is_subscriber_op find_or_create find_channel_by_name find_name create_channel_data new_channel
    publish_reply erase_conn is_log c_str get_bytes dill.Server.State.async_write_parcel
    get_channel_data
server3-channel_data = refl

pub server3-channel : get_channel_data 0 server3 ≡ some (new_channel 0 100 (97 ∷ []))
unfolding state_of handle register_event_callback enter_loop new_server on_accept_finished
    async_accept find_conn callback async_read_parcel new_connection on_read_parcel_length_finished
    async_read_parcel_content on_read_parcel_content_finished on_mode on_parcel set_conn overwrite
    deflate deflate_len inflate str_len on_publisher_parcel on_publish is_publisher_op
    is_subscriber_op find_or_create find_channel_by_name find_name create_channel_data new_channel
    publish_reply erase_conn is_log c_str get_bytes dill.Server.State.async_write_parcel
    get_channel_data
server3-channel = refl

-- The callback has been called for the connection and for the PUBLISH parcel.
server3-events :
    server3.events
    ≡ make_event priority_connected 7 0 0 none none
      ∷ make_event priority_publish 7 0 0 (some (97 ∷ [])) none
      ∷ []
unfolding state_of handle register_event_callback enter_loop new_server on_accept_finished
    async_accept find_conn callback async_read_parcel new_connection on_read_parcel_length_finished
    async_read_parcel_content on_read_parcel_content_finished on_mode on_parcel set_conn overwrite
    deflate deflate_len inflate str_len on_publisher_parcel on_publish is_publisher_op
    is_subscriber_op find_or_create find_channel_by_name find_name create_channel_data new_channel
    publish_reply erase_conn is_log c_str get_bytes dill.Server.State.async_write_parcel
server3-events = refl
