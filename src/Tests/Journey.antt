-- ===== src/Tests/Journey.antt =====
-- The way of a log at concrete input: a server with a publisher and a subscriber.
use dill.Tests.Runs.{read, server0, server3, published, state_of}
use dill.Tests.Examples.{idle, length-buffer, subscriber}
use dill.Session.Journey.{Arrives, journey_lem}
use dill.Protocol.{deflate, deflate_len, inflate, str_len}
use dill.Protocol.Ops.{is_log, priority_subscribe}
use dill.Protocol.Wire.{put_u16, get_bytes}
use dill.Channel.{DillServerChannel, new_channel, attach_subscriber}
use dill.Subscriber.{request, new_subscriber}
use dill.Agent.{log_parcel}
use dill.Server.State.{
  DillServer, DillServerConnection, accepting, reading_length, reading_content, find_conn, callback,
  set_conn, erase_conn, mode_publisher, write_all, register_event_callback,
}
use dill.Server.Connection.{
  is_publisher_op, is_subscriber_op, find_or_create, publish_reply, on_publish, on_publisher_parcel,
  on_subscribe_parcel, on_subscribe, on_parcel, on_mode, new_connection, async_read_parcel,
  async_read_parcel_content, on_read_parcel_length_finished, on_read_parcel_content_finished,
}
use dill.Server.Loop.{
  Outcome, handle, new_server, enter_loop, Reach, round, RunOne, run_one, NoWriteFails,
  on_accept_finished, async_accept,
}
use dill.Server.Registry.{get_channel_data, find_channel_by_name, find_name, create_channel_data}
use dill.Base.{
  ◌≤◌, ◌≡◌, refl, true, Option, none, some, [], ◌∷◌, ◌++◌, arith, c_str, overwrite, ok, take, drop,
  set_insert,
}

abbrev accepted : Outcome
accepted = record { success = true; transferred = []; address = 9; rdbuf = []; wtbuf = [] }

-- A second client connects, and sends a SUBSCRIBE parcel for the first channel.
abbrev server4 : DillServer
server4 = state_of (handle accepting accepted (record server3 { pending = drop 1 server3.pending }))

abbrev server5 : DillServer
server5 = state_of (
    handle (reading_length 9) (read (put_u16 17))
      (record server4 { pending = take 2 server4.pending ++ (accepting ∷ []) }))

abbrev server6 : DillServer
server6 = state_of (
    handle (reading_content 9 17) (read (deflate (request priority_subscribe 0)))
      (record server5 { pending = take 3 server5.pending ++ [] }))

unfoldable conn_of : Option DillServerConnection → DillServerConnection
conn_of none = new_connection [] []
conn_of (some c) = c

run4 : RunOne NoWriteFails server3 (ok server4)
unfolding state_of handle register_event_callback enter_loop new_server on_accept_finished
    async_accept find_conn callback async_read_parcel new_connection on_read_parcel_length_finished
    async_read_parcel_content on_read_parcel_content_finished on_mode on_parcel set_conn overwrite
    deflate deflate_len inflate str_len on_publisher_parcel on_publish is_publisher_op
    is_subscriber_op find_or_create find_channel_by_name find_name create_channel_data new_channel
    publish_reply erase_conn is_log c_str get_bytes dill.Server.State.async_write_parcel
    get_channel_data on_subscribe_parcel on_subscribe attach_subscriber set_insert write_all conn_of
run4 =
    run_one [] (drop 1 server3.pending) accepting accepted refl (refl, λ e. omega (arith, e)) tt
      refl

run5 : RunOne NoWriteFails server4 (ok server5)
unfolding state_of handle register_event_callback enter_loop new_server on_accept_finished
    async_accept find_conn callback async_read_parcel new_connection on_read_parcel_length_finished
    async_read_parcel_content on_read_parcel_content_finished on_mode on_parcel set_conn overwrite
    deflate deflate_len inflate str_len on_publisher_parcel on_publish is_publisher_op
    is_subscriber_op find_or_create find_channel_by_name find_name create_channel_data new_channel
    publish_reply erase_conn is_log c_str get_bytes dill.Server.State.async_write_parcel
    get_channel_data on_subscribe_parcel on_subscribe attach_subscriber set_insert write_all conn_of
run5 =
    run_one (take 2 server4.pending) (accepting ∷ []) (reading_length 9) (read (put_u16 17)) refl tt
      tt refl

run6 : RunOne NoWriteFails server5 (ok server6)
unfolding state_of handle register_event_callback enter_loop new_server on_accept_finished
    async_accept find_conn callback async_read_parcel new_connection on_read_parcel_length_finished
    async_read_parcel_content on_read_parcel_content_finished on_mode on_parcel set_conn overwrite
    deflate deflate_len inflate str_len on_publisher_parcel on_publish is_publisher_op
    is_subscriber_op find_or_create find_channel_by_name find_name create_channel_data new_channel
    publish_reply erase_conn is_log c_str get_bytes dill.Server.State.async_write_parcel
    get_channel_data on_subscribe_parcel on_subscribe attach_subscriber set_insert write_all conn_of
run6 =
    run_one (take 3 server5.pending) [] (reading_content 9 17)
      (read (deflate (request priority_subscribe 0))) refl tt tt refl

subscribed : Reach NoWriteFails (enter_loop server0) server6
subscribed = round (round (round published run4) run5) run6

abbrev publisher : DillServerConnection
publisher = conn_of (find_conn 7 server6.conns)

abbrev channel : DillServerChannel
channel = record (new_channel 0 100 (97 ∷ [])) { subscribers = 9 ∷ [] }

publisher_there : find_conn 7 server6.conns ≡ some publisher
unfolding state_of handle register_event_callback enter_loop new_server on_accept_finished
    async_accept find_conn callback async_read_parcel new_connection on_read_parcel_length_finished
    async_read_parcel_content on_read_parcel_content_finished on_mode on_parcel set_conn overwrite
    deflate deflate_len inflate str_len on_publisher_parcel on_publish is_publisher_op
    is_subscriber_op find_or_create find_channel_by_name find_name create_channel_data new_channel
    publish_reply erase_conn is_log c_str get_bytes dill.Server.State.async_write_parcel
    get_channel_data on_subscribe_parcel on_subscribe attach_subscriber set_insert write_all conn_of
publisher_there = refl

publisher-mode : publisher.mode ≡ mode_publisher
unfolding state_of handle register_event_callback enter_loop new_server on_accept_finished
    async_accept find_conn callback async_read_parcel new_connection on_read_parcel_length_finished
    async_read_parcel_content on_read_parcel_content_finished on_mode on_parcel set_conn overwrite
    deflate deflate_len inflate str_len on_publisher_parcel on_publish is_publisher_op
    is_subscriber_op find_or_create find_channel_by_name find_name create_channel_data new_channel
    publish_reply erase_conn is_log c_str get_bytes dill.Server.State.async_write_parcel
    get_channel_data on_subscribe_parcel on_subscribe attach_subscriber set_insert write_all conn_of
publisher-mode = refl

channel_there : get_channel_data 0 server6 ≡ some channel
unfolding state_of handle register_event_callback enter_loop new_server on_accept_finished
    async_accept find_conn callback async_read_parcel new_connection on_read_parcel_length_finished
    async_read_parcel_content on_read_parcel_content_finished on_mode on_parcel set_conn overwrite
    deflate deflate_len inflate str_len on_publisher_parcel on_publish is_publisher_op
    is_subscriber_op find_or_create find_channel_by_name find_name create_channel_data new_channel
    publish_reply erase_conn is_log c_str get_bytes dill.Server.State.async_write_parcel
    get_channel_data on_subscribe_parcel on_subscribe attach_subscriber set_insert write_all conn_of
channel_there = refl

fits : deflate_len (log_parcel idle 2 (65 ∷ []) (66 ∷ []) 5 6) ≤ 100
unfolding deflate_len str_len log_parcel c_str
fits = omega arith

journey_lem_example : Arrives idle 2 (65 ∷ []) (66 ∷ []) 5 6 7 server6 channel subscriber
unfolding is_log new_subscriber
journey_lem_example =
    journey_lem true 100 4 idle 2 (65 ∷ []) (66 ∷ []) 5 6 7 publisher channel subscriber
      (omega arith) subscribed refl refl refl refl length-buffer (omega arith) refl fits
      publisher_there publisher-mode channel_there refl refl
