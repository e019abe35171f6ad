-- ===== src/Tests/Servers.antt =====
-- The theorems about the server and its answers at concrete inputs.

use dill.Base.{
  ◌≤◌, ◌≡◌, refl, true, false, none, some, [], ◌∷◌, ◌++◌, arith, Bytes, c_str, use_after_free, ok,
  err, length, take, drop, All,
}
use dill.Protocol.Ops.{priority_availch}
use dill.Channel.{new_channel}
use dill.Server.State.{DillServer, writing, framed, find_conn, mode_subscriber, reading_length}
use dill.Server.Connection.{
  new_connection, on_publish, on_availch, on_read_parcel_length_finished,
  on_read_parcel_content_finished,
}
use dill.Server.Registry.{find_channel_by_name, get_channel_data}
use dill.Server.Loop.{new_server, Reach, RunOne, AnyOutcome}
use dill.Server.Safety.Faults.{failed_write_use_after_free}
use dill.Server.Channels.Valid.{IsSized, Reach-IsSized}
use dill.Server.Channels.Registry.{Reach-registry}
use dill.Server.Frames.{frame}
use dill.Server.Replies.{Answered, on_publish_lem, Availch, on_availch_lem}
use dill.Subscriber.{request, DillSubscriber, new_subscriber, ask, wait, upcall}
use dill.Session.Question.{question_lem}
use dill.Client.{Upcall, ClientIo, is_connected}
use dill.Tests.Runs.{server0, server3, server3-channel, publish_parcel, published}
use dill.Tests.Examples.{info_parcel, subscriber}
use dill.Protocol.{DillParcel}

abbrev writing_server : DillServer
writing_server = record server0 {
  conns = (7, new_connection [] []) ∷ [];
  pending = writing 7 (1 ∷ []) ∷ dill.Server.State.reading_length 7 ∷ [];
}

failed_write_use_after_free_example :
    (t : DillServer) × Reach AnyOutcome writing_server t × RunOne AnyOutcome t (err use_after_free)
unfolding find_conn
failed_write_use_after_free_example =
    failed_write_use_after_free writing_server 7 (new_connection [] []) (1 ∷ []) []
      (λ e. omega (arith, e)) refl refl

Reach-IsSized_example : All (IsSized 100) server3.channel_data
Reach-IsSized_example = Reach-IsSized true 100 4 (omega arith) published

Reach-registry_example :
    ((new_channel 0 100 (97 ∷ [])).id ≡ 0)
    × (find_channel_by_name (some (97 ∷ [])) server3 ≡ some (new_channel 0 100 (97 ∷ [])))
    × (length server3.channel_data ≤ 4)
unfolding new_channel
Reach-registry_example =
    Reach-registry true 100 4 0 (new_channel 0 100 (97 ∷ [])) (omega arith) published
      server3-channel

on_publish_lem_example :
    (t : DillServer) × (reply : DillParcel) × (on_publish 7 publish_parcel writing_server ≡ ok t)
    × (t.pending ≡ writing_server.pending ++ (writing 7 (frame reply) ∷ []))
    × Answered writing_server (c_str (97 ∷ [])) reply t.channel_data
unfolding find_conn
on_publish_lem_example = on_publish_lem writing_server 7 (new_connection [] []) publish_parcel refl

on_availch_lem_example :
    Availch writing_server 7 info_parcel (on_availch 7 info_parcel writing_server)
unfolding find_conn new_server
on_availch_lem_example =
    on_availch_lem writing_server 7 (new_connection [] []) info_parcel refl (omega arith)

-- A server with the connection 7 and the channel `a`, and a subscriber that has asked it.
abbrev asked_server : DillServer
asked_server = record writing_server { channel_data = new_channel 0 100 (97 ∷ []) ∷ [] }

abbrev asked_first : DillSubscriber
asked_first = record subscriber {
  io = dill.Client.async_write_parcel (request priority_availch 0) subscriber.io;
}

question_lem_example :
    (question sent : Bytes) × (s₁ t : DillServer) × (io₁ io₂ : ClientIo) × (call : Upcall)
    × (asked_first.io.pending ≡ subscriber.io.pending ++ (dill.Client.writing question ∷ []))
    × (on_read_parcel_length_finished 7 true (take 2 question) asked_server ≡ ok s₁)
    × (on_read_parcel_content_finished 7 true (drop 2 question) s₁ ≡ ok t)
    × (t.pending ≡ s₁.pending ++ (writing 7 sent ∷ reading_length 7 ∷ []))
    × (dill.Client.on_read_parcel_length_finished true (take 2 sent) (wait asked_first).io
        ≡ ok (io₁, none))
    × (dill.Client.on_read_parcel_content_finished true (drop 2 sent) io₁ ≡ ok (io₂, some call))
    × (let after = upcall call (record (wait asked_first) { io = io₂ }) in
        (after.waiting ≡ 0)
        × (after.availch ≡ 1)
        × (after.chname ≡ 97 ∷ [])
        × (after.on_rpc ≡ false))
unfolding find_conn new_server get_channel_data new_channel ask new_subscriber is_connected c_str
    dill.Client.async_write_parcel new_connection
question_lem_example =
    question_lem 0 7 asked_server (new_connection [] []) (new_channel 0 100 (97 ∷ [])) subscriber
      asked_first refl (λ e. cc) (omega arith) refl refl refl refl
