-- ===== src/Tests/Clients.antt =====
-- The theorems about the log agent and the subscriber at concrete inputs.

use dill.Base.{
  ℕ, ◌≡◌, refl, Bool, true, false, Option, none, some, [], ◌∷◌, ◌++◌, map, arith, Bytes, c_str,
  Result, ok, err, take, drop, ◌>>=◌,
}
use dill.Protocol.{deflate_len}
use dill.Protocol.Ops.{priority_info, priority_availch, is_log}
use dill.Protocol.RoundTrip.{clip}
use dill.Server.Frames.{frame}
use dill.Agent.{DillLogAgent, post, enqueue, write_front, log_parcel}
use dill.Agent.Flows.{in_flight}
use dill.Agent.Early.{early_post_lem}
use dill.Agent.Queue.{IsIdle, Logged, begun, posted, logged_lem}
use dill.Subscriber.{DillSubscriber, new_subscriber, ask, wait, upcall}
use dill.Subscriber.Delivery.{delivered, delivery_lem}
use dill.Subscriber.Rpc.{answers, upcalls, Woken, rpc_lem, lost_answer_lem}
use dill.Client.{
  Upcall, ClientIo, on_parcel_read, on_io_error, on_parcel_sent, on_write_parcel_finished,
  reading_length, reading_content, is_connected, on_read_parcel_length_finished,
  on_read_parcel_content_finished,
}
use dill.Agent.Stale.{react, taken, attempts_fail, stale_read_lem}
use dill.Tests.Examples.{info_parcel, info_IsParcel, idle, idle_io, length-buffer, subscriber}

idle-IsIdle : IsIdle idle
idle-IsIdle = record {
  logs = refl;
  empty = refl;
  not_writing = refl;
  quiet = refl;
  runs = refl;
  buffer = length-buffer;
}

-- What a result holds.
unfoldable agent_of : Result (Bool × DillLogAgent) → DillLogAgent
agent_of (ok (b, a)) = a
agent_of (err e) = idle

abbrev posted_agent : DillLogAgent
posted_agent = agent_of (post priority_info (65 ∷ []) (66 ∷ 67 ∷ []) 5 6 idle)

one_log : Logged info_parcel idle (info_parcel ∷ []) [] posted_agent
unfolding post enqueue write_front agent_of log_parcel c_str
one_log = posted begun priority_info (65 ∷ []) (66 ∷ 67 ∷ []) 5 6 refl

logged_lem_example :
    (map frame (info_parcel ∷ []) ≡ [] ++ map frame posted_agent.queue)
    × (posted_agent.io.pending ≡ in_flight posted_agent.queue)
    × ((pri : ℕ) (tag msg : Bytes) (seconds fraction : ℕ)
        → (a' : DillLogAgent) × (post pri tag msg seconds fraction posted_agent ≡ ok (true, a')))
logged_lem_example = logged_lem idle-IsIdle one_log

delivery_lem_example :
    (io₁ io₂ : ClientIo) × (on_read_parcel_length_finished true (take 2 (frame info_parcel)) idle_io
      ≡ ok (io₁, none))
    × (on_read_parcel_content_finished true (drop 2 (frame info_parcel)) io₁
        ≡ ok (io₂, some (on_parcel_read (clip info_parcel))))
    × (let s' = upcall (on_parcel_read (clip info_parcel)) (record subscriber { io = io₂ }) in
        (s'.events ≡ [] ++ (delivered info_parcel ∷ []))
        × (s'.io.pending ≡ [] ++ (reading_content (deflate_len info_parcel) ∷ reading_length ∷ [])))
unfolding new_subscriber is_log
delivery_lem_example = delivery_lem info_parcel subscriber info_IsParcel refl refl refl

unfoldable subscriber_of : Option DillSubscriber → DillSubscriber
subscriber_of (some s) = s
subscriber_of none = subscriber

abbrev asked : DillSubscriber
asked = subscriber_of (ask 3 subscriber)

rpc_lem_example : Woken (answers on_io_error) on_io_error (upcall on_io_error (wait asked))
unfolding subscriber_of ask new_subscriber is_connected
rpc_lem_example = rpc_lem 3 subscriber asked on_io_error refl refl

lost_answer_lem_example :
    let answered = upcall (on_parcel_read (record info_parcel { op = priority_availch })) asked in
    let late = upcalls (on_parcel_read info_parcel ∷ []) (wait answered) in
    (answered.availch ≡ 5)
    × (answered.chname ≡ 65 ∷ [])
    × (late.waiting ≡ 1)
    × (late.on_rpc ≡ true)
    × Woken (answers on_io_error) on_io_error (upcall on_io_error late)
unfolding subscriber_of ask new_subscriber is_connected answers is_log
lost_answer_lem_example =
    lost_answer_lem 3 subscriber asked (record info_parcel { op = priority_availch })
      (on_parcel_read info_parcel ∷ []) on_io_error refl refl refl (refl, tt)

abbrev early : DillLogAgent
early = record idle { io = record idle_io { pending = dill.Client.writing (1 ∷ []) ∷ [] } }

early_post_lem_example :
    (b : DillLogAgent) × (c : DillLogAgent) × (io : ClientIo) × (post priority_info
        (65 ∷ [])
        (66 ∷ [])
        5
        6
        early
      ≡ ok (true, b))
    × (on_write_parcel_finished true 1 (record b.io { pending = drop 1 b.io.pending })
        ≡ (io, some (on_parcel_sent false)))
    × (dill.Agent.upcall info_parcel (on_parcel_sent false) (record b { io = io }) ≡ ok c)
    × (c.queue ≡ [])
    × (c.loggable ≡ false)
    × (c.io.pending
        ≡ dill.Client.writing (frame (log_parcel early priority_info (65 ∷ []) (66 ∷ []) 5 6))
          ∷ dill.Client.connecting
          ∷ [])
unfolding deflate_len
early_post_lem_example =
    early_post_lem info_parcel early (1 ∷ []) priority_info (65 ∷ []) (66 ∷ []) 5 6 refl refl refl
      refl refl (λ e. omega (arith, e))

-- An agent that writes its request and waits for the reply.
abbrev connecting_agent : DillLogAgent
connecting_agent = record idle {
  io = record idle_io { pending = dill.Client.writing (1 ∷ []) ∷ dill.Client.reading_length ∷ [] };
}

stale_read_lem_example :
    (b c d : DillLogAgent) × (react info_parcel
        (on_write_parcel_finished false 0 (taken connecting_agent.io))
        connecting_agent
      ≡ ok b)
    × (b.io.pending ≡ dill.Client.reading_length ∷ dill.Client.connecting ∷ [])
    × ((on_read_parcel_length_finished false [] (taken b.io) >>= λ r. react info_parcel r b) ≡ ok c)
    × (c.io.pending ≡ dill.Client.connecting ∷ dill.Client.connecting ∷ [])
    × (attempts_fail info_parcel 5 c ≡ ok d)
    × (d.io.pending ≡ dill.Client.connecting ∷ dill.Client.connecting ∷ [])
stale_read_lem_example = stale_read_lem info_parcel 0 5 connecting_agent (1 ∷ []) refl refl
