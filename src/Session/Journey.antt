-- ===== src/Session/Journey.antt =====
-- The way of a log: posted to the agent of a publisher (libdill/src/log.cpp), forwarded by the server
-- (libdill/src/server_conn.cpp, libdill/src/server_channel.cpp), and handed to the callback of each
-- subscriber (libdill/src/subscribe.cpp).
use dill.Protocol.{DillParcel, IsParcel, deflate_len, max_str, str_len}
use dill.Protocol.RoundTrip.{clip}
use dill.Channel.{DillServerChannel}
use dill.Channel.Update.{update_channel-Stored}
use dill.Agent.{DillLogAgent, post, log_parcel, enqueue}
use dill.Server.State.{DillServer, DillServerConnection, find_conn, mode_publisher, mode_subscriber}
use dill.Server.Loop.{Reach, NoWriteFails, new_server, enter_loop}
use dill.Server.Event.{DillEvent}
use dill.Server.Registry.{get_channel_data}
use dill.Server.Channels.Valid.{Reach-IsSized, IsSized}
use dill.Server.Safety.Run.{Reach-Inv, enter_loop-Inv}
use dill.Server.Safety.Invariant.{Subscribed}
use dill.Server.Frames.{frame}
use dill.Session.Forward.{forward_lem}
use dill.Subscriber.Delivery.{delivery_lem, delivered}
use dill.Agent.Flows.{enqueue-first, write_lem}
use dill.Base.{
  ℕ, ◌+◌, ◌%◌, ◌≤◌, ◌<◌, ◌≡◌, refl, ap, ◌∙◌, subst, ◌≢◌, inl, inr, Bool, true, false, none, some,
  [], ◌∷◌, ◌++◌, map, arith, Bytes, u32, c_str, Result, ok, ◌>>=◌, ltb, Bool-cases, length,
  get_elem?, take, drop, length-take, take_all, All-get_elem?, All-map,
}
use dill.Protocol.Size.{deflate_len_lem, str_len-min}
use dill.Protocol.Ops.{is_log, priority_register}
use dill.Client.{writing, async_write_parcel, ClientIo, Upcall, on_parcel_read}
use dill.Subscriber.{DillSubscriber}

-- What a log with these arguments is for a subscriber.
abbrev pub heard : ℕ → ℕ → Bytes → Bytes → ℕ → ℕ → DillEvent
heard channel pri tag msg seconds fraction = record {
  type = 0;
  priority = pri;
  id = channel;
  tag = some (c_str (take max_str (c_str tag)));
  content = some (c_str (take max_str (c_str msg)));
  timestamp1 = seconds % u32;
  timestamp2 = fraction % u32;
}

-- Nothing is cut a second time.
take-take : (n : ℕ) (s : Bytes) → take n (take n s) ≡ take n s
take-take n s = take_all n (take n s) (omega (arith, length-take n s))

str_len-take : (s : Bytes) → str_len (take max_str s) ≡ str_len s
str_len-take s = omega (arith, str_len-min s, str_len-min (take max_str s), length-take max_str s)

deflate_len-clip : (p : DillParcel) → deflate_len (clip p) ≡ deflate_len p
deflate_len-clip p =
    omega
      (arith, deflate_len_lem p, deflate_len_lem (clip p), str_len-take p.str1, str_len-take p.str2)

log-not-register : (op : ℕ) → is_log op ≡ true → op ≢ priority_register
unfolding is_log
log-not-register op h e =
    let other : is_log priority_register ≡ true = subst (λ o. is_log o ≡ true) e h in cc

posted_lem :
    (a : DillLogAgent) (pri : ℕ) (tag msg : Bytes) (seconds fraction : ℕ)
    → a.loggable ≡ true
    → a.queue ≡ []
    → a.pending_logwrites ≡ false
    → a.io.pending ≡ []
    → length a.io.wt_buf ≡ 65538
    → (a' : DillLogAgent) × (post pri tag msg seconds fraction a ≡ ok (true, a'))
      × (a'.io.pending ≡ writing (frame (log_parcel a pri tag msg seconds fraction)) ∷ [])
unfolding post
posted_lem a pri tag msg seconds fraction on none_queued none_pending free buf =
    let p = log_parcel a pri tag msg seconds fraction in
    let (flights, _, _, _) = write_lem p a.io buf free in
    (
      record a { queue = p ∷ []; pending_logwrites = true; io = async_write_parcel p a.io },
      goes
          ∙ ap (λ (r : Result DillLogAgent). r >>= λ a. ok (true, a))
              (enqueue-first p a none_queued none_pending),
      flights,
    )
  where
    goes :
        post pri tag msg seconds fraction a
        ≡ (enqueue (log_parcel a pri tag msg seconds fraction) a >>= λ a. ok (true, a))
    goes = rw (post, on) refl

log_parcel-IsParcel :
    (a : DillLogAgent) (pri : ℕ) (tag msg : Bytes) (seconds fraction : ℕ)
    → a.channel_id < u32
    → is_log pri ≡ true
    → IsParcel (log_parcel a pri tag msg seconds fraction)
unfolding log_parcel is_log
log_parcel-IsParcel a pri tag msg seconds fraction h log = record {
  op_range = ground arith;
  id_range = h;
  timestamp1_range = omega arith;
  timestamp2_range = omega arith;
}

clip-IsParcel : (p : DillParcel) → IsParcel p → IsParcel (clip p)
clip-IsParcel p v = record {
  op_range = v.op_range;
  id_range = v.id_range;
  timestamp1_range = v.timestamp1_range;
  timestamp2_range = v.timestamp2_range;
}

delivered-heard :
    (a : DillLogAgent) (pri : ℕ) (tag msg : Bytes) (seconds fraction : ℕ)
    → is_log pri ≡ true
    → delivered (clip (log_parcel a pri tag msg seconds fraction))
      ≡ heard a.channel_id pri tag msg seconds fraction
unfolding log_parcel
delivered-heard a pri tag msg seconds fraction log =
    rw (log, take-take max_str (c_str tag), take-take max_str (c_str msg)) refl

found_lem :
    (i : ℕ) (s : DillServer) (ch : DillServerChannel)
    → get_channel_data i s ≡ some ch
    → get_elem? s.channel_data i ≡ some ch
unfolding get_channel_data
found_lem i s ch h = elim (Bool-cases (ltb i (length s.channel_data))) [
  | inl e ↦ rw e at h
  | inr e ↦ ground (arith, rw e at h)
]

-- What becomes of a post of the agent, of the two reads of a connection of the server, and of the two
-- reads and the call of the host of a client that gets what the server writes.
abbrev pub Arrives :
    DillLogAgent
    → ℕ
    → Bytes
    → Bytes
    → ℕ
    → ℕ
    → ℕ
    → DillServer
    → DillServerChannel
    → DillSubscriber
    → Type 0
Arrives a pri tag msg seconds fraction conn s ch sub =
    (a' : DillLogAgent) × (sent copy : Bytes) × (s₁ t : DillServer) × (io₁ io₂ : ClientIo)
    × (call : Upcall) × (post pri tag msg seconds fraction a ≡ ok (true, a'))
    × (a'.io.pending ≡ dill.Client.writing sent ∷ [])
    × (dill.Server.Connection.on_read_parcel_length_finished conn true (take 2 sent) s ≡ ok s₁)
    × (dill.Server.Connection.on_read_parcel_content_finished conn true (drop 2 sent) s₁ ≡ ok t)
    × (t.pending
        ≡ s₁.pending
          ++ (map (λ other. dill.Server.State.writing other copy) ch.subscribers
              ++ (dill.Server.State.reading_length conn ∷ [])))
    × (dill.Client.on_read_parcel_length_finished true (take 2 copy) sub.io ≡ ok (io₁, none))
    × (dill.Client.on_read_parcel_content_finished true (drop 2 copy) io₁ ≡ ok (io₂, some call))
    × ((dill.Subscriber.upcall call (record sub { io = io₂ })).events
        ≡ sub.events ++ (heard a.channel_id pri tag msg seconds fraction ∷ []))

-- A publisher's agent that has its reply and nothing under way posts a log; its connection to a server
-- made for channels of a size that leaves room in 32 bits, in any state that the server reaches while
-- no write fails, is one of a publisher; the log goes to a channel that exists, and is no larger than
-- it. The agent writes one frame. The server's two reads of it succeed and write the log to each
-- subscriber of the channel, once and in order, and to nobody else. A client with a callback whose
-- two reads get these bytes calls it once, with the priority, the channel, the time, and the texts of
-- the log, cut to 23766 bytes.
pub journey_lem :
    (bound : Bool) (bufsize channels : ℕ) {s : DillServer} (a : DillLogAgent) (pri : ℕ)
    (tag msg : Bytes) (seconds fraction conn : ℕ) (c : DillServerConnection)
    (ch : DillServerChannel) (sub : DillSubscriber)
    → bufsize + 47549 < u32
    → Reach NoWriteFails (enter_loop (new_server bound bufsize channels)) s
    → a.loggable ≡ true
    → a.queue ≡ []
    → a.pending_logwrites ≡ false
    → a.io.pending ≡ []
    → length a.io.wt_buf ≡ 65538
    → a.channel_id < u32
    → is_log pri ≡ true
    → deflate_len (log_parcel a pri tag msg seconds fraction) ≤ bufsize
    → find_conn conn s.conns ≡ some c
    → c.mode ≡ mode_publisher
    → get_channel_data a.channel_id s ≡ some ch
    → sub.evcb ≡ true
    → sub.io.expecting_rdlen ≡ 2
    → Arrives a pri tag msg seconds fraction conn s ch sub
unfolding log_parcel
journey_lem bound bufsize channels {s = s} a pri tag msg seconds fraction conn c ch sub small reach
      on none_queued none_pending free buf id_range log fits at mode found cb two =
    let p = log_parcel a pri tag msg seconds fraction in
    let parcel = log_parcel-IsParcel a pri tag msg seconds fraction id_range log in
    let (a', posted, flight) =
      posted_lem a pri tag msg seconds fraction on none_queued none_pending free buf in
    let (valid, size) =
      All-get_elem? (IsSized bufsize) s.channel_data a.channel_id ch
        (Reach-IsSized bound bufsize channels small reach) (found_lem a.channel_id s ch found) in
    let inv = Reach-Inv (enter_loop-Inv bound bufsize channels) reach in
    let (_, subs) =
      All-get_elem? (Subscribed s.conns) s.channel_data a.channel_id ch inv.subscribed
        (found_lem a.channel_id s ch found) in
    let stored =
      update_channel-Stored ch (clip p) valid (log-not-register pri log)
        (omega (arith, deflate_len-clip p)) in
    let (s₁, t, first, second, pend, _) =
      forward_lem p conn c s ch parcel log at mode found stored.sent
        (All-map (λ other e. (mode_subscriber, e)) ch.subscribers subs) in
    let (io₁, io₂, third, fourth, (events, _)) =
      delivery_lem (clip p) sub (clip-IsParcel p parcel) (rw log refl) cb two in
    (
      a',
      frame p,
      frame (clip p),
      s₁,
      t,
      io₁,
      io₂,
      on_parcel_read (clip (clip p)),
      posted,
      flight,
      first,
      second,
      pend,
      third,
      fourth,
      events
          ∙ ap (λ e. sub.events ++ (e ∷ [])) (delivered-heard a pri tag msg seconds fraction log),
    )
