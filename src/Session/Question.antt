-- ===== src/Session/Question.antt =====
-- `availableChannels` and `channelName` of libdill/src/subscribe.cpp, answered by `onAvailChParcel` of
-- libdill/src/server_conn.cpp.
use dill.Base.{
  ℕ, ◌<◌, ◌≡◌, refl, sym, ap, ◌∙◌, inl, inr, true, false, none, some, [], ◌∷◌, ◌++◌, arith, Bytes,
  u32, c_str, ok, length, take, drop, get_elem?-lt, ◌≢◌, ◌+◌, take-overwrite, overwrite, Result,
  ◌>>=◌, append_assoc,
}
use dill.Protocol.{DillParcel, IsParcel, max_str, deflate, deflate_len}
use dill.Protocol.RoundTrip.{clip}
use dill.Protocol.Ops.{priority_availch, is_log}
use dill.Channel.{DillServerChannel}
use dill.Server.State.{
  DillServer, DillServerConnection, writing, find_conn, mode_subscriber, framed, start,
  mode_unknown, mode_publisher, WorkingMode,
}
use dill.Server.Registry.{get_channel_data}
use dill.Server.Connection.{
  on_mode, on_subscribe_parcel, put_conn, on_parcel, on_availch, is_publisher_op, is_subscriber_op,
  async_read_parcel,
}
use dill.Server.Replies.{on_availch_lem, find_conn-set_conn}
use dill.Session.Forward.{sized, length_read, content_read, length_lem, content_lem}
use dill.Subscriber.Rpc.{if-some, wait_lem, asked_waits, Woken, answers, answer}
use dill.Client.{
  async_write_parcel, is_connected, Upcall, ClientIo, on_parcel_read,
  on_read_parcel_length_finished, on_read_parcel_content_finished,
}
use dill.Server.Frames.{length-frame, frame}
use dill.Subscriber.{DillSubscriber, ask, wait, upcall, request}
use dill.Subscriber.Delivery.{reads_lem}

-- The answer to a question.
abbrev pub reply : ℕ → DillServerChannel → DillServer → DillParcel
reply chidx ch s = record (request priority_availch chidx) {
  timestamp1 = length s.channel_data;
  str1 = c_str ch.name;
}

get_channel_data-lt :
    (i : ℕ) (s : DillServer) (ch : DillServerChannel)
    → get_channel_data i s ≡ some ch
    → i < length s.channel_data
unfolding get_channel_data
get_channel_data-lt i s ch h = ground (arith, get_elem?-lt s.channel_data i ch)

reply-IsParcel :
    (chidx : ℕ) (ch : DillServerChannel) (s : DillServer)
    → length s.channel_data < u32
    → chidx < length s.channel_data
    → IsParcel (reply chidx ch s)
reply-IsParcel chidx ch s small h = record {
  op_range = omega arith;
  id_range = omega arith;
  timestamp1_range = omega arith;
  timestamp2_range = omega arith;
}

request-IsParcel : (chidx : ℕ) → chidx < u32 → IsParcel (request priority_availch chidx)
request-IsParcel chidx h = record {
  op_range = omega arith;
  id_range = h;
  timestamp1_range = omega arith;
  timestamp2_range = omega arith;
}

-- The server writes the answer.
answered :
    (chidx conn : ℕ) (s : DillServer) (c : DillServerConnection) (ch : DillServerChannel)
    → find_conn conn s.conns ≡ some c
    → length s.channel_data < u32
    → get_channel_data chidx s ≡ some ch
    → (t : DillServer) × (on_availch conn (request priority_availch chidx) s ≡ ok t)
      × (t.pending ≡ s.pending ++ (writing conn (frame (reply chidx ch s)) ∷ []))
answered chidx conn s c ch at small found =
    let h = get_channel_data-lt chidx s ch found in
    elim (on_availch_lem s conn c (request priority_availch chidx) at small) [
      | inl (none_there, _, _, _) ↦ absurd (omega arith)
      | inr (inl (ch', found', t, done, queued)) ↦
          let same : ch' ≡ ch = ap (λ x. elim x [ none ↦ ch | some d ↦ d ]) (sym found' ∙ found) in
          (
            t,
            done,
            queued ∙ ap (λ d. s.pending ++ (writing conn (frame (reply chidx d s)) ∷ [])) same,
          )
      | inr (inr (some_there, beyond, _)) ↦ absurd (omega arith)
    ]

-- So it does whether the question is the first parcel of the connection or not.
handled :
    (m : WorkingMode) (chidx conn : ℕ) (s : DillServer) (c : DillServerConnection)
    (ch : DillServerChannel)
    → m ≢ mode_publisher
    → find_conn conn s.conns ≡ some c
    → length s.channel_data < u32
    → get_channel_data chidx s ≡ some ch
    → (t : DillServer) × (on_mode m conn (request priority_availch chidx) s ≡ ok t)
      × (t.pending ≡ s.pending ++ (writing conn (frame (reply chidx ch s)) ∷ []))
unfolding on_mode on_parcel on_subscribe_parcel is_publisher_op is_subscriber_op is_log
    get_channel_data
handled mode_publisher chidx conn s c ch n at small found = absurd (n refl)
handled mode_subscriber chidx conn s c ch n at small found =
    answered chidx conn s c ch at small found
handled mode_unknown chidx conn s c ch n at small found =
    let c' = record c { mode = mode_subscriber } in
    let (t, done, queued) =
      answered chidx conn (put_conn conn c' s) c' ch (find_conn-set_conn conn c' s.conns c at) small
        found in
    (t, rw at done, queued)

-- The two reads of the question by the server, and its answer.
server_lem :
    (chidx conn : ℕ) (s : DillServer) (c : DillServerConnection) (ch : DillServerChannel)
    → find_conn conn s.conns ≡ some c
    → c.mode ≢ mode_publisher
    → length s.channel_data < u32
    → get_channel_data chidx s ≡ some ch
    → let question = frame (request priority_availch chidx) in
      (s₁ t : DillServer) × (dill.Server.Connection.on_read_parcel_length_finished conn true
          (take 2 question)
          s
        ≡ ok s₁)
      × (dill.Server.Connection.on_read_parcel_content_finished conn true (drop 2 question) s₁
          ≡ ok t)
      × (t.pending
          ≡ s₁.pending
            ++ (writing conn (frame (reply chidx ch s))
                ∷ dill.Server.State.reading_length conn
                ∷ []))
unfolding get_channel_data async_read_parcel
server_lem chidx conn s c ch at unpublished small found =
    let p = request priority_availch chidx in
    let v = request-IsParcel chidx (omega (arith, get_channel_data-lt chidx s ch found)) in
    let c₁ = sized p c in
    let s₁ = length_read p conn c s in
    let c₂ = record c₁ { rdbuf = overwrite (deflate p) c₁.rdbuf } in
    let (t, done, queued) =
      handled c.mode chidx conn (content_read p conn c s) c₂ ch unpublished
        (find_conn-set_conn conn c₂ s₁.conns c₁ (find_conn-set_conn conn c₁ s.conns c at)) small
        found in
    (
      s₁,
      start (dill.Server.State.reading_length conn) t,
      length_lem p conn c s at,
      content_lem p conn c s v at
          ∙ ap (λ (r : Result DillServer). r >>= λ s. ok (async_read_parcel conn s)) done,
      ap (λ q. q ++ (dill.Server.State.reading_length conn ∷ [])) queued
          ∙ append_assoc s₁.pending _ _,
    )

-- The subscriber writes the question.
ask_lem :
    (chidx : ℕ) (sub asked : DillSubscriber)
    → ask chidx sub ≡ some asked
    → asked.io.pending
      ≡ sub.io.pending ++ (dill.Client.writing (frame (request priority_availch chidx)) ∷ [])
unfolding ask async_write_parcel
ask_lem chidx sub asked h =
    let p = request priority_availch chidx in
    let sent : take (deflate_len p + 2) (framed p sub.io.wt_buf) ≡ frame p =
      take-overwrite (deflate_len p + 2) (frame p) sub.io.wt_buf (omega (arith, length-frame p)) in
    ap (λ (s : DillSubscriber). s.io.pending) (sym (if-some (is_connected sub.io) _ asked h))
    ∙ ap (λ (bytes : Bytes). sub.io.pending ++ (dill.Client.writing bytes ∷ [])) sent

-- A thread of a connected subscriber that is to read a length, and in which no other thread waits, asks
-- for a channel of a server with fewer than 2^32 channels, and waits. The subscriber writes one frame. On a connection of the server that is not one of a
-- publisher, the server's two reads of these bytes succeed, and it writes one frame back and starts to
-- read again. The subscriber's two reads of the bytes of that succeed, and the call of the host that
-- follows wakes the thread with the number of the server's channels and the name of the channel, cut
-- to 23766 bytes, and ends the question.
pub question_lem :
    (chidx conn : ℕ) (s : DillServer) (c : DillServerConnection) (ch : DillServerChannel)
    (sub asked : DillSubscriber)
    → find_conn conn s.conns ≡ some c
    → c.mode ≢ mode_publisher
    → length s.channel_data < u32
    → get_channel_data chidx s ≡ some ch
    → ask chidx sub ≡ some asked
    → sub.waiting ≡ 0
    → asked.io.expecting_rdlen ≡ 2
    → (question sent : Bytes) × (s₁ t : DillServer) × (io₁ io₂ : ClientIo) × (call : Upcall)
      × (asked.io.pending ≡ sub.io.pending ++ (dill.Client.writing question ∷ []))
      × (dill.Server.Connection.on_read_parcel_length_finished conn true (take 2 question) s
          ≡ ok s₁)
      × (dill.Server.Connection.on_read_parcel_content_finished conn true (drop 2 question) s₁
          ≡ ok t)
      × (t.pending ≡ s₁.pending ++ (writing conn sent ∷ dill.Server.State.reading_length conn ∷ []))
      × (on_read_parcel_length_finished true (take 2 sent) (wait asked).io ≡ ok (io₁, none))
      × (on_read_parcel_content_finished true (drop 2 sent) io₁ ≡ ok (io₂, some call))
      × (let after = upcall call (record (wait asked) { io = io₂ }) in
          (after.waiting ≡ 0)
          × (after.availch ≡ length s.channel_data)
          × (after.chname ≡ take max_str (c_str ch.name))
          × (after.on_rpc ≡ false))
unfolding wait Woken answers answer
question_lem chidx conn s c ch sub asked at unpublished small found h none_waits two =
    let r = reply chidx ch s in
    let (s₁, t, asks, done, queued) = server_lem chidx conn s c ch at unpublished small found in
    let (io₁, io₂, first, second) =
      reads_lem r asked.io (reply-IsParcel chidx ch s small (get_channel_data-lt chidx s ch found))
        two in
    let waits : asked.waiting ≡ 0 = asked_waits chidx sub asked h ∙ none_waits in
    let (woken, got, over) = wait_lem (on_parcel_read (clip r)) (record asked { io = io₂ }) waits in
    (
      frame (request priority_availch chidx),
      frame r,
      s₁,
      t,
      io₁,
      io₂,
      on_parcel_read (clip r),
      ask_lem chidx sub asked h,
      asks,
      done,
      queued,
      first,
      second,
      (woken, ap (λ x. x.0) got, ap (λ x. x.1) got, over),
    )
