-- ===== src/Server/Replies.antt =====
-- What the server answers a publisher and a subscriber (libdill/src/server_conn.cpp).
use dill.Base.{
  ℕ, ◌+◌, ◌%◌, ◌≤◌, ◌<◌, ◌≡◌, refl, sym, ap, ◌∙◌, subst, ◌⊎◌, inl, inr, Option, none, some, List,
  [], ◌∷◌, ◌++◌, arith, Bytes, u32, c_str, null_string, Result, ok, err, take-overwrite, ltb,
  Bool-cases, Option-cases, length, take, get_elem?-none,
}
use dill.Protocol.{DillParcel, deflate_len}
use dill.Protocol.Ops.{priority_publish, priority_reply_ok, priority_reply_full}
use dill.Channel.{DillServerChannel, new_channel}
use dill.Server.State.{
  DillServerConnection, Pending, writing, DillServer, find_conn, set_conn, async_write_parcel,
  framed, callback, ptrval, Conns,
}
use dill.Server.Registry.{
  get_channel_data, find_name, find_channel_by_name, create_channel_data, get_available_channels,
  get_channel_name,
}
use dill.Server.Connection.{put_conn, find_or_create, publish_reply, on_publish, on_availch}
use dill.Server.Frames.{frame, length-frame}

-- A write to an allocated connection puts the parcel's frame in the queue, and changes no channel.
pub async_write_parcel_lem :
    (conn : ℕ) (p : DillParcel) (s : DillServer) (c : DillServerConnection)
    → find_conn conn s.conns ≡ some c
    → (t : DillServer) × (async_write_parcel conn p s ≡ ok t)
      × (t.pending ≡ s.pending ++ (writing conn (frame p) ∷ []))
      × (t.channel_data ≡ s.channel_data)
unfolding async_write_parcel
async_write_parcel_lem conn p s c e =
    let sent : take (deflate_len p + 2) (framed p c.wtbuf) ≡ frame p =
      take-overwrite (deflate_len p + 2) (frame p) c.wtbuf (omega (arith, length-frame p)) in
    (
      record s {
        conns = set_conn conn (record c { wtbuf = framed p c.wtbuf }) s.conns;
        pending = s.pending ++ (writing conn (frame p) ∷ []);
      },
      rw (e, sent),
      refl,
      refl,
    )

-- A parcel with only a code and a channel.
abbrev pub plain : ℕ → ℕ → DillParcel
plain op id = record { op = op; id = id; timestamp1 = 0; timestamp2 = 0; str1 = []; str2 = [] }

-- The reply to a name, and what becomes of the channels: OK with the channel that has the name, OK with
-- a new one at the end, or FULL where there is no room.
abbrev pub Answered : DillServer → Bytes → DillParcel → List DillServerChannel → Type 0
Answered s name reply chs =
    ((c : DillServerChannel) × (find_name name s.channel_data ≡ some c)
      × (reply ≡ plain priority_reply_ok c.id)
      × (chs ≡ s.channel_data))
    ⊎ (((find_name name s.channel_data ≡ none)
          × (length s.channel_data < s.maxchannels)
          × (reply ≡ plain priority_reply_ok (length s.channel_data % u32))
          × (chs
              ≡ s.channel_data ++ (new_channel (length s.channel_data % u32) s.bufsize name ∷ [])))
        ⊎ ((find_name name s.channel_data ≡ none)
            × (s.maxchannels ≤ length s.channel_data)
            × (reply ≡ plain priority_reply_full 0)
            × (chs ≡ s.channel_data)))

find_or_create-Answered :
    (s : DillServer) (name : Bytes)
    → let (channel, t) = find_or_create name s in
      Answered s name (publish_reply channel) t.channel_data
unfolding find_or_create find_channel_by_name create_channel_data publish_reply new_channel
find_or_create-Answered s name = elim (Option-cases (find_name name s.channel_data)) [
  | inr (c, e) ↦ inl (c, e, rw (e, find_or_create), rw (e, find_or_create))
  | inl e ↦ elim (Bool-cases (ltb (length s.channel_data) s.maxchannels)) [
    | inl room ↦
        inr (inl (e, ground arith, rw (e, find_or_create, room), rw (e, find_or_create, room)))
    | inr full ↦
        inr (inr (e, ground arith, rw (e, find_or_create, full), rw (e, find_or_create, full)))
  ]
]

find_or_create-conns :
    (s : DillServer) (name : Bytes)
    → let t = (find_or_create name s).1 in (t.conns ≡ s.conns) × (t.pending ≡ s.pending)
unfolding find_or_create create_channel_data
find_or_create-conns s name = ground arith

pub find_conn-set_conn :
    (a : ℕ) (v : DillServerConnection) (cs : Conns) (c : DillServerConnection)
    → find_conn a cs ≡ some c
    → find_conn a (set_conn a v cs) ≡ some v
unfolding find_conn set_conn
find_conn-set_conn a v [] c e = cc
find_conn-set_conn a v ((b, d) ∷ cs) c e = ground (arith, find_conn-set_conn a v cs c)

pub callback_keeps :
    (op id t1 t2 : ℕ) (str1 str2 : Option Bytes) (s : DillServer)
    → let t = callback op id t1 t2 str1 str2 s in
      (t.pending ≡ s.pending) × (t.channel_data ≡ s.channel_data)
unfolding callback
callback_keeps op id t1 t2 str1 str2 s = ground arith

-- A PUBLISH parcel on an allocated connection is answered by one parcel, without times and texts: OK
-- with the identifier of the channel of that name (up to a zero byte); or, if there is none and there
-- is room for it, OK with the number of channels so far, modulo 2^32, which is the identifier of a new
-- channel of that name behind the others; or FULL with the number 0 if there is none and no room. No
-- other channel is touched.
pub on_publish_lem :
    (s : DillServer) (conn : ℕ) (c : DillServerConnection) (p : DillParcel)
    → find_conn conn s.conns ≡ some c
    → (t : DillServer) × (reply : DillParcel) × (on_publish conn p s ≡ ok t)
      × (t.pending ≡ s.pending ++ (writing conn (frame reply) ∷ []))
      × Answered s (c_str p.str1) reply t.channel_data
unfolding on_publish
on_publish_lem s conn c p e =
    let c' = record c { chname = p.str1 } in
    let named = put_conn conn c' s in
    let name = c_str p.str1 in
    let channel = (find_or_create name named).0 in
    let s' = (find_or_create name named).1 in
    let (conns, pending) = find_or_create-conns named name in
    let (t, wrote, queued, kept) =
      async_write_parcel_lem conn (publish_reply channel) s' c'
        (ap (find_conn conn) conns ∙ find_conn-set_conn conn c' s.conns c e) in
    let (queued', kept') = callback_keeps priority_publish (ptrval conn) 0 0 (some name) none t in
    (
      callback priority_publish (ptrval conn) 0 0 (some name) none t,
      publish_reply channel,
      rw (e, wrote),
      queued'
          ∙ (queued
              ∙ ap
                  (λ (ops : List Pending).
                    ops ++ (writing conn (frame (publish_reply channel)) ∷ []))
                  pending),
      subst (Answered s name (publish_reply channel)) (sym (kept' ∙ kept))
          (find_or_create-Answered named name),
    )

get_channel_data-none :
    (id : ℕ) (s : DillServer) → get_channel_data id s ≡ none → length s.channel_data ≤ id
unfolding get_channel_data
get_channel_data-none id s h = ground (arith, get_elem?-none s.channel_data id)

-- What an AVAILCH parcel leads to.
abbrev pub Availch : DillServer → ℕ → DillParcel → Result DillServer → Type 0
Availch s conn p r =
    ((length s.channel_data ≡ 0)
      × (t : DillServer) × (r ≡ ok t)
      × (t.pending
          ≡ s.pending ++ (writing conn (frame (record p { timestamp1 = 0; timestamp2 = 0 })) ∷ [])))
    ⊎ (((c : DillServerChannel) × (get_channel_data p.id s ≡ some c)
          × (t : DillServer) × (r ≡ ok t)
          × (t.pending
              ≡ s.pending
                ++ (writing conn (
                      frame (record p {
                        timestamp1 = length s.channel_data;
                        timestamp2 = 0;
                        str1 = c_str c.name;
                      }))
                    ∷ [])))
        ⊎ ((0 < length s.channel_data) × (length s.channel_data ≤ p.id) × (r ≡ err null_string)))

-- An AVAILCH parcel on an allocated connection of a server with fewer than 2^32 channels is answered
-- by the number of channels, and by the name of the channel asked for if it exists; without any
-- channel the parcel goes back with the number 0; and if there are channels, but not the one asked
-- for, the handler assigns a null pointer to a string.
pub on_availch_lem :
    (s : DillServer) (conn : ℕ) (c : DillServerConnection) (p : DillParcel)
    → find_conn conn s.conns ≡ some c
    → length s.channel_data < u32
    → Availch s conn p (on_availch conn p s)
unfolding on_availch get_channel_name get_available_channels
on_availch_lem s conn c p e small =
    let n = length s.channel_data in
    let count : n % u32 ≡ n = omega arith in
    let reply = record p { timestamp1 = n; timestamp2 = 0 } in
    rw count (elim (Bool-cases (ltb 0 n)) [
      | inr z ↦
          let zero_channels : n ≡ 0 = ground arith in
          let (t, wrote, queued, _) = async_write_parcel_lem conn reply s c e in
          rw z (
            inl (
              zero_channels,
              t,
              wrote,
              queued
                  ∙ ap
                      (λ (k : ℕ).
                        s.pending
                        ++ (writing conn (frame (record p { timestamp1 = k; timestamp2 = 0 }))
                            ∷ []))
                      zero_channels,
            ))
      | inl some_channels ↦ elim (Option-cases (get_channel_data p.id s)) [
        | inl missing ↦
            rw (some_channels, missing)
              (inr (inr (ground arith, get_channel_data-none p.id s missing, refl)))
        | inr (ch, found) ↦
            let (t, wrote, queued, _) =
              async_write_parcel_lem conn (record reply { str1 = c_str ch.name }) s c e in
            rw (some_channels, found) (inr (inl (ch, refl, t, wrote, queued)))
      ]
    ])
