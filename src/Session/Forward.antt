-- ===== src/Session/Forward.antt =====
-- What the server (libdill/src/server_conn.cpp, libdill/src/server_channel.cpp) does with a log that a
-- publisher has sent: it reads it, keeps it, and writes it to each subscriber.
use dill.Protocol.{DillParcel, deflate_len, deflate, IsParcel}
use dill.Channel.{DillServerChannel, Write, broadcast, update_channel}
use dill.Server.Registry.{get_channel_data}
use dill.Server.Frames.{frame, length-frame}
use dill.Server.Replies.{find_conn-set_conn, callback_keeps}
use dill.Server.Safety.Writes.{SameModes, Allocated}
use dill.Server.Safety.Modes.{mode_of-find_conn, mode_of-set_conn, find_conn-mode_of}
use dill.Server.Connection.{
  on_read_parcel_length_finished, on_read_parcel_content_finished, on_update, on_mode, put_conn,
  put_channel, async_read_parcel, async_read_parcel_content, on_publisher_parcel,
}
use dill.Server.State.{
  reading_length, WorkingMode, DillServer, DillServerConnection, Pending, reading_content, writing,
  set_conn, find_conn, callback, async_write_parcel, write_all, start, framed, mode_publisher,
}
use dill.Protocol.RoundTrip.{clip, inflate-deflate}
use dill.Protocol.Size.{deflate_len_bounds, length-deflate}
use dill.Protocol.Wire.{u16_parts}
use dill.Base.{
  ℕ, ◌+◌, ◌≡◌, refl, sym, ap, ◌∙◌, inl, inr, true, some, List, [], ◌∷◌, ◌++◌, map, append-nil,
  append_assoc, arith, c_str, overwrite, Result, ok, ◌>>=◌, take-overwrite, ◌==◌, ==_refl,
  Bool-cases, set, take, All, All-map, drop,
}
use dill.Protocol.Ops.{is_log}

-- The writes of a parcel to connections that are allocated.
abbrev pub writings : List ℕ → DillParcel → List Pending
writings subs p = map (λ conn. writing conn (frame p)) subs

write_lem :
    (conn : ℕ) (p : DillParcel) (s : DillServer)
    → Allocated s.conns conn
    → (t : DillServer) × (async_write_parcel conn p s ≡ ok t)
      × (t.pending ≡ s.pending ++ (writing conn (frame p) ∷ []))
      × (t.channel_data ≡ s.channel_data)
      × SameModes s.conns t.conns
unfolding async_write_parcel
write_lem conn p s (m, h) =
    let (c, e, k) = mode_of-find_conn conn s.conns m h in
    let wtbuf = framed p c.wtbuf in
    let sent : take (deflate_len p + 2) wtbuf ≡ frame p =
      take-overwrite (deflate_len p + 2) (frame p) c.wtbuf (omega (arith, length-frame p)) in
    (
      record s {
        conns = set_conn conn (record c { wtbuf = wtbuf }) s.conns;
        pending = s.pending ++ (writing conn (frame p) ∷ []);
      },
      rw (e, sent) refl,
      refl,
      refl,
      λ a. ground (arith, mode_of-set_conn a conn (record c { wtbuf = wtbuf }) s.conns m h),
    )

pub writes_lem :
    (subs : List ℕ) (p : DillParcel) (s : DillServer)
    → All (Allocated s.conns) subs
    → (t : DillServer) × (write_all (map (λ conn. (conn, p)) subs) s ≡ ok t)
      × (t.pending ≡ s.pending ++ writings subs p)
      × (t.channel_data ≡ s.channel_data)
unfolding write_all
writes_lem [] p s h = (s, refl, sym (append-nil s.pending), refl)
writes_lem (conn ∷ subs) p s h =
    let (t, e, pend, chs, same) = write_lem conn p s h.0 in
    let still : All (Allocated t.conns) subs = All-map (λ a (m, at). (m, same a ∙ at)) subs h.1 in
    let (u, f, pend', chs') = writes_lem subs p t still in
    (
      u,
      rw (e, f) refl,
      pend' ∙ ap (λ q. q ++ writings subs p) pend ∙ append_assoc s.pending _ _,
      chs' ∙ chs,
    )

-- The handler of a log: the channel becomes what `updateChannel` makes of it, and what it wants to
-- write is written.
pub update_lem :
    (p : DillParcel) (s : DillServer) (c : DillServerChannel)
    → get_channel_data p.id s ≡ some c
    → (update_channel c p).1 ≡ broadcast c p
    → All (Allocated s.conns) c.subscribers
    → (t : DillServer) × (on_update p s ≡ ok t)
      × (t.pending ≡ s.pending ++ writings c.subscribers p)
      × (t.channel_data ≡ set s.channel_data p.id (update_channel c p).0)
unfolding on_update
update_lem p s c found sends alive =
    let s' = put_channel p.id (update_channel c p).0 s in
    let (t, e, pend, chs) = writes_lem c.subscribers p s' alive in
    let (pend', chs') =
      callback_keeps p.op p.id p.timestamp1 p.timestamp2 (some (c_str p.str1)) (some (c_str p.str2))
        t in
    (
      callback p.op p.id p.timestamp1 p.timestamp2 (some (c_str p.str1)) (some (c_str p.str2)) t,
      first ∙ ap after sends ∙ ap reports e,
      pend' ∙ pend,
      chs' ∙ chs,
    )
  where
    reports : Result DillServer → Result DillServer
    reports r = r >>= λ s.
        ok (
          callback p.op p.id p.timestamp1 p.timestamp2 (some (c_str p.str1)) (some (c_str p.str2))
            s)

    after : List Write → Result DillServer
    after ws = reports (write_all ws (put_channel p.id (update_channel c p).0 s))

    first : on_update p s ≡ after (update_channel c p).1
    first = rw (on_update, found) refl

put_conn-Allocated :
    (conn : ℕ) (v c : DillServerConnection) (s : DillServer) (subs : List ℕ)
    → find_conn conn s.conns ≡ some c
    → All (Allocated s.conns) subs
    → All (Allocated (put_conn conn v s).conns) subs
put_conn-Allocated conn v c s subs at h =
    All-map
      (λ a (m, e). elim (Bool-cases (conn == a)) [
        | inl hit ↦ (
          v.mode,
          mode_of-set_conn a conn v s.conns c.mode (find_conn-mode_of conn s.conns c at)
              ∙ rw hit refl,
        )
        | inr other ↦ (
          m,
          mode_of-set_conn a conn v s.conns c.mode (find_conn-mode_of conn s.conns c at)
              ∙ rw other e,
        )
      ])
      subs h

-- The connection of a publisher, and the state, behind the read of a parcel's length.
abbrev pub sized : DillParcel → DillServerConnection → DillServerConnection
sized p c = record c {
  rdbuf = overwrite (take 2 (frame p)) c.rdbuf;
  expecting_size = deflate_len p;
}

abbrev pub length_read : DillParcel → ℕ → DillServerConnection → DillServer → DillServer
length_read p conn c s = start (reading_content conn (deflate_len p)) (put_conn conn (sized p c) s)

pub length_lem :
    (p : DillParcel) (conn : ℕ) (c : DillServerConnection) (s : DillServer)
    → find_conn conn s.conns ≡ some c
    → on_read_parcel_length_finished conn true (take 2 (frame p)) s ≡ ok (length_read p conn c s)
unfolding on_read_parcel_length_finished overwrite async_read_parcel_content
length_lem p conn c s at =
    rw (at, u16_parts (deflate_len p) (omega (arith, deflate_len_bounds p))) refl

-- The state in which the parcel is dealt with.
abbrev pub content_read : DillParcel → ℕ → DillServerConnection → DillServer → DillServer
content_read p conn c s =
    put_conn conn (record (sized p c) { rdbuf = overwrite (deflate p) (sized p c).rdbuf })
      (length_read p conn c s)

pub content_lem :
    (p : DillParcel) (conn : ℕ) (c : DillServerConnection) (s : DillServer)
    → IsParcel p
    → find_conn conn s.conns ≡ some c
    → on_read_parcel_content_finished conn true (deflate p) (length_read p conn c s) ≡ (
        on_mode c.mode conn (clip p) (content_read p conn c s) >>= λ s.
        ok (async_read_parcel conn s))
unfolding on_read_parcel_content_finished overwrite
content_lem p conn c s v at =
    rw
      (
        find_conn-set_conn conn (sized p c) s.conns c at,
        length-deflate p,
        ==_refl (deflate_len p),
        inflate-deflate p _ v,
      )
      refl

publisher_lem :
    (m : WorkingMode) (conn : ℕ) (p : DillParcel) (s : DillServer)
    → m ≡ mode_publisher
    → is_log p.op ≡ true
    → on_mode m conn p s ≡ on_update p s
unfolding on_mode on_publisher_parcel
publisher_lem m conn p s e log = rw (e, log) refl

-- The two reads of a log on the connection of a publisher: it is broadcast, and the channel becomes
-- what `updateChannel` makes of it.
pub forward_lem :
    (p : DillParcel) (conn : ℕ) (c : DillServerConnection) (s : DillServer) (ch : DillServerChannel)
    → IsParcel p
    → is_log p.op ≡ true
    → find_conn conn s.conns ≡ some c
    → c.mode ≡ mode_publisher
    → get_channel_data p.id s ≡ some ch
    → (update_channel ch (clip p)).1 ≡ broadcast ch (clip p)
    → All (Allocated s.conns) ch.subscribers
    → (s₁ t : DillServer) × (on_read_parcel_length_finished conn true (take 2 (frame p)) s ≡ ok s₁)
      × (on_read_parcel_content_finished conn true (drop 2 (frame p)) s₁ ≡ ok t)
      × (t.pending ≡ s₁.pending ++ (writings ch.subscribers (clip p) ++ (reading_length conn ∷ [])))
      × (t.channel_data ≡ set s.channel_data p.id (update_channel ch (clip p)).0)
unfolding get_channel_data async_read_parcel
forward_lem p conn c s ch v log at mode found sends alive =
    let s₁ = length_read p conn c s in
    let s₂ = content_read p conn c s in
    let still₁ : All (Allocated s₁.conns) ch.subscribers =
      put_conn-Allocated conn (sized p c) c s ch.subscribers at alive in
    let still₂ : All (Allocated s₂.conns) ch.subscribers =
      put_conn-Allocated conn
        (record (sized p c) { rdbuf = overwrite (deflate p) (sized p c).rdbuf }) (sized p c) s₁
        ch.subscribers (find_conn-set_conn conn (sized p c) s.conns c at) still₁ in
    let (t, e, pend, chs) = update_lem (clip p) s₂ ch found sends still₂ in
    let handled : on_mode c.mode conn (clip p) s₂ ≡ ok t =
      publisher_lem c.mode conn (clip p) s₂ mode log ∙ e in
    (
      s₁,
      start (reading_length conn) t,
      length_lem p conn c s at,
      content_lem p conn c s v at
          ∙ ap (λ (r : Result DillServer). r >>= λ s. ok (async_read_parcel conn s)) handled,
      ap (λ q. q ++ (reading_length conn ∷ [])) pend ∙ append_assoc s₁.pending _ _,
      chs,
    )
