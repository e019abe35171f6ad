-- ===== src/Server/Safety/Writes.antt =====
-- The writes that a handler asks for go to connections that are allocated (`asyncWriteParcel` of
-- libdill/src/server_conn.cpp, called by libdill/src/server_channel.cpp).
use dill.Base.{
  ℕ, ◌+◌, ◌≡◌, refl, sym, ◌∙◌, inl, some, List, [], ◌∷◌, map, arith, take, All, All-map,
}
use dill.Protocol.{DillParcel, deflate_len}
use dill.Channel.{DillServerChannel, Write, archive_log, update_channel}
use dill.Server.State.{
  WorkingMode, Conns, DillServer, set_conn, async_write_parcel, write_all, framed,
}
use dill.Server.Safety.Modes.{mode_of, mode_of-find_conn, mode_of-set_conn}
use dill.Server.Safety.Invariant.{Inv, Safe, Safe-bind, Inv-set_conn, Inv-writing, Safe-weaken}

-- No connection is allocated, freed or given another mode.
abbrev pub SameModes : Conns → Conns → Type 0
SameModes cs ds = (a : ℕ) → mode_of a ds ≡ mode_of a cs

abbrev pub Allocated : Conns → ℕ → Type 0
Allocated cs a = (m : WorkingMode) × (mode_of a cs ≡ some m)

-- What a handler keeps while it writes.
abbrev pub Wrote : (ℕ → ℕ) → DillServer → DillServer → Type 0
Wrote held s t = Inv held t × SameModes s.conns t.conns × (t.channel_data ≡ s.channel_data)

pub async_write_parcel-Safe :
    {held : ℕ → ℕ} (conn : ℕ) (p : DillParcel) (s : DillServer)
    → Allocated s.conns conn
    → Inv held s
    → Safe (Wrote held s) (async_write_parcel conn p s)
unfolding async_write_parcel
async_write_parcel-Safe conn p s (m, h) v =
    let (c, e, k) = mode_of-find_conn conn s.conns m h in
    let wtbuf = framed p c.wtbuf in
    let conns = set_conn conn (record c { wtbuf = wtbuf }) s.conns in
    rw e (
      Inv-writing (record s { conns = conns }) conn (take (deflate_len p + 2) wtbuf)
          (Inv-set_conn s conn (record c { wtbuf = wtbuf }) m h (inl (sym k)) v),
      λ a. ground (arith, mode_of-set_conn a conn (record c { wtbuf = wtbuf }) s.conns m h),
      refl,
    )

pub Allocated-same :
    (cs ds : Conns) (ws : List Write)
    → SameModes cs ds
    → All (λ w. Allocated cs w.0) ws
    → All (λ w. Allocated ds w.0) ws
Allocated-same cs ds ws same = All-map (λ w (m, e). (m, same w.0 ∙ e)) ws

pub write_all-Safe :
    {held : ℕ → ℕ} (ws : List Write) (s : DillServer)
    → All (λ w. Allocated s.conns w.0) ws
    → Inv held s
    → Safe (Wrote held s) (write_all ws s)
unfolding write_all
write_all-Safe [] s h v = (v, λ a. refl, refl)
write_all-Safe {held} ((conn, p) ∷ ws) s h v =
    Safe-bind (Wrote held s) (Wrote held s) (async_write_parcel conn p s) (write_all ws)
      (async_write_parcel-Safe conn p s h.0 v)
      λ t (w, same, chans).
        Safe-weaken (λ u (w', same', chans'). (w', λ a. same' a ∙ same a, chans' ∙ chans))
          (write_all ws t) (write_all-Safe ws t (Allocated-same s.conns t.conns ws same h.1) w)

pub broadcast-targets :
    (P : ℕ → Type 0) (p : DillParcel) (subs : List ℕ)
    → All P subs
    → All {A = Write} (λ w. P w.0) (map (λ conn. (conn, p)) subs)
broadcast-targets P p [] h = tt
broadcast-targets P p (a ∷ subs) h = (h.0, broadcast-targets P p subs h.1)

-- A channel writes to its subscribers only, and keeps them.
pub update_channel-targets :
    (P : ℕ → Type 0) (c : DillServerChannel) (p : DillParcel)
    → All P c.subscribers
    → let (c', ws) = update_channel c p in (c'.subscribers ≡ c.subscribers) × All (λ w. P w.0) ws
unfolding update_channel archive_log
update_channel-targets P c p h =
    let sent = broadcast-targets P p c.subscribers h in ground (arith, sent)
