-- ===== src/Server/Safety/Parcels.antt =====
-- The parcel handlers of libdill/src/server_conn.cpp touch allocated connections only, and keep the
-- invariant.
use dill.Base.{
  ℕ, ◌≡◌, refl, sym, ap, ◌∙◌, inl, inr, ◌||◌, none, some, arith, Bytes, c_str, ok, ltb, ◌==◌,
  Bool-cases, Option-cases, length, get_elem?, All-append, All-set, All-get_elem?, All-map,
  All-set_insert, All-set_erase, set_insert-IsOrdered, set_erase-IsOrdered,
}
use dill.Protocol.{DillParcel}
use dill.Protocol.Ops.{
  is_log, priority_register, priority_publish, priority_subscribe, priority_unsubscribe,
  priority_availch,
}
use dill.Channel.{
  DillServerChannel, Write, new_channel, update_channel, attach_subscriber, detach_subscriber,
}
use dill.Channel.Subscribers.{attach_subscriber_lem}
use dill.Server.State.{
  WorkingMode, mode_unknown, mode_publisher, mode_subscriber, DillServer, async_write_parcel,
  write_all, ptrval,
}
use dill.Server.Registry.{
  get_channel_data, find_channel_by_name, create_channel_data, get_available_channels,
  get_channel_name,
}
use dill.Server.Connection.{
  put_channel, put_conn, on_update, find_or_create, publish_reply, on_publish, on_publisher_parcel,
  on_availch, on_subscribe, on_unsubscribe, on_subscribe_parcel, is_publisher_op, is_subscriber_op,
  on_parcel, on_mode,
}
use dill.Server.Safety.Modes.{mode_of, mode_of-find_conn, mode_of-set_conn_self}
use dill.Server.Safety.Invariant.{
  Inv, Safe, Safe-bind, Subscribed, Inv-set_conn, Inv-callback, Safe-weaken, Safe-if,
}
use dill.Server.Safety.Writes.{
  Allocated, Wrote, async_write_parcel-Safe, write_all-Safe, update_channel-targets,
}

get_channel_data-get_elem? :
    (id : ℕ) (s : DillServer) (c : DillServerChannel)
    → get_channel_data id s ≡ some c
    → get_elem? s.channel_data id ≡ some c
unfolding get_channel_data
get_channel_data-get_elem? id s c h = ground arith

module _ {held : ℕ → ℕ} (s : DillServer) (v : Inv held s) where
  channel-Subscribed :
      (id : ℕ) (c : DillServerChannel) → get_channel_data id s ≡ some c → Subscribed s.conns c
  channel-Subscribed id c h =
      All-get_elem? (Subscribed s.conns) s.channel_data id c v.subscribed
        (get_channel_data-get_elem? id s c h)

  Inv-put_channel :
      (id : ℕ) (c : DillServerChannel) → Subscribed s.conns c → Inv held (put_channel id c s)
  Inv-put_channel id c h = record {
    owned = v.owned;
    subscribed = All-set (Subscribed s.conns) s.channel_data id c v.subscribed h;
  }

  on_update-Safe : (p : DillParcel) → Safe (Inv held) (on_update p s)
  unfolding on_update
  on_update-Safe p = elim (Option-cases (get_channel_data p.id s)) [
    | inl e ↦ rw (e, Safe, on_update) v
    | inr (c, e) ↦
        let sub = channel-Subscribed p.id c e in
        let (same, sent) =
          update_channel-targets (Allocated s.conns) c p
            (All-map (λ a m. (mode_subscriber, m)) c.subscribers sub.1) in
        let s' = put_channel p.id (update_channel c p).0 s in
        rw (e, Safe, on_update)
          (Safe-bind (Wrote held s') (Inv held) (write_all (update_channel c p).1 s') _
            (write_all-Safe (update_channel c p).1 s' sent
              (Inv-put_channel p.id (update_channel c p).0 (rw same sub)))
            (λ t w.
              Inv-callback p.op p.id p.timestamp1 p.timestamp2 (some (c_str p.str1))
                (some (c_str p.str2)) t w.0))
  ]

  find_or_create-Inv :
      (name : Bytes)
      → Inv held (find_or_create name s).1 × ((find_or_create name s).1.conns ≡ s.conns)
  unfolding find_or_create create_channel_data new_channel
  find_or_create-Inv name = elim (Option-cases (find_channel_by_name (some name) s)) [
    | inl e ↦
        rw (e, find_or_create)
          (elim (Bool-cases (ltb (length s.channel_data) s.maxchannels)) [
            | inl room ↦ rw room (
              record {
                owned = v.owned;
                subscribed =
                    All-append (Subscribed s.conns) s.channel_data _ v.subscribed ((tt, tt), tt);
              },
              refl,
            )
            | inr full ↦ rw full (v, refl)
          ])
    | inr (c, e) ↦ rw (e, find_or_create) (v, refl)
  ]

  on_availch-Safe :
      (conn : ℕ) (p : DillParcel) → Allocated s.conns conn → Safe (Inv held) (on_availch conn p s)
  unfolding on_availch
  on_availch-Safe conn p h = elim (Bool-cases (ltb 0 (get_available_channels s))) [
    | inl some_channels ↦
        rw (some_channels, Safe, on_availch)
          (elim (Option-cases (get_channel_name p.id s)) [
            | inl e ↦ rw (e, Safe) tt
            | inr (name, e) ↦ rw (e, Safe) (writes (record reply { str1 = name }))
          ])
    | inr no_channel ↦ rw (no_channel, Safe, on_availch) (writes reply)
  ]
    where
      reply : DillParcel
      reply = record p { timestamp1 = get_available_channels s; timestamp2 = 0 }

      writes : (q : DillParcel) → Safe (Inv held) (async_write_parcel conn q s)
      writes q =
          Safe-weaken (λ t (w : Wrote held s t). w.0) (async_write_parcel conn q s)
            (async_write_parcel-Safe conn q s h v)

  attached :
      (conn : ℕ) (c : DillServerChannel)
      → mode_of conn s.conns ≡ some mode_subscriber
      → Subscribed s.conns c
      → Subscribed s.conns (attach_subscriber c conn).0
  unfolding attach_subscriber
  attached conn c h sub = (
    set_insert-IsOrdered conn c.subscribers sub.0,
    All-set_insert (λ a. mode_of a s.conns ≡ some mode_subscriber) conn c.subscribers h sub.1,
  )

  on_subscribe-Safe :
      (conn : ℕ) (p : DillParcel)
      → mode_of conn s.conns ≡ some mode_subscriber
      → Safe (Inv held) (on_subscribe conn p s)
  unfolding on_subscribe
  on_subscribe-Safe conn p h = elim (Option-cases (get_channel_data p.id s)) [
    | inl e ↦ rw (e, Safe, on_subscribe) v
    | inr (c, e) ↦
        let s' = put_channel p.id (attach_subscriber c conn).0 s in
        rw (e, Safe, on_subscribe)
          (Safe-bind (Wrote held s') (Inv held) (write_all (attach_subscriber c conn).1 s') _
            (write_all-Safe (attach_subscriber c conn).1 s'
              (All-map
                (λ (w : Write) (q : w.0 ≡ conn).
                  (mode_subscriber, ap (λ a. mode_of a s.conns) q ∙ h))
                (attach_subscriber c conn).1 (attach_subscriber_lem c conn 0).0)
              (Inv-put_channel p.id (attach_subscriber c conn).0
                (attached conn c h (channel-Subscribed p.id c e))))
            (λ t w.
              Inv-callback priority_subscribe (ptrval conn) 0 0 (some (c_str c.name)) none t w.0))
  ]

  detached :
      (conn : ℕ) (c : DillServerChannel)
      → Subscribed s.conns c
      → Subscribed s.conns (detach_subscriber c conn)
  unfolding detach_subscriber
  detached conn c sub = (
    set_erase-IsOrdered conn c.subscribers sub.0,
    All-set_erase (λ a. mode_of a s.conns ≡ some mode_subscriber) conn c.subscribers sub.1,
  )

  on_unsubscribe-Inv : (conn : ℕ) (p : DillParcel) → Inv held (on_unsubscribe conn p s)
  unfolding on_unsubscribe
  on_unsubscribe-Inv conn p = elim (Option-cases (get_channel_data p.id s)) [
    | inl e ↦ rw (e, on_unsubscribe) v
    | inr (c, e) ↦
        rw (e, on_unsubscribe)
          (Inv-callback priority_unsubscribe (ptrval conn) 0 0 (some (c_str c.name)) none
            (put_channel p.id (detach_subscriber c conn) s)
            (Inv-put_channel p.id (detach_subscriber c conn)
              (detached conn c (channel-Subscribed p.id c e))))
  ]

module _ {held : ℕ → ℕ} (conn : ℕ) (p : DillParcel) where
  on_publish-Safe :
      (s : DillServer) → Inv held s → Allocated s.conns conn → Safe (Inv held) (on_publish conn p s)
  unfolding on_publish
  on_publish-Safe s v (m, h) =
      let (c, e, k) = mode_of-find_conn conn s.conns m h in
      let c' = record c { chname = p.str1 } in
      let named = put_conn conn c' s in
      let found = find_or_create (c_str p.str1) named in
      let (v', same) =
        find_or_create-Inv named (Inv-set_conn s conn c' m h (inl (sym k)) v) (c_str p.str1) in
      let allocated : mode_of conn found.1.conns ≡ some m =
        ap (mode_of conn) same ∙ (mode_of-set_conn_self conn c' s.conns m h ∙ ap some k) in
      rw (e, Safe, on_publish)
        (Safe-bind (Wrote held found.1) (Inv held)
          (async_write_parcel conn (publish_reply found.0) found.1) _
          (async_write_parcel-Safe conn (publish_reply found.0) found.1 (m, allocated) v')
          (λ t w. Inv-callback priority_publish (ptrval conn) 0 0 (some (c_str p.str1)) none t w.0))

  on_publisher_parcel-Safe :
      (s : DillServer)
      → Inv held s
      → Allocated s.conns conn
      → Safe (Inv held) (on_publisher_parcel conn p s)
  unfolding on_publisher_parcel
  on_publisher_parcel-Safe s v h =
      Safe-if (Inv held) (is_log p.op || p.op == priority_register) _ _ (on_update-Safe s v p)
        (Safe-if (Inv held) (p.op == priority_publish) _ (ok s) (on_publish-Safe s v h) v)

  on_subscribe_parcel-Safe :
      (s : DillServer)
      → Inv held s
      → mode_of conn s.conns ≡ some mode_subscriber
      → Safe (Inv held) (on_subscribe_parcel conn p s)
  unfolding on_subscribe_parcel
  on_subscribe_parcel-Safe s v h =
      Safe-if (Inv held) (p.op == priority_availch) _ _
        (on_availch-Safe s v conn p (mode_subscriber, h))
        (Safe-if (Inv held) (p.op == priority_subscribe) _ _ (on_subscribe-Safe s v conn p h) (
          Safe-if (Inv held) (p.op == priority_unsubscribe) (ok (on_unsubscribe conn p s)) (ok s)
            (on_unsubscribe-Inv s v conn p) v))

  on_parcel-Safe :
      (s : DillServer)
      → Inv held s
      → mode_of conn s.conns ≡ some mode_unknown
      → Safe (Inv held) (on_parcel conn p s)
  unfolding on_parcel
  on_parcel-Safe s v h =
      let (c, e, k) = mode_of-find_conn conn s.conns mode_unknown h in
      let publisher = record c { mode = mode_publisher } in
      let subscriber = record c { mode = mode_subscriber } in
      rw (e, Safe, on_parcel)
        (Safe-if (Inv held) (is_publisher_op p.op) _ _
          (on_publisher_parcel-Safe (put_conn conn publisher s)
            (Inv-set_conn s conn publisher mode_unknown h (inr refl) v)
            (mode_publisher, mode_of-set_conn_self conn publisher s.conns mode_unknown h))
          (Safe-if (Inv held) (is_subscriber_op p.op) _ (ok s)
            (on_subscribe_parcel-Safe (put_conn conn subscriber s)
              (Inv-set_conn s conn subscriber mode_unknown h (inr refl) v)
              (mode_of-set_conn_self conn subscriber s.conns mode_unknown h))
            v))

  -- Whatever the parcel, in the mode that the connection is in.
  pub on_mode-Safe :
      (m : WorkingMode) (s : DillServer)
      → Inv held s
      → mode_of conn s.conns ≡ some m
      → Safe (Inv held) (on_mode m conn p s)
  unfolding on_mode
  on_mode-Safe mode_unknown s v h = on_parcel-Safe s v h
  on_mode-Safe mode_publisher s v h = on_publisher_parcel-Safe s v (mode_publisher, h)
  on_mode-Safe mode_subscriber s v h = on_subscribe_parcel-Safe s v h
