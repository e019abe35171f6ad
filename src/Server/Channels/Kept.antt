-- ===== src/Server/Channels/Kept.antt =====
-- The handlers of libdill/src/server_conn.cpp change the channels only in the ways of `Closed`, and
-- report only events with their fields set.

use dill.Base.{
  ℕ, ◌%◌, ◌≡◌, sym, subst, inl, inr, true, ◌||◌, Option, none, some, List, [], ◌∷◌, ◌++◌, arith,
  Bytes, u32, c_str, use_after_free, null_string, ok, or_fault, ltb, ◌==◌, Bool-cases, Option-cases,
  length, get_elem?, All, All-append,
}
use dill.Server.Event.{DillEvent, make_event}
use dill.Server.Channels.Reports.{
  IsReport, update-IsReport, publish-IsReport, subscribe-IsReport, unsubscribe-IsReport,
}
use dill.Protocol.{DillParcel}
use dill.Channel.{
  DillServerChannel, new_channel, update_channel, attach_subscriber, detach_subscriber, Write,
}
use dill.Server.State.{
  mode_unknown, mode_publisher, mode_subscriber, DillServer, write_all, callback,
  async_write_parcel, find_conn, WorkingMode, ptrval,
}
use dill.Server.Registry.{
  find_name, get_channel_data, create_channel_data, get_available_channels, find_channel_by_name,
  get_channel_name,
}
use dill.Server.Connection.{
  on_update, on_unsubscribe, on_subscribe_parcel, on_subscribe, on_publisher_parcel, on_publish,
  on_parcel, on_mode, on_availch, find_or_create, put_conn, is_publisher_op, put_channel,
  publish_reply, is_subscriber_op,
}
use dill.Protocol.Ops.{
  is_log, priority_availch, priority_unsubscribe, priority_subscribe, priority_register,
  priority_publish,
}
use dill.Server.Channels.Closed.{Closed, Holds, Holds-bind, Holds-then, Holds-if, Holds-test}

-- The limits of the server are what they were, its channels have the property, and its events have
-- their fields set.
pub record Fixed (bufsize maxchannels : ℕ) (P : List DillServerChannel → Type 0) (b m : ℕ)
    (chs : List DillServerChannel) (events : List (Option DillEvent)) : Type 0 where
  pub bufsize_is : b ≡ bufsize
  pub maxchannels_is : m ≡ maxchannels
  pub channels : P chs
  pub reported : All IsReport events

abbrev pub Kept : ℕ → ℕ → (List DillServerChannel → Type 0) → DillServer → Type 0
Kept bufsize maxchannels P s =
    Fixed bufsize maxchannels P s.bufsize s.maxchannels s.channel_data s.events

channel_at :
    (id : ℕ) (s : DillServer) (c : DillServerChannel)
    → get_channel_data id s ≡ some c
    → get_elem? s.channel_data id ≡ some c
unfolding get_channel_data
channel_at id s c h = ground arith

module _ (bufsize maxchannels : ℕ) (P : List DillServerChannel → Type 0)
    (closed : Closed bufsize maxchannels P) where
  abbrev K : DillServer → Type 0
  K = Kept bufsize maxchannels P

  pub callback-Kept :
      (op id t1 t2 : ℕ) (str1 str2 : Option Bytes) (s : DillServer)
      → IsReport (make_event op id t1 t2 str1 str2)
      → K s
      → K (callback op id t1 t2 str1 str2 s)
  unfolding callback
  callback-Kept op id t1 t2 str1 str2 s report k = elim (Bool-cases s.evcb) [
    | inl e ↦
        rw (callback, e)
          (record {
            bufsize_is = k.bufsize_is;
            maxchannels_is = k.maxchannels_is;
            channels = k.channels;
            reported =
                All-append IsReport s.events (make_event op id t1 t2 str1 str2 ∷ []) k.reported
                  (report, tt);
          })
    | inr e ↦ rw (callback, e) k
  ]

  with_channels :
      (s : DillServer) (chs : List DillServerChannel)
      → P chs
      → K s
      → K (record s { channel_data = chs })
  with_channels s chs h k = record {
    bufsize_is = k.bufsize_is;
    maxchannels_is = k.maxchannels_is;
    channels = h;
    reported = k.reported;
  }

  async_write_parcel-Kept :
      (conn : ℕ) (p : DillParcel) (s : DillServer) → K s → Holds K (async_write_parcel conn p s)
  unfolding async_write_parcel
  async_write_parcel-Kept conn p s k =
      Holds-then K (or_fault (find_conn conn s.conns) use_after_free) _ (λ c. k)

  write_all-Kept : (ws : List Write) (s : DillServer) → K s → Holds K (write_all ws s)
  unfolding write_all
  write_all-Kept [] s k = k
  write_all-Kept ((conn, p) ∷ ws) s k =
      Holds-bind K K (async_write_parcel conn p s) (write_all ws)
        (async_write_parcel-Kept conn p s k) (λ t w. write_all-Kept ws t w)

  module _ (s : DillServer) (k : K s) where
    on_update-Kept :
        (p : DillParcel)
        → (is_log p.op || p.op == priority_register) ≡ true
        → Holds K (on_update p s)
    unfolding on_update
    on_update-Kept p op = elim (Option-cases (get_channel_data p.id s)) [
      | inl e ↦ rw (e, Holds, on_update) k
      | inr (c, e) ↦
          let s' = put_channel p.id (update_channel c p).0 s in
          rw (e, Holds, on_update)
            (Holds-bind K K (write_all (update_channel c p).1 s') _
              (write_all-Kept (update_channel c p).1 s' (
                with_channels s s'.channel_data
                  (closed.updates s.channel_data p.id c p (channel_at p.id s c e) k.channels) k))
              (λ t w.
                callback-Kept p.op p.id p.timestamp1 p.timestamp2 (some (c_str p.str1))
                  (some (c_str p.str2)) t
                  (update-IsReport p.op p.id p.timestamp1 p.timestamp2 (c_str p.str1) (c_str p.str2)
                    op)
                  w))
    ]

    on_subscribe-Kept : (conn : ℕ) (p : DillParcel) → Holds K (on_subscribe conn p s)
    unfolding on_subscribe
    on_subscribe-Kept conn p = elim (Option-cases (get_channel_data p.id s)) [
      | inl e ↦ rw (e, Holds, on_subscribe) k
      | inr (c, e) ↦
          let s' = put_channel p.id (attach_subscriber c conn).0 s in
          rw (e, Holds, on_subscribe)
            (Holds-bind K K (write_all (attach_subscriber c conn).1 s') _
              (write_all-Kept (attach_subscriber c conn).1 s' (
                with_channels s s'.channel_data
                  (closed.attaches s.channel_data p.id c conn (channel_at p.id s c e) k.channels)
                  k))
              (λ t w.
                callback-Kept priority_subscribe (ptrval conn) 0 0 (some (c_str c.name)) none t
                  (subscribe-IsReport (ptrval conn) (c_str c.name)) w))
    ]

    on_unsubscribe-Kept : (conn : ℕ) (p : DillParcel) → K (on_unsubscribe conn p s)
    unfolding on_unsubscribe
    on_unsubscribe-Kept conn p = elim (Option-cases (get_channel_data p.id s)) [
      | inl e ↦ rw (e, on_unsubscribe) k
      | inr (c, e) ↦
          let s' = put_channel p.id (detach_subscriber c conn) s in
          rw (e, on_unsubscribe)
            (callback-Kept priority_unsubscribe (ptrval conn) 0 0 (some (c_str c.name)) none s'
              (unsubscribe-IsReport (ptrval conn) (c_str c.name))
              (with_channels s s'.channel_data
                (closed.detaches s.channel_data p.id c conn (channel_at p.id s c e) k.channels) k))
    ]

    on_availch-Kept : (conn : ℕ) (p : DillParcel) → Holds K (on_availch conn p s)
    unfolding on_availch
    on_availch-Kept conn p =
        Holds-if K (ltb 0 (get_available_channels s)) _ _
          (Holds-then K (or_fault (get_channel_name p.id s) null_string) _
            (λ name. async_write_parcel-Kept conn _ s k))
          (async_write_parcel-Kept conn _ s k)

    find_or_create-Kept : (name : Bytes) → K (find_or_create (c_str name) s).1
    unfolding find_or_create create_channel_data find_channel_by_name
    find_or_create-Kept name = elim (Option-cases (find_name (c_str name) s.channel_data)) [
      | inl e ↦
          rw (e, find_or_create)
            (elim (Bool-cases (ltb (length s.channel_data) s.maxchannels)) [
              | inl room ↦ rw room (record {
                bufsize_is = k.bufsize_is;
                maxchannels_is = k.maxchannels_is;
                channels =
                    subst
                      (λ b. P (
                        s.channel_data
                        ++ (new_channel (length s.channel_data % u32) b (c_str name) ∷ [])))
                      (sym k.bufsize_is)
                      (closed.creates s.channel_data name e (ground (arith, k.maxchannels_is))
                        k.channels);
                reported = k.reported;
              })
              | inr full ↦ rw full k
            ])
      | inr (c, e) ↦ rw (e, find_or_create) k
    ]

    on_subscribe_parcel-Kept : (conn : ℕ) (p : DillParcel) → Holds K (on_subscribe_parcel conn p s)
    unfolding on_subscribe_parcel
    on_subscribe_parcel-Kept conn p =
        Holds-if K (p.op == priority_availch) _ _ (on_availch-Kept conn p) (
          Holds-if K (p.op == priority_subscribe) _ _ (on_subscribe-Kept conn p) (
            Holds-if K (p.op == priority_unsubscribe) (ok (on_unsubscribe conn p s)) (ok s)
              (on_unsubscribe-Kept conn p) k))

  on_publish-Kept :
      (conn : ℕ) (p : DillParcel) (s : DillServer) → K s → Holds K (on_publish conn p s)
  unfolding on_publish
  on_publish-Kept conn p s k =
      Holds-then K (or_fault (find_conn conn s.conns) use_after_free) _ λ c.
        let s' = put_conn conn (record c { chname = p.str1 }) s in
        Holds-bind K K
          (async_write_parcel conn (publish_reply (find_or_create (c_str p.str1) s').0)
            (find_or_create (c_str p.str1) s').1)
          _ (async_write_parcel-Kept conn _ _ (find_or_create-Kept s' k p.str1))
          (λ t w.
            callback-Kept priority_publish (ptrval conn) 0 0 (some (c_str p.str1)) none t
              (publish-IsReport (ptrval conn) (c_str p.str1)) w)

  on_publisher_parcel-Kept :
      (conn : ℕ) (p : DillParcel) (s : DillServer) → K s → Holds K (on_publisher_parcel conn p s)
  unfolding on_publisher_parcel
  on_publisher_parcel-Kept conn p s k =
      Holds-test K (is_log p.op || p.op == priority_register) _ _ (on_update-Kept s k p)
        (Holds-if K (p.op == priority_publish) _ (ok s) (on_publish-Kept conn p s k) k)

  on_parcel-Kept : (conn : ℕ) (p : DillParcel) (s : DillServer) → K s → Holds K (on_parcel conn p s)
  unfolding on_parcel
  on_parcel-Kept conn p s k = Holds-then K (or_fault (find_conn conn s.conns) use_after_free) _ λ c.
      Holds-if K (is_publisher_op p.op) _ _ (on_publisher_parcel-Kept conn p _ k)
        (Holds-if K (is_subscriber_op p.op) _ (ok s) (on_subscribe_parcel-Kept _ k conn p) k)

  pub on_mode-Kept :
      (m : WorkingMode) (conn : ℕ) (p : DillParcel) (s : DillServer)
      → K s
      → Holds K (on_mode m conn p s)
  unfolding on_mode
  on_mode-Kept mode_unknown conn p s k = on_parcel-Kept conn p s k
  on_mode-Kept mode_publisher conn p s k = on_publisher_parcel-Kept conn p s k
  on_mode-Kept mode_subscriber conn p s k = on_subscribe_parcel-Kept s k conn p
