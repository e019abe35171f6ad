-- ===== src/Server/Safety/Handlers.antt =====
-- The handlers of libdill/src/server_conn.cpp and server_netio.cpp keep the invariant: each gives up
-- or passes on its hold of its connection.
use dill.Base.{
  ℕ, ◌≡◌, refl, sym, ap, ◌∙◌, ◌≢◌, inl, inr, Bool, true, false, ◌&&◌, none, some, List, [], ◌∷◌,
  map, arith, Bytes, c_str, overwrite, ok, ◌==◌, if◌then◌else◌, Option-cases, length, All, All-map,
  set_erase, All-set_erase, set_erase-IsOrdered, set_erase-ne,
}
use dill.Protocol.{inflate}
use dill.Protocol.Wire.{get_u16}
use dill.Protocol.Ops.{priority_connected, priority_disconnected}
use dill.Channel.{DillServerChannel, detach_subscriber}
use dill.Server.State.{
  mode_subscriber, DillServerConnection, accepting, reading_length, reading_content, disconnecting,
  Conns, DillServer, find_conn, erase_conn, ptrval, schedule_disconnect,
}
use dill.Server.Connection.{
  put_conn, new_connection, async_read_parcel, async_read_parcel_content, on_mode,
  on_read_parcel_length_finished, on_read_parcel_content_finished,
}
use dill.Server.Loop.{async_accept, on_accept_finished, is_subscriber, is_publisher, disconnect}
use dill.Server.Safety.Modes.{
  mode_of-none, mode_of-erase_conn, mode_of, mode_of-find_conn, mode_of-set_conn_self,
}
use dill.Server.Safety.Invariant.{
  Inv, tokens-append, nobody, holding, Safe, Safe-bind, Safe-if, Subscribed, Inv-set_conn,
  Inv-callback, Inv-hand_over,
}
use dill.Server.Safety.Reads.{get_u16-Quiet, inflate-Quiet}
use dill.Server.Safety.Writes.{Allocated}
use dill.Server.Safety.Parcels.{on_mode-Safe}

holding-Allocated : (conn : ℕ) (s : DillServer) → Inv (holding conn) s → Allocated s.conns conn
holding-Allocated conn s v = elim (Option-cases (mode_of conn s.conns)) [
  | inl e ↦ absurd (ground (arith, v.owned conn, e))
  | inr (m, e) ↦ (m, e)
]

Inv-release : (conn : ℕ) (s : DillServer) → Inv (holding conn) s → Inv nobody s
Inv-release conn s v = record { owned = λ a. omega (arith, v.owned a); subscribed = v.subscribed }

pub on_read_parcel_length_finished-Safe :
    (conn : ℕ) (success : Bool) (bytes : Bytes) (s : DillServer)
    → Inv (holding conn) s
    → Safe (Inv nobody) (on_read_parcel_length_finished conn success bytes s)
unfolding on_read_parcel_length_finished async_read_parcel_content schedule_disconnect
on_read_parcel_length_finished-Safe conn success bytes s v =
    let (m, h) = holding-Allocated conn s v in
    let (c, e, k) = mode_of-find_conn conn s.conns m h in
    let rdbuf = overwrite bytes c.rdbuf in
    rw (e, Safe, on_read_parcel_length_finished)
      (Safe-if (Inv nobody) (success && length bytes == 2) _ _
        (Safe-bind (λ _. Unit {0}) (Inv nobody) (get_u16 rdbuf) _ (get_u16-Quiet rdbuf)
          λ (size, _) _.
            let c' = record c { rdbuf = rdbuf; expecting_size = size } in
            Inv-hand_over (put_conn conn c' s) conn (reading_content conn size) (λ a. omega arith)
              (Inv-set_conn s conn c' m h (inl (sym k)) v))
        (let c' = record c { rdbuf = rdbuf } in
          Inv-hand_over (put_conn conn c' s) conn (disconnecting conn) (λ a. omega arith)
            (Inv-set_conn s conn c' m h (inl (sym k)) v)))

pub on_read_parcel_content_finished-Safe :
    (conn : ℕ) (success : Bool) (bytes : Bytes) (s : DillServer)
    → Inv (holding conn) s
    → Safe (Inv nobody) (on_read_parcel_content_finished conn success bytes s)
unfolding on_read_parcel_content_finished async_read_parcel schedule_disconnect
on_read_parcel_content_finished-Safe conn success bytes s v =
    let (m, h) = holding-Allocated conn s v in
    let (c, e, k) = mode_of-find_conn conn s.conns m h in
    let rdbuf = overwrite bytes c.rdbuf in
    let c' = record c { rdbuf = rdbuf } in
    let s' = put_conn conn c' s in
    let v' = Inv-set_conn s conn c' m h (inl (sym k)) v in
    rw (e, Safe, on_read_parcel_content_finished)
      (Safe-if (Inv nobody) (success && length bytes == c.expecting_size) _ _
        (Safe-bind (λ _. Unit {0}) (Inv nobody) (inflate rdbuf) _ (inflate-Quiet rdbuf)
          λ (_, p) _.
            Safe-bind (Inv (holding conn)) (Inv nobody) (on_mode c.mode conn p s') _
              (on_mode-Safe conn p c.mode s' v' (mode_of-set_conn_self conn c' s.conns m h))
              λ t w. Inv-hand_over t conn (reading_length conn) (λ a. omega arith) w)
        (Inv-hand_over s' conn (disconnecting conn) (λ a. omega arith) v'))

-- A subscriber is in subscriber mode, so another connection is freed, or it was detached.
freed :
    (conn : ℕ) (conns : Conns) (ch : DillServerChannel)
    → Subscribed conns ch
    → All (λ b. b ≢ conn) ch.subscribers
    → Subscribed (erase_conn conn conns) ch
freed conn conns ch (o, sub) other = (o, both ch.subscribers sub other)
  where
    both :
        (bs : List ℕ)
        → All (λ a. mode_of a conns ≡ some mode_subscriber) bs
        → All (λ b. b ≢ conn) bs
        → All (λ a. mode_of a (erase_conn conn conns) ≡ some mode_subscriber) bs
    both [] h k = tt
    both (b ∷ bs) h k = (ground (arith, mode_of-erase_conn b conn conns, h.0, k.0), both bs h.1 k.1)

detach_freed :
    (conn : ℕ) (conns : Conns) (chs : List DillServerChannel)
    → All (Subscribed conns) chs
    → All (Subscribed (erase_conn conn conns)) (map (λ ch. detach_subscriber ch conn) chs)
unfolding detach_subscriber
detach_freed conn conns [] h = tt
detach_freed conn conns (ch ∷ chs) h = (
  freed conn conns (record ch { subscribers = set_erase conn ch.subscribers })
      (
        set_erase-IsOrdered conn ch.subscribers h.0.0,
        All-set_erase (λ a. mode_of a conns ≡ some mode_subscriber) conn ch.subscribers h.0.1,
      )
      (set_erase-ne conn ch.subscribers h.0.0),
  detach_freed conn conns chs h.1,
)

keep_freed :
    (conn : ℕ) (conns : Conns) (chs : List DillServerChannel)
    → (mode_of conn conns ≢ some mode_subscriber)
    → All (Subscribed conns) chs
    → All (Subscribed (erase_conn conn conns)) chs
keep_freed conn conns [] n h = tt
keep_freed conn conns (ch ∷ chs) n h = (
  freed conn conns ch h.0
      (All-map (λ b q r. n (ap (λ a. mode_of a conns) (sym r) ∙ q)) ch.subscribers h.0.1),
  keep_freed conn conns chs n h.1,
)

freed_channels :
    (b : Bool) (conn : ℕ) (conns : Conns) (chs : List DillServerChannel)
    → (b ≡ false → mode_of conn conns ≢ some mode_subscriber)
    → All (Subscribed conns) chs
    → All
        (Subscribed (erase_conn conn conns))
        (if b then map (λ ch. detach_subscriber ch conn) chs else chs)
freed_channels true conn conns chs n h = detach_freed conn conns chs h
freed_channels false conn conns chs n h = keep_freed conn conns chs (n refl) h

not_subscriber :
    (conn : ℕ) (conns : Conns) (c : DillServerConnection)
    → mode_of conn conns ≡ some c.mode
    → is_subscriber c ≡ false
    → mode_of conn conns ≢ some mode_subscriber
unfolding is_subscriber
not_subscriber conn conns c h e = ground arith

pub disconnect-Safe :
    (conn : ℕ) (s : DillServer) → Inv (holding conn) s → Safe (Inv nobody) (disconnect conn s)
unfolding disconnect
disconnect-Safe conn s v =
    let (m, h) = holding-Allocated conn s v in
    let (c, e, k) = mode_of-find_conn conn s.conns m h in
    let chs =
      if is_subscriber c
      then map (λ ch. detach_subscriber ch conn) s.channel_data
      else s.channel_data in
    Safe-if (Inv nobody) (conn == 0) (ok s) _ (Inv-release conn s v) (
      rw (e, Safe)
        (Inv-callback priority_disconnected (ptrval conn) (if is_publisher c then 1 else 0) 0
          (some (c_str c.chname)) none
          (record s { conns = erase_conn conn s.conns; channel_data = chs })
          (record {
            owned = λ a. ground (arith, mode_of-erase_conn a conn s.conns, v.owned a);
            subscribed =
                freed_channels (is_subscriber c) conn s.conns s.channel_data
                  (not_subscriber conn s.conns c (h ∙ ap some (sym k))) v.subscribed;
          })))

Inv-allocate :
    (address : ℕ) (c : DillServerConnection) (s : DillServer)
    → mode_of address s.conns ≡ none
    → Inv nobody s
    → Inv (holding address) (record s { conns = (address, c) ∷ s.conns })
Inv-allocate address c s fresh v = record {
  owned = λ a. ground (arith, v.owned a);
  subscribed =
      All-map (λ ch (o, sub). (o, All-map (λ b h. ground arith) ch.subscribers sub)) s.channel_data
        v.subscribed;
}

Inv-accepting : (s : DillServer) → Inv nobody s → Inv nobody (async_accept s)
unfolding async_accept
Inv-accepting s v = record {
  owned = λ a. omega (arith, tokens-append a s.pending (accepting ∷ []), v.owned a);
  subscribed = v.subscribed;
}

pub on_accept_finished-Inv :
    (success : Bool) (address : ℕ) (rdbuf wtbuf : Bytes) (s : DillServer)
    → find_conn address s.conns ≡ none
    → Inv nobody s
    → Inv nobody (on_accept_finished success address rdbuf wtbuf s)
unfolding on_accept_finished async_read_parcel
on_accept_finished-Inv false address rdbuf wtbuf s fresh v = Inv-accepting s v
on_accept_finished-Inv true address rdbuf wtbuf s fresh v =
    let c = new_connection rdbuf wtbuf in
    let s' = record s { conns = (address, c) ∷ s.conns } in
    Inv-accepting _ (
      Inv-callback priority_connected (ptrval address) 0 0 none none _ (
        Inv-hand_over s' address (reading_length address) (λ a. omega arith)
          (Inv-allocate address c s (mode_of-none address s.conns fresh) v)))
