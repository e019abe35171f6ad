-- ===== src/Server/Channels/Valid.antt =====
-- The buffers of all channels of a running server (libdill/src/server_channel.cpp under
-- server_netio.cpp).
use dill.Base.{
  ℕ, ◌+◌, ◌%◌, ◌<◌, ◌≡◌, refl, ◌∙◌, Bool, List, [], ◌∷◌, map, arith, Bytes, u32, c_str, length, All,
  All-append, All-set, All-get_elem?,
}
use dill.Channel.{
  DillServerChannel, update_channel, new_channel, detach_subscriber, attach_subscriber, archive_log,
}
use dill.Channel.Update.{IsValid, update_channel-IsValid, new_channel-IsValid}
use dill.Server.State.{Pending, DillServer}
use dill.Server.Loop.{Outcome, Reach, enter_loop, new_server}
use dill.Server.Channels.Closed.{Closed}
use dill.Server.Channels.Loop.{Reach-channels}
use dill.Protocol.{DillParcel}

-- A channel of the given size whose count of used bytes is right.
abbrev pub IsSized : ℕ → DillServerChannel → Type 0
IsSized bufsize c = IsValid c × (c.capacity ≡ bufsize)

capacity-update_channel :
    (c : DillServerChannel) (p : DillParcel) → (update_channel c p).0.capacity ≡ c.capacity
unfolding update_channel archive_log
capacity-update_channel c p = ground arith

update_channel-IsSized :
    (bufsize : ℕ) (c : DillServerChannel) (p : DillParcel)
    → IsSized bufsize c
    → IsSized bufsize (update_channel c p).0
update_channel-IsSized bufsize c p (v, e) =
    (update_channel-IsValid c p v, capacity-update_channel c p ∙ e)

attach_subscriber-IsSized :
    (bufsize : ℕ) (c : DillServerChannel) (conn : ℕ)
    → IsSized bufsize c
    → IsSized bufsize (attach_subscriber c conn).0
unfolding attach_subscriber
attach_subscriber-IsSized bufsize c conn (v, e) =
    (record { counted = v.counted; within = v.within; roomy = v.roomy }, e)

detach_subscriber-IsSized :
    (bufsize : ℕ) (c : DillServerChannel) (conn : ℕ)
    → IsSized bufsize c
    → IsSized bufsize (detach_subscriber c conn)
unfolding detach_subscriber
detach_subscriber-IsSized bufsize c conn (v, e) =
    (record { counted = v.counted; within = v.within; roomy = v.roomy }, e)

new_channel-IsSized :
    (bufsize id : ℕ) (name : Bytes)
    → bufsize + 47549 < u32
    → IsSized bufsize (new_channel id bufsize name)
unfolding new_channel
new_channel-IsSized bufsize id name h = (new_channel-IsValid id bufsize name h, refl)

detach_each-IsSized :
    (bufsize : ℕ) (chs : List DillServerChannel) (conn : ℕ)
    → All (IsSized bufsize) chs
    → All (IsSized bufsize) (map (λ c. detach_subscriber c conn) chs)
detach_each-IsSized bufsize [] conn h = tt
detach_each-IsSized bufsize (c ∷ chs) conn h =
    (detach_subscriber-IsSized bufsize c conn h.0, detach_each-IsSized bufsize chs conn h.1)

IsSized-Closed :
    (bufsize maxchannels : ℕ)
    → bufsize + 47549 < u32
    → Closed bufsize maxchannels (All (IsSized bufsize))
IsSized-Closed bufsize maxchannels small = record {
  updates = λ chs i c p e h.
      All-set (IsSized bufsize) chs i (update_channel c p).0 h
        (update_channel-IsSized bufsize c p (All-get_elem? (IsSized bufsize) chs i c h e));
  attaches = λ chs i c conn e h.
      All-set (IsSized bufsize) chs i (attach_subscriber c conn).0 h
        (attach_subscriber-IsSized bufsize c conn (All-get_elem? (IsSized bufsize) chs i c h e));
  detaches = λ chs i c conn e h.
      All-set (IsSized bufsize) chs i (detach_subscriber c conn) h
        (detach_subscriber-IsSized bufsize c conn (All-get_elem? (IsSized bufsize) chs i c h e));
  detaches_all = λ chs conn h. detach_each-IsSized bufsize chs conn h;
  creates = λ chs name _ _ h.
      All-append (IsSized bufsize) chs _ h
        (new_channel-IsSized bufsize (length chs % u32) (c_str name) small, tt);
}

-- In every state that a server reaches, whatever completes and however, each channel has the size
-- that the server was made with, and its `Used` counts the bytes of its logs and does not exceed that
-- size, if that size and 47549, the largest size of a parcel, together are less than 2^32.
pub Reach-IsSized :
    (bound : Bool) (bufsize maxchannels : ℕ) {Q : Pending → Outcome → Type 0} {s : DillServer}
    → bufsize + 47549 < u32
    → Reach Q (enter_loop (new_server bound bufsize maxchannels)) s
    → All (IsSized bufsize) s.channel_data
Reach-IsSized bound bufsize maxchannels small r =
    Reach-channels bufsize maxchannels (All (IsSized bufsize))
      (IsSized-Closed bufsize maxchannels small) bound tt r
