-- ===== src/Channel/Update.antt =====
-- What `updateChannel` of libdill/src/server_channel.cpp keeps, drops and sends of the logs.
use dill.Base.{
  ℕ, ◌+◌, ◌-◌, ◌%◌, ◌≤◌, ◌<◌, ◌≡◌, refl, ap, ◌≢◌, inl, inr, true, List, [], ◌∷◌, ◌++◌, arith, Bytes,
  u32, leb, ◌==◌, Bool-cases, not-==, dec_le,
}
use dill.Protocol.{DillParcel, deflate_len}
use dill.Protocol.Ops.{priority_register}
use dill.Protocol.Size.{deflate_len_bounds}
use dill.Channel.{
  DillServerChannel, Write, new_channel, purge, broadcast, archive_log, update_channel,
}
use dill.Channel.Purge.{total, total-append, Longest, Purged, purge-Purged}
use dill.Channel.Sends.{writes-SentTo, SentTo}

-- `Used` counts the bytes of `Buffers`, which do not exceed `Capacity`; and no sum that
-- `updateChannel` computes wraps around 32 bits.
pub record IsValid (c : DillServerChannel) : Type 0 where
  pub counted : c.used ≡ total c.buffers
  pub within : c.used ≤ c.capacity
  pub roomy : c.capacity + 47549 < u32

pub new_channel-IsValid :
    (id capacity : ℕ) (name : Bytes)
    → capacity + 47549 < u32
    → IsValid (new_channel id capacity name)
unfolding new_channel
new_channel-IsValid id capacity name h = record { counted = refl; within = omega arith; roomy = h }

-- The state after the loop of `updateChannel`.
abbrev purged : DillServerChannel → DillParcel → ℕ × List DillParcel
purged c p = purge c.capacity (deflate_len p) c.used c.buffers

purged-Purged :
    (c : DillServerChannel) (p : DillParcel)
    → IsValid c
    → Purged c.capacity (deflate_len p) c.buffers (purged c p)
purged-Purged c p v = rw v.counted (
    purge-Purged c.capacity (deflate_len p) c.buffers v.roomy (deflate_len_bounds p).1
      (omega (arith, v.counted, v.within)))

-- A log that fits: the longest run of recent logs that leaves room for it stays, it goes to the
-- end, and each subscriber is sent it once.
pub record Stored (c : DillServerChannel) (p : DillParcel) (r : DillServerChannel × List Write)
    : Type 0 where
  pub kept : List DillParcel
  pub longest : Longest (c.capacity - deflate_len p) c.buffers kept
  pub state : r.0 ≡ record c { buffers = kept ++ (p ∷ []); used = total kept + deflate_len p }
  pub sent : r.1 ≡ broadcast c p
  pub sent_once : SentTo c.subscribers p r.1

archive_log-Stored :
    (c : DillServerChannel) (p : DillParcel)
    → IsValid c
    → deflate_len p ≤ c.capacity
    → Stored c p (archive_log c p)
unfolding archive_log
archive_log-Stored c p v h =
    let q = purged-Purged c p v in
    let l = q.room h in
    let sum : ((purged c p).0 + deflate_len p) % u32 ≡ total (purged c p).1 + deflate_len p =
      omega (arith, q.counted, l.fits, v.roomy) in
    let test : leb (((purged c p).0 + deflate_len p) % u32) c.capacity ≡ true =
      ground (arith, sum, l.fits) in
    rw test (record {
      kept = (purged c p).1;
      longest = l;
      state = ap (λ u. record c { buffers = (purged c p).1 ++ (p ∷ []); used = u }) sum;
      sent = refl;
      sent_once = writes-SentTo c.subscribers p;
    })

archive_log_oversize :
    (c : DillServerChannel) (p : DillParcel)
    → IsValid c
    → c.capacity < deflate_len p
    → archive_log c p ≡ (record c { buffers = []; used = 0 }, [])
unfolding archive_log
archive_log_oversize c p v h =
    let q = purged-Purged c p v in
    let none_left : (purged c p).1 ≡ [] = q.oversize h in
    let zero_used : (purged c p).0 ≡ 0 = omega (arith, q.counted, ap total none_left) in
    rw (zero_used, none_left) (ground (arith, deflate_len_bounds p))

archive_log-IsValid :
    (c : DillServerChannel) (p : DillParcel) → IsValid c → IsValid (archive_log c p).0
archive_log-IsValid c p v = elim (dec_le (deflate_len p) c.capacity) [
  | yes fits ↦
      let s = archive_log-Stored c p v fits in
      rw s.state (record {
        counted = omega (arith, total-append s.kept (p ∷ []));
        within = omega (arith, s.longest.fits);
        roomy = v.roomy;
      })
  | no over ↦
      rw (archive_log_oversize c p v (omega arith))
        (record { counted = refl; within = omega arith; roomy = v.roomy })
]

-- `updateChannel` keeps the invariant, whatever the parcel.
pub update_channel-IsValid :
    (c : DillServerChannel) (p : DillParcel) → IsValid c → IsValid (update_channel c p).0
unfolding update_channel
update_channel-IsValid c p v = elim (Bool-cases (p.op == priority_register)) [
  | inl e ↦ rw e (record { counted = v.counted; within = v.within; roomy = v.roomy })
  | inr e ↦ rw e (archive_log-IsValid c p v)
]

-- A log parcel no larger than the capacity is stored and broadcast: the channel keeps the longest
-- suffix of its logs that leaves room for the parcel, appends the parcel, counts the bytes of
-- exactly those logs, changes nothing else, and sends the parcel once to each subscriber.
pub update_channel-Stored :
    (c : DillServerChannel) (p : DillParcel)
    → IsValid c
    → p.op ≢ priority_register
    → deflate_len p ≤ c.capacity
    → Stored c p (update_channel c p)
unfolding update_channel
update_channel-Stored c p v h k = rw (not-== _ _ h) (archive_log-Stored c p v k)

-- A log parcel larger than the capacity is not stored and not broadcast, and every log that the
-- channel held is dropped.
pub update_channel_oversize :
    (c : DillServerChannel) (p : DillParcel)
    → IsValid c
    → p.op ≢ priority_register
    → c.capacity < deflate_len p
    → update_channel c p ≡ (record c { buffers = []; used = 0 }, [])
unfolding update_channel
update_channel_oversize c p v h k = rw (not-== _ _ h) (archive_log_oversize c p v k)
