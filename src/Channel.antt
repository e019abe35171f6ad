-- ===== src/Channel.antt =====
-- libdill/src/server_channel.h and server_channel.cpp: a channel keeps its subscribers, the latest
-- log parcels up to `Capacity` bytes, and its registers. Methods return the new channel and the
-- writes that they ask of connections, in order; a connection is named by its address. The order in
-- which `boost::unordered_map` lists the registers is here the order of first insertion. The traces
-- and the `purgedSize` that only they print are left out.
pub mod Purge
pub mod Sends
pub mod Update
pub mod Registers
pub mod Subscribers
use dill.Base.{
  ℕ, ◌+◌, ◌-◌, ◌%◌, ◌==◌, List, [], ◌∷◌, ◌++◌, map, u32, Bytes, if◌then◌else◌, ltb, leb, set_insert,
  set_erase, StringMap, map_put,
}
use dill.Protocol.{DillParcel, deflate_len}
use dill.Protocol.Ops.{priority_register}

pub record DillServerChannel : Type 0 where
  pub id : ℕ
  pub name : Bytes
  pub subscribers : List ℕ
  pub buffers : List DillParcel
  pub capacity : ℕ
  pub used : ℕ
  pub registers : StringMap

-- A call `conn->asyncWriteParcel(p)`.
abbrev pub Write : Type 0
Write = ℕ × DillParcel

-- The constructor.
unfoldable pub new_channel : ℕ → ℕ → Bytes → DillServerChannel
new_channel id capacity name = record {
  id = id;
  name = name;
  subscribers = [];
  buffers = [];
  capacity = capacity;
  used = 0;
  registers = [];
}

-- The `while` loop of `updateChannel` over `Used` and `Buffers`, oldest first.
unfoldable pub purge : ℕ → ℕ → ℕ → List DillParcel → ℕ × List DillParcel
purge capacity psize used [] = (used, [])
purge capacity psize used (oldp ∷ rest) =
    if ltb capacity ((used + psize) % u32)
    then purge capacity psize ((used + u32 - deflate_len oldp) % u32) rest
    else (used, oldp ∷ rest)

-- The broadcast at the end of `updateChannel`.
abbrev pub broadcast : DillServerChannel → DillParcel → List Write
broadcast c p = map (λ conn. (conn, p)) c.subscribers

-- The `else` branch of `updateChannel`, for a log.
unfoldable pub archive_log : DillServerChannel → DillParcel → DillServerChannel × List Write
archive_log c p =
    let psize = deflate_len p in
    let (used, kept) = purge c.capacity psize c.used c.buffers in
    if leb ((used + psize) % u32) c.capacity
    then (record c { buffers = kept ++ (p ∷ []); used = (used + psize) % u32 }, broadcast c p)
    else (record c { buffers = kept; used = used }, [])

unfoldable pub update_channel : DillServerChannel → DillParcel → DillServerChannel × List Write
update_channel c p =
    if p.op == priority_register
    then (record c { registers = map_put p.str1 p.str2 c.registers }, broadcast c p)
    else archive_log c p

-- The parcel that `attachSubscriber` sends for a register.
abbrev pub register_parcel : ℕ → Bytes × Bytes → DillParcel
register_parcel id (key, value) = record {
  op = priority_register;
  id = id;
  timestamp1 = 0;
  timestamp2 = 0;
  str1 = key;
  str2 = value;
}

unfoldable pub attach_subscriber : DillServerChannel → ℕ → DillServerChannel × List Write
attach_subscriber c conn = (
  record c { subscribers = set_insert conn c.subscribers },
  map (λ p. (conn, p)) c.buffers ++ map (λ r. (conn, register_parcel c.id r)) c.registers,
)

unfoldable pub detach_subscriber : DillServerChannel → ℕ → DillServerChannel
detach_subscriber c conn = record c { subscribers = set_erase conn c.subscribers }
