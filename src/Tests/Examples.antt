-- ===== src/Tests/Examples.antt =====
-- The theorems about parcels and channels at concrete inputs.
use dill.Protocol.Wire.{IsByte, get_u16, get_bytes}
use dill.Base.{
  ℕ, ◌+◌, ◌≡◌, refl, Bool, true, false, ◌||◌, some, [], ◌∷◌, ◌++◌, map, arith, Bytes, overwrite, ok,
  ◌==◌, bytes_eq, length, take, drop, replicate, All, contains, map_find, length-replicate, ltb,
  ◌&&◌, List,
}
use dill.Protocol.{DillParcel, deflate, deflate_len, inflate, IsParcel, str_len}
use dill.Protocol.Ops.{priority_info, priority_register}
use dill.Protocol.RoundTrip.{clip, inflate-deflate, deflate-inflate}
use dill.Channel.{DillServerChannel, new_channel, update_channel, attach_subscriber}
use dill.Channel.Update.{
  IsValid, Stored, new_channel-IsValid, update_channel-Stored, update_channel_oversize,
}
use dill.Channel.Subscribers.{OnlyTo, attach_subscriber_lem, IsRegisterOf, carried}
use dill.Server.State.{framed}
use dill.Server.Frames.{frame, frame_lem}
use dill.Agent.{DillLogAgent}
use dill.Subscriber.{DillSubscriber, new_subscriber}
use dill.Client.{ClientIo}
use dill.Channel.Registers.{last_value, registers_lem, updates}
use dill.Channel.Sends.{SentTo}

abbrev pub info_parcel : DillParcel
info_parcel = record {
  op = priority_info;
  id = 0;
  timestamp1 = 5;
  timestamp2 = 6;
  str1 = 65 ∷ [];
  str2 = 66 ∷ 67 ∷ [];
}

pub info_IsParcel : IsParcel info_parcel
info_IsParcel = record {
  op_range = omega arith;
  id_range = omega arith;
  timestamp1_range = omega arith;
  timestamp2_range = omega arith;
}

abbrev two_logs : DillServerChannel
two_logs = record (new_channel 0 70 (97 ∷ [])) {
  buffers = info_parcel ∷ info_parcel ∷ [];
  used = 40;
  subscribers = 7 ∷ 9 ∷ [];
  registers = (65 ∷ [], 66 ∷ []) ∷ [];
}

two_logs-IsValid : IsValid two_logs
unfolding new_channel deflate_len str_len
two_logs-IsValid = record { counted = refl; within = omega arith; roomy = omega arith }

-- A buffer of a connection.
pub buffer : Bytes
buffer = replicate 65538 0

pub length-buffer : length buffer ≡ 65538
unfolding buffer
length-buffer = length-replicate {A = ℕ} 65538 0

abbrev pub idle_io : ClientIo
idle_io = record {
  running = true;
  sig_exit = false;
  sig_connected = true;
  addr = [];
  port = 5299;
  rd_buf = buffer;
  expecting_rdlen = 2;
  wt_buf = buffer;
  expecting_wtlen = 0;
  pending = [];
}

abbrev pub idle : DillLogAgent
idle = record {
  io = idle_io;
  queue = [];
  pending_logwrites = false;
  loggable = true;
  channel_id = 0;
  channel = 97 ∷ [];
}

inflate-deflate_example :
    inflate (deflate info_parcel ++ (1 ∷ [])) ≡ ok (deflate_len info_parcel, clip info_parcel)
inflate-deflate_example = inflate-deflate info_parcel (1 ∷ []) info_IsParcel

-- The bytes are less than 256.
unfoldable are_bytes : Bytes → Bool
are_bytes [] = true
are_bytes (b ∷ bs) = ltb b 256 && are_bytes bs

are_bytes_lem : (bs : Bytes) → are_bytes bs ≡ true → All IsByte bs
unfolding are_bytes
are_bytes_lem [] h = tt
are_bytes_lem (b ∷ bs) h = (ground arith, are_bytes_lem bs (ground arith))

deflate-inflate_example :
    (rest : Bytes) × (deflate info_parcel ≡ deflate info_parcel ++ rest)
    × (20 ≡ deflate_len info_parcel)
unfolding deflate inflate str_len get_bytes are_bytes
deflate-inflate_example =
    deflate-inflate (deflate info_parcel) 20 info_parcel (are_bytes_lem (deflate info_parcel) refl)
      (omega arith) (omega arith) refl

frame_lem_example :
    let sent = take (deflate_len info_parcel + 2) (framed info_parcel buffer) in
    (length (framed info_parcel buffer) ≡ 65538)
    × (sent ≡ frame info_parcel)
    × (get_u16 (overwrite (take 2 sent) buffer) ≡ ok (deflate_len info_parcel, drop 2 buffer))
    × (length (drop 2 sent) ≡ deflate_len info_parcel)
    × (inflate (overwrite (drop 2 sent) buffer) ≡ ok (deflate_len info_parcel, clip info_parcel))
frame_lem_example = frame_lem info_parcel buffer buffer info_IsParcel length-buffer length-buffer

update_channel-Stored_example : Stored two_logs info_parcel (update_channel two_logs info_parcel)
unfolding deflate_len str_len new_channel
update_channel-Stored_example =
    update_channel-Stored two_logs info_parcel two_logs-IsValid (λ e. omega (arith, e))
      (omega arith)

abbrev small : DillServerChannel
small = new_channel 0 10 (97 ∷ [])

update_channel_oversize_example :
    update_channel small info_parcel ≡ (record small { buffers = []; used = 0 }, [])
unfolding new_channel deflate_len str_len
update_channel_oversize_example =
    update_channel_oversize small info_parcel (new_channel-IsValid 0 10 (97 ∷ []) (omega arith))
      (λ e. omega (arith, e)) (omega arith)

abbrev register : DillParcel
register = record info_parcel { op = priority_register }

registers_lem_example :
    let before = updates (info_parcel ∷ register ∷ []) two_logs in
    let (after, sent) = update_channel before (record register { str2 = 68 ∷ [] }) in
    SentTo (7 ∷ 9 ∷ []) (record register { str2 = 68 ∷ [] }) sent
    × (after ≡ record before { registers = after.registers })
    × (map_find (65 ∷ []) after.registers ≡ some (68 ∷ []))
unfolding last_value bytes_eq new_channel map_find
registers_lem_example =
    registers_lem two_logs (info_parcel ∷ register ∷ []) (record register { str2 = 68 ∷ [] })
      (65 ∷ []) refl

attach_subscriber_lem_example :
    let (c', sent) = attach_subscriber two_logs 8 in
    OnlyTo 8 sent
    × ((registers : List DillParcel) × (map (λ w. w.1) sent ≡ two_logs.buffers ++ registers)
        × All (IsRegisterOf 0) registers
        × (map carried registers ≡ (65 ∷ [], 66 ∷ []) ∷ []))
    × (c' ≡ record two_logs { subscribers = c'.subscribers })
    × (contains 9 c'.subscribers ≡ (8 == 9 || contains 9 two_logs.subscribers))
unfolding new_channel
attach_subscriber_lem_example = attach_subscriber_lem two_logs 8 9

abbrev pub subscriber : DillSubscriber
subscriber = record (new_subscriber idle_io) { evcb = true }
