-- ===== src/Server/Frames.antt =====
-- What a connection puts on the wire (`asyncWriteParcel` of libdill/src/server_conn.cpp), and how
-- the peer's reads take it apart.
use dill.Base.{
  ◌+◌, ◌≡◌, refl, ◌∙◌, ◌++◌, arith, Bytes, overwrite, ok, length-overwrite, take-overwrite, length,
  take, drop,
}
use dill.Protocol.{DillParcel, IsParcel, deflate, deflate_len, inflate}
use dill.Protocol.Wire.{put_u16, get_u16, u16_parts}
use dill.Protocol.Size.{length-deflate, deflate_len_bounds}
use dill.Protocol.RoundTrip.{clip, inflate-deflate}
use dill.Server.State.{framed}

-- The bytes of a parcel on the wire.
abbrev pub frame : DillParcel → Bytes
frame p = put_u16 (deflate_len p) ++ deflate p

pub length-frame : (p : DillParcel) → length (frame p) ≡ deflate_len p + 2
length-frame p = omega (arith, length-deflate p)

-- Whatever a write buffer of 65538 bytes held, a parcel is written within the buffer, the bytes that
-- are sent are the length of the parcel and the parcel, and the two reads of the peer, the first of
-- two bytes and the second of as many as these say, into a read buffer of 65538 bytes, give the
-- parcel back with its strings cut.
pub frame_lem :
    (p : DillParcel) (wtbuf rdbuf : Bytes)
    → IsParcel p
    → length wtbuf ≡ 65538
    → length rdbuf ≡ 65538
    → let sent = take (deflate_len p + 2) (framed p wtbuf) in
      (length (framed p wtbuf) ≡ 65538)
      × (sent ≡ frame p)
      × (get_u16 (overwrite (take 2 sent) rdbuf) ≡ ok (deflate_len p, drop 2 rdbuf))
      × (length (drop 2 sent) ≡ deflate_len p)
      × (inflate (overwrite (drop 2 sent) rdbuf) ≡ ok (deflate_len p, clip p))
unfolding overwrite
frame_lem p wtbuf rdbuf v hw hr =
    let sent : take (deflate_len p + 2) (framed p wtbuf) ≡ frame p =
      take-overwrite (deflate_len p + 2) (frame p) wtbuf (omega (arith, length-frame p)) in
    rw sent (
      length-overwrite (frame p) wtbuf (omega (arith, length-frame p, deflate_len_bounds p)) ∙ hw,
      refl,
      rw (u16_parts (deflate_len p) (omega (arith, deflate_len_bounds p))),
      length-deflate p,
      inflate-deflate p (drop (length (deflate p)) rdbuf) v,
    )
