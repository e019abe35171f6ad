-- ===== src/Protocol.antt =====
-- libdill/src/protocol.h: the parcels that peers exchange, and their form on the wire. The
-- constants of libdill/inc/dill_afx.h stand here too. `unsigned char`, `unsigned short` and
-- `unsigned int` are 8, 16 and 32 bits wide, and numbers are stored in the byte order of the host,
-- which is taken to be little-endian.
pub mod Ops
pub mod Wire
pub mod Size
pub mod RoundTrip
use dill.Base.{
  ℕ, ◌+◌, ◌%◌, ◌^◌, ◌<◌, ◌++◌, ◌∷◌, [], u16, u32, Bytes, Result, ok, ◌>>=◌, if◌then◌else◌, ltb,
  length, take,
}
use Wire.{put_u16, put_u32, get_u8, get_u16, get_u32, get_bytes}

-- `struct DillParcel`.
pub record DillParcel : Type 0 where
  pub op : ℕ
  pub id : ℕ
  pub timestamp1 : ℕ
  pub timestamp2 : ℕ
  pub str1 : Bytes
  pub str2 : Bytes

-- The longest prefix of a string that a parcel carries.
abbrev pub max_str : ℕ
max_str = 23766

-- `str1len` and `str2len` of `deflate`.
unfoldable pub str_len : Bytes → ℕ
str_len s = if ltb max_str (length s) then max_str else length s % u16

-- What `deflate` returns, also for the null buffer: `totallen`.
unfoldable pub deflate_len : DillParcel → ℕ
deflate_len p = (17 + str_len p.str1 + str_len p.str2) % u16

-- What `deflate` writes from `buf` on.
unfoldable pub deflate : DillParcel → Bytes
deflate p =
    p.op
    ∷ (put_u32 p.id
        ++ (put_u32 p.timestamp1
            ++ (put_u32 p.timestamp2
                ++ (put_u16 (str_len p.str1)
                    ++ (take (str_len p.str1) p.str1
                        ++ (put_u16 (str_len p.str2) ++ take (str_len p.str2) p.str2))))))

-- `inflate` on the bytes from `buf` to the end of the buffer: its result and the parcel read. A
-- read past the end of the buffer is a fault.
unfoldable pub inflate : Bytes → Result (ℕ × DillParcel)
inflate buf = do
  (op, buf) ← get_u8 buf
  (id, buf) ← get_u32 buf
  (timestamp1, buf) ← get_u32 buf
  (timestamp2, buf) ← get_u32 buf
  (len1, buf) ← get_u16 buf
  (str1, buf) ← get_bytes len1 buf
  (len2, buf) ← get_u16 buf
  (str2, buf) ← get_bytes len2 buf
  ok (
    (17 + len1 + len2) % u16,
    record {
      op = op;
      id = id;
      timestamp1 = timestamp1;
      timestamp2 = timestamp2;
      str1 = str1;
      str2 = str2;
    },
  )

-- The fields are in the ranges of their C types.
pub record IsParcel (p : DillParcel) : Type 0 where
  pub op_range : p.op < 2 ^ 8
  pub id_range : p.id < u32
  pub timestamp1_range : p.timestamp1 < u32
  pub timestamp2_range : p.timestamp2 < u32
