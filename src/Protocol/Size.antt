-- ===== src/Protocol/Size.antt =====
-- How many bytes `deflate` writes (libdill/src/protocol.h): its result counts them, and they fit in
-- the 65538 bytes of a connection's buffer behind the two bytes of the length.
use dill.Base.{◌+◌, ◌≤◌, ◌≡◌, Bytes, arith, length, take, min, length-take, length-append}
use dill.Protocol.{DillParcel, max_str, str_len, deflate_len, deflate}

pub str_len-min : (s : Bytes) → str_len s ≡ min max_str (length s)
unfolding str_len
str_len-min s = ground arith

pub length-take-str_len : (s : Bytes) → length (take (str_len s) s) ≡ str_len s
length-take-str_len s = omega (arith, length-take (str_len s) s, str_len-min s)

-- `totallen` does not wrap.
pub deflate_len_lem : (p : DillParcel) → deflate_len p ≡ 17 + str_len p.str1 + str_len p.str2
unfolding deflate_len
deflate_len_lem p = omega (arith, str_len-min p.str1, str_len-min p.str2)

pub length-deflate : (p : DillParcel) → length (deflate p) ≡ deflate_len p
unfolding deflate
length-deflate p =
    simp length-append
      (omega (arith, length-take-str_len p.str1, length-take-str_len p.str2, deflate_len_lem p))

pub deflate_len_bounds : (p : DillParcel) → (17 ≤ deflate_len p) × (deflate_len p ≤ 47549)
deflate_len_bounds p = omega (arith, deflate_len_lem p, str_len-min p.str1, str_len-min p.str2)
