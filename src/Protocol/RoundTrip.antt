-- ===== src/Protocol/RoundTrip.antt =====
-- `inflate` and `deflate` of libdill/src/protocol.h undo each other.
use dill.Base.{
  ℕ, ◌+◌, ◌%◌, ◌≤◌, ◌≡◌, ◌∷◌, ◌++◌, append_assoc, Bytes, u16, ok, arith, length, take, All, sym,
  take-min-length, take_all, invert,
}
use dill.Protocol.{DillParcel, IsParcel, max_str, str_len, deflate_len, deflate, inflate}
use dill.Protocol.Wire.{
  get_bytes, get_bytes-append, get_u8, get_u16, get_u32, put_u16, put_u32, u16_parts, u32_parts,
  IsByte, get_u8_lem, get_u32_lem, get_u16_lem, get_bytes-All,
}
use dill.Protocol.Size.{str_len-min, length-take-str_len}

-- What is left of a parcel on the wire: its strings are cut to 23766 bytes.
abbrev pub clip : DillParcel → DillParcel
clip p = record p { str1 = take max_str p.str1; str2 = take max_str p.str2 }

take-str_len : (s : Bytes) → take (str_len s) s ≡ take max_str s
take-str_len s = rw (str_len-min s) (take-min-length max_str s)

-- Every parcel whose numbers fit their C types is read back from what `deflate` wrote of it, with
-- its strings cut to 23766 bytes, whatever follows in the buffer; `inflate` and `deflate` return the
-- same length.
pub inflate-deflate :
    (p : DillParcel) (rest : Bytes)
    → IsParcel p
    → inflate (deflate p ++ rest) ≡ ok (deflate_len p, clip p)
unfolding inflate deflate deflate_len
inflate-deflate p rest v = rw (
  append_assoc,
  u16_parts (str_len p.str1) (omega (arith, str_len-min p.str1)),
  get_bytes-append (str_len p.str1) (take (str_len p.str1) p.str1) _
      (sym (length-take-str_len p.str1)),
  u16_parts (str_len p.str2) (omega (arith, str_len-min p.str2)),
  get_bytes-append (str_len p.str2) (take (str_len p.str2) p.str2) _
      (sym (length-take-str_len p.str2)),
  u32_parts p.id v.id_range,
  u32_parts p.timestamp1 v.timestamp1_range,
  u32_parts p.timestamp2 v.timestamp2_range,
  ← take-str_len p.str1,
  ← take-str_len p.str2,
)

-- The layout of a parcel with its whole strings.
abbrev wire_form : DillParcel → Bytes
wire_form p =
    p.op
    ∷ (put_u32 p.id
        ++ (put_u32 p.timestamp1
            ++ (put_u32 p.timestamp2
                ++ (put_u16 (length p.str1) ++ (p.str1 ++ (put_u16 (length p.str2) ++ p.str2))))))

deflate-wire_form :
    (p : DillParcel) → length p.str1 ≤ max_str → length p.str2 ≤ max_str → deflate p ≡ wire_form p
unfolding deflate
deflate-wire_form p h k =
    let e1 : str_len p.str1 ≡ length p.str1 = omega (arith, str_len-min p.str1) in
    let e2 : str_len p.str2 ≡ length p.str2 = omega (arith, str_len-min p.str2) in
    rw (
      e1,
      e2,
      take_all (length p.str1) p.str1 (omega arith),
      take_all (length p.str2) p.str2 (omega arith),
    )

-- What `inflate` accepts starts with the layout of the parcel that it returns, and lies within the
-- buffer.
inflate-wire_form :
    (buf : Bytes) (n : ℕ) (p : DillParcel)
    → All IsByte buf
    → inflate buf ≡ ok (n, p)
    → (rest : Bytes) × (buf ≡ wire_form p ++ rest)
      × (n ≡ (17 + length p.str1 + length p.str2) % u16)
unfolding inflate
inflate-wire_form buf n p bytes h = invert (get_u8 buf) _ h λ (op, b1) e1 h1.
    invert (get_u32 b1) _ h1 λ (id, b2) e2 h2. invert (get_u32 b2) _ h2 λ (t1, b3) e3 h3.
      invert (get_u32 b3) _ h3 λ (t2, b4) e4 h4. invert (get_u16 b4) _ h4 λ (n1, b5) e5 h5.
        invert (get_bytes n1 b5) _ h5 λ (s1, b6) e6 h6. invert (get_u16 b6) _ h6 λ (n2, b7) e7 h7.
          invert (get_bytes n2 b7) _ h7 λ (s2, b8) e8 h8.
            let (q1, a1) = get_u8_lem buf op b1 bytes e1 in
            let (q2, a2) = get_u32_lem b1 id b2 a1 e2 in
            let (q3, a3) = get_u32_lem b2 t1 b3 a2 e3 in
            let (q4, a4) = get_u32_lem b3 t2 b4 a3 e4 in
            let (q5, a5) = get_u16_lem b4 n1 b5 a4 e5 in
            let (q6, l1, a6) = get_bytes-All n1 b5 s1 b6 a5 e6 in
            let (q7, a7) = get_u16_lem b6 n2 b7 a6 e7 in
            let (q8, l2, _) = get_bytes-All n2 b7 s2 b8 a7 e8 in
            (b8, cc (append_assoc p.str1 (put_u16 (length p.str2) ++ p.str2) b8), cc)

-- Whatever `inflate` accepts from a buffer of bytes, if the two strings are no longer than `deflate`
-- allows, is what `deflate` writes of the parcel returned, followed by the rest of the buffer; and
-- `inflate` returns the length that `deflate` returns.
pub deflate-inflate :
    (buf : Bytes) (n : ℕ) (p : DillParcel)
    → All IsByte buf
    → length p.str1 ≤ max_str
    → length p.str2 ≤ max_str
    → inflate buf ≡ ok (n, p)
    → (rest : Bytes) × (buf ≡ deflate p ++ rest) × (n ≡ deflate_len p)
unfolding deflate_len
deflate-inflate buf n p bytes short1 short2 h =
    let (rest, e, len) = inflate-wire_form buf n p bytes h in
    (
      rest,
      rw (deflate-wire_form p short1 short2) e,
      omega (arith, len, str_len-min p.str1, str_len-min p.str2),
    )
