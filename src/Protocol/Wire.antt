-- ===== src/Protocol/Wire.antt =====
-- Numbers and byte runs in a buffer, as the pointer casts and `std::string` calls of
-- libdill/src/protocol.h read and write them.
use dill.Base.{
  ℕ, zero, suc, ◌+◌, ◌*◌, ◌/◌, ◌%◌, ◌<◌, ◌≡◌, refl, ◌++◌, ◌∷◌, [], u16, u32, Bytes, Result, ok, err,
  ◌>>=◌, out_of_bounds, length, arith, invert, All, subst,
}

-- `*((unsigned short*)buf) = n` and `*((unsigned int*)buf) = n`.
abbrev pub put_u16 : ℕ → Bytes
put_u16 n = (n % 256) ∷ (n / 256 % 256) ∷ []

abbrev pub put_u32 : ℕ → Bytes
put_u32 n = (n % 256) ∷ (n / 256 % 256) ∷ (n / 65536 % 256) ∷ (n / 16777216 % 256) ∷ []

-- The reads return what they have read and the rest of the buffer.
abbrev pub get_u8 : Bytes → Result (ℕ × Bytes)
get_u8 [] = err out_of_bounds
get_u8 (b ∷ rest) = ok (b, rest)

abbrev pub get_u16 : Bytes → Result (ℕ × Bytes)
get_u16 (a ∷ b ∷ rest) = ok (a + 256 * b, rest)
get_u16 _ = err out_of_bounds

abbrev pub get_u32 : Bytes → Result (ℕ × Bytes)
get_u32 (a ∷ b ∷ c ∷ d ∷ rest) = ok (a + 256 * b + 65536 * c + 16777216 * d, rest)
get_u32 _ = err out_of_bounds

-- `str.append(buf, n)`.
unfoldable pub get_bytes : ℕ → Bytes → Result (Bytes × Bytes)
get_bytes zero buf = ok ([], buf)
get_bytes (suc n) [] = err out_of_bounds
get_bytes (suc n) (b ∷ buf) = do (s, rest) ← get_bytes n buf; ok (b ∷ s, rest)

-- Putting the bytes of a number together gives the number.
pub u16_parts : (n : ℕ) → n < u16 → n % 256 + 256 * (n / 256 % 256) ≡ n
u16_parts n h = omega arith

pub u32_parts :
    (n : ℕ)
    → n < u32
    → n % 256 + 256 * (n / 256 % 256) + 65536 * (n / 65536 % 256) + 16777216 * (n / 16777216 % 256)
      ≡ n
u32_parts n h = omega arith

pub get_bytes-append :
    (n : ℕ) (s rest : Bytes) → n ≡ length s → get_bytes n (s ++ rest) ≡ ok (s, rest)
unfolding get_bytes
get_bytes-append zero [] rest h = refl
get_bytes-append zero (b ∷ s) rest h = absurd (omega arith)
get_bytes-append (suc n) [] rest h = absurd (omega arith)
get_bytes-append (suc n) (b ∷ s) rest h = ground (arith, get_bytes-append n s rest)

-- A read that succeeds stays within the buffer and splits it.
pub get_bytes_lem :
    (n : ℕ) (buf s rest : Bytes)
    → get_bytes n buf ≡ ok (s, rest)
    → (buf ≡ s ++ rest) × (length s ≡ n)
unfolding get_bytes
get_bytes_lem zero buf s rest h = ground arith
get_bytes_lem (suc n) [] s rest h = cc
get_bytes_lem (suc n) (b ∷ buf) s rest h =
    invert (get_bytes n buf) _ h λ (t, more) e k. ground (arith, get_bytes_lem n buf t more e)

abbrev pub IsByte : ℕ → Type 0
IsByte b = b < 256

-- The other way round: what was read, put back, gives the bytes.
pub get_u8_lem :
    (buf : Bytes) (n : ℕ) (rest : Bytes)
    → All IsByte buf
    → get_u8 buf ≡ ok (n, rest)
    → (buf ≡ n ∷ rest) × All IsByte rest
get_u8_lem [] n rest h e = cc
get_u8_lem (b ∷ buf) n rest h e = ground arith

pub get_u16_lem :
    (buf : Bytes) (n : ℕ) (rest : Bytes)
    → All IsByte buf
    → get_u16 buf ≡ ok (n, rest)
    → (buf ≡ put_u16 n ++ rest) × All IsByte rest
get_u16_lem [] n rest h e = cc
get_u16_lem (a ∷ []) n rest h e = cc
get_u16_lem (a ∷ b ∷ buf) n rest h e = ground arith

pub get_u32_lem :
    (buf : Bytes) (n : ℕ) (rest : Bytes)
    → All IsByte buf
    → get_u32 buf ≡ ok (n, rest)
    → (buf ≡ put_u32 n ++ rest) × All IsByte rest
get_u32_lem [] n rest h e = cc
get_u32_lem (a ∷ []) n rest h e = cc
get_u32_lem (a ∷ b ∷ []) n rest h e = cc
get_u32_lem (a ∷ b ∷ c ∷ []) n rest h e = cc
get_u32_lem (a ∷ b ∷ c ∷ d ∷ buf) n rest h e = ground arith

All-suffix : (xs ys : Bytes) → All IsByte (xs ++ ys) → All IsByte ys
All-suffix [] ys h = h
All-suffix (x ∷ xs) ys h = All-suffix xs ys h.1

pub get_bytes-All :
    (n : ℕ) (buf s rest : Bytes)
    → All IsByte buf
    → get_bytes n buf ≡ ok (s, rest)
    → (buf ≡ s ++ rest) × (length s ≡ n) × All IsByte rest
get_bytes-All n buf s rest h e =
    let (split, len) = get_bytes_lem n buf s rest e in
    (split, len, All-suffix s rest (subst (All IsByte) split h))
