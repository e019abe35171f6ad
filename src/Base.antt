-- ===== src/Base.antt =====
-- The names that the other modules share: the libraries', passed on, and those of its children;
-- C strings, buffers and the faults of the C++ code.
mod Tests
mod Lists
mod Sets
pub use Tests.*
pub use Lists.*
pub use Sets.*
unfoldable pub use Tests.{bytes_eq}
unfoldable pub use Sets.{set_insert, set_erase, contains, map_put, map_find}
pub use Prim.Native.Nat.{ℕ, zero, suc, ◌+◌, ◌-◌, ◌*◌, ◌/◌, ◌%◌, ◌^◌, ◌≤◌, ◌<◌, min}
pub use mathlib.Core.Path.{◌≡◌, refl, sym, ap, ◌∙◌, subst}
pub use mathlib.Core.Logic.{◌≢◌, ◌↔◌, ◌⊎◌, inl, inr}
pub use mathlib.Core.Bool.{Bool, true, false, not, ◌&&◌, ◌||◌}
pub use mathlib.Core.Option.{Option, none, some}
pub use mathlib.Core.List.{List, [], ◌∷◌, ◌++◌, map, append-nil, append_assoc}
pub use native.Mathlib.Omega.{arith}
unfoldable pub use native.Mathlib.Decide.{dec_le, dec_lt, ℕ_discrete}

-- A string of bytes: the contents of a `std::string` or of a buffer.
abbrev pub Bytes : Type 0
Bytes = List ℕ

-- The moduli of `unsigned short` and `unsigned int`.
abbrev pub u16 : ℕ
u16 = 2 ^ 16

abbrev pub u32 : ℕ
u32 = 2 ^ 32

-- What a `const char*` made by `c_str()` reads as: the bytes before the first zero.
unfoldable pub c_str : Bytes → Bytes
c_str [] = []
c_str (b ∷ bs) = if b == 0 then [] else b ∷ c_str bs

-- `bs` written at the start of the buffer `buf`.
unfoldable pub overwrite : Bytes → Bytes → Bytes
overwrite bs buf = bs ++ drop (length bs) buf

-- Undefined behaviour of the C++ code that a handler can run into.
pub data Fault : Type 0 where
  use_after_free null_string out_of_bounds : Fault
  null_pointer unset_pointer pure_virtual_call : Fault

-- What code with such a fault returns.
pub data Result {ℓ} (A : Type ℓ) : Type ℓ where
  err : Fault → Result A
  ok : A → Result A

module _ {ℓ κ} {A : Type ℓ} {B : Type κ} where
  infixl 5 ◌>>=◌
  abbrev pub ◌>>=◌ : (r : Result A) (next : A → Result B) → Result B
  err fault >>= next = err fault
  ok value >>= next = next value

  -- A chain that succeeds has passed through its first step, and what follows gets the parts.
  pub invert {μ} :
      {C : Type μ} (r : Result A) (next : A → Result B) {last : B}
      → (r >>= next) ≡ ok last
      → ((value : A) → r ≡ ok value → next value ≡ ok last → C)
      → C
  invert (ok value) next h k = k value refl h
  invert (err fault) next h k = cc

abbrev pub or_fault {ℓ} : {A : Type ℓ} → Option A → Fault → Result A
or_fault none e = err e
or_fault (some a) e = ok a

pub length-overwrite :
    (bs buf : Bytes) → length bs ≤ length buf → length (overwrite bs buf) ≡ length buf
unfolding overwrite
length-overwrite bs buf h =
    omega (arith, length-append bs (drop (length bs) buf), length-drop (length bs) buf)

pub take-overwrite : (n : ℕ) (bs buf : Bytes) → n ≡ length bs → take n (overwrite bs buf) ≡ bs
unfolding overwrite
take-overwrite n bs buf h = take-append_exact n bs (drop (length bs) buf) h

pub c_str_idem : (bs : Bytes) → c_str (c_str bs) ≡ c_str bs
unfolding c_str
c_str_idem [] = refl
c_str_idem (b ∷ bs) = ground (arith, c_str_idem bs)
