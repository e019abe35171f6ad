-- ===== src/Server/Safety/Reads.antt =====
-- Reading a parcel out of a buffer (`inflate` of libdill/src/protocol.h) accesses no connection.
use dill.Base.{ℕ, zero, suc, [], ◌∷◌, Bytes, Result, ◌>>=◌}
use dill.Protocol.{inflate}
use dill.Protocol.Wire.{get_u8, get_u16, get_u32, get_bytes}
use dill.Server.Safety.Invariant.{Safe, Safe-bind}

-- The result is no access to a deleted connection.
abbrev pub Quiet : {A : Type 0} → Result A → Type 0
Quiet = Safe (λ _. Unit {0})

pub Quiet-bind :
    {A B : Type 0} (m : Result A) (f : A → Result B)
    → Quiet m
    → ((a : A) → Quiet (f a))
    → Quiet (m >>= f)
Quiet-bind m f h k = Safe-bind (λ _. Unit {0}) (λ _. Unit {0}) m f h (λ a _. k a)

get_u8-Quiet : (buf : Bytes) → Quiet (get_u8 buf)
get_u8-Quiet [] = tt
get_u8-Quiet (b ∷ buf) = tt

pub get_u16-Quiet : (buf : Bytes) → Quiet (get_u16 buf)
get_u16-Quiet [] = tt
get_u16-Quiet (a ∷ []) = tt
get_u16-Quiet (a ∷ b ∷ buf) = tt

get_u32-Quiet : (buf : Bytes) → Quiet (get_u32 buf)
get_u32-Quiet [] = tt
get_u32-Quiet (a ∷ []) = tt
get_u32-Quiet (a ∷ b ∷ []) = tt
get_u32-Quiet (a ∷ b ∷ c ∷ []) = tt
get_u32-Quiet (a ∷ b ∷ c ∷ d ∷ buf) = tt

get_bytes-Quiet : (n : ℕ) (buf : Bytes) → Quiet (get_bytes n buf)
unfolding get_bytes
get_bytes-Quiet zero buf = tt
get_bytes-Quiet (suc n) [] = tt
get_bytes-Quiet (suc n) (b ∷ buf) = Quiet-bind (get_bytes n buf) _ (get_bytes-Quiet n buf) (λ _. tt)

pub inflate-Quiet : (buf : Bytes) → Quiet (inflate buf)
unfolding inflate
inflate-Quiet buf = Quiet-bind (get_u8 buf) _ (get_u8-Quiet buf) λ (_, b1).
    Quiet-bind (get_u32 b1) _ (get_u32-Quiet b1) λ (_, b2).
      Quiet-bind (get_u32 b2) _ (get_u32-Quiet b2) λ (_, b3).
        Quiet-bind (get_u32 b3) _ (get_u32-Quiet b3) λ (_, b4).
          Quiet-bind (get_u16 b4) _ (get_u16-Quiet b4) λ (n1, b5).
            Quiet-bind (get_bytes n1 b5) _ (get_bytes-Quiet n1 b5) λ (_, b6).
              Quiet-bind (get_u16 b6) _ (get_u16-Quiet b6)
                λ (n2, b7). Quiet-bind (get_bytes n2 b7) _ (get_bytes-Quiet n2 b7) λ _. tt
