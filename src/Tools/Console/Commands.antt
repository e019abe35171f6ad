-- ===== src/Tools/Console/Commands.antt =====
-- The commands of tools/subscriber/subscriber.cpp.
use dill.Base.{
  ℕ, zero, suc, ◌+◌, ◌<◌, ◌≡◌, refl, ap, subst, true, false, Option, none, some, List, [], ◌∷◌,
  arith, Bytes, c_str, bytes_eq, length, get_elem?,
}
use dill.Viewer.App.{Dill}
use dill.Tools.Console.{listed, subscribing, list_channels, subscribe_command, on_command}

list_channels_lem :
    (dill : Dill) (t i n k : ℕ)
    → k < n
    → get_elem? (list_channels dill t i n) k ≡ some (i + k, dill.get_channel_name (t + k) (i + k))
unfolding list_channels
list_channels_lem dill t i zero k h = absurd (omega arith)
list_channels_lem dill t i (suc n) zero h =
    let same_i : i + 0 ≡ i = omega arith in
    let same_t : t + 0 ≡ t = omega arith in rw (same_i, same_t) refl
list_channels_lem dill t i (suc n) (suc k) h =
    let same_i : i + suc k ≡ i + 1 + k = omega arith in
    let same_t : t + suc k ≡ t + 1 + k = omega arith in
    rw (same_i, same_t) (list_channels_lem dill (t + 1) (i + 1) n k (omega arith))

length-list_channels : (dill : Dill) (t i n : ℕ) → length (list_channels dill t i n) ≡ n
unfolding list_channels
length-list_channels dill t i zero = refl
length-list_channels dill t i (suc n) = ap suc (length-list_channels dill (t + 1) (i + 1) n)

-- The command `ch` lists as many channels as the server says it has, and each by its number and by
-- the name that the server answers for it, in one call for the number and one for each name.
ch_lem :
    (sscanf : Bytes → Option ℕ) (dill : Dill) (junk t : ℕ)
    → (found : List (ℕ × Bytes)) × (on_command sscanf dill junk t (b'c' ∷ b'h' ∷ [])
        ≡ some (listed found))
      × (length found ≡ dill.available_channels t)
      × ((k : ℕ)
          → k < dill.available_channels t
          → get_elem? found k ≡ some (k, dill.get_channel_name (t + 1 + k) k))
unfolding on_command bytes_eq
ch_lem sscanf dill junk t =
    let n = dill.available_channels t in
    (
      list_channels dill (t + 1) 0 n,
      refl,
      length-list_channels dill (t + 1) 0 n,
      λ k h.
          let none_added : 0 + k ≡ k = omega arith in
          subst
            (λ i.
              get_elem? (list_channels dill (t + 1) 0 n) k
              ≡ some (i, dill.get_channel_name (t + 1 + k) i))
            none_added (list_channels_lem dill (t + 1) 0 n k h),
    )

-- Where the text behind `s ` or `u ` is not empty and no number can be read from it, the call is made
-- for the channel that the uninitialised variable happens to hold.
junk_lem :
    (sscanf : Bytes → Option ℕ) (dill : Dill) (junk t c : ℕ) (chstr : Bytes)
    → sscanf (c_str (c ∷ chstr)) ≡ none
    → (on_command sscanf dill junk t (b's' ∷ b' ' ∷ c ∷ chstr) ≡ some (subscribing junk true))
      × (on_command sscanf dill junk t (b'u' ∷ b' ' ∷ c ∷ chstr) ≡ some (subscribing junk false))
unfolding on_command subscribe_command bytes_eq
junk_lem sscanf dill junk t c chstr h = (rw h refl, rw h refl)
