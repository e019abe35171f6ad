-- ===== src/Base/Sets.antt =====
-- The containers of the C++ library that the code keeps its state in: `std::set` of pointers, in
-- the order of the addresses, and maps from strings to strings.
use mathlib.Core.Bool.{Bool, false, ◌||◌}
use mathlib.Core.List.{List, [], ◌∷◌}
use mathlib.Core.Option.{Option, none, some}
use mathlib.Core.Path.{◌≡◌, refl}
use mathlib.Core.Logic.{◌≢◌}
use Prim.Native.Nat.{ℕ, ◌<◌}
use native.Mathlib.Omega.{arith}
use dill.Base.Tests.{ltb, ◌==◌, if◌then◌else◌, bytes_eq, bytes_eq_refl, bytes_eq→eq}
use dill.Base.Lists.{All}
use Prim.Native.Nat.{suc}

-- `set.insert(a)`.
unfoldable pub set_insert : ℕ → List ℕ → List ℕ
set_insert a [] = a ∷ []
set_insert a (b ∷ bs) =
    if ltb a b then a ∷ b ∷ bs else (if a == b then b ∷ bs else b ∷ set_insert a bs)

-- `set.erase(a)`.
unfoldable pub set_erase : ℕ → List ℕ → List ℕ
set_erase a [] = []
set_erase a (b ∷ bs) = if a == b then bs else b ∷ set_erase a bs

unfoldable pub contains : ℕ → List ℕ → Bool
contains a [] = false
contains a (b ∷ bs) = a == b || contains a bs

-- The order of the addresses, which keeps the elements distinct.
abbrev pub Above : ℕ → List ℕ → Type 0
Above a [] = Unit {0}
Above a (b ∷ bs) = (a < b) × Above b bs

abbrev pub IsOrdered : List ℕ → Type 0
IsOrdered [] = Unit {0}
IsOrdered (b ∷ bs) = Above b bs

pub All-set_insert {κ} :
    (P : ℕ → Type κ) (a : ℕ) (bs : List ℕ) → P a → All P bs → All P (set_insert a bs)
unfolding set_insert
All-set_insert P a [] p h = (p, tt)
All-set_insert P a (b ∷ bs) p h = ground (arith, All-set_insert P a bs p h.1)

pub All-set_erase {κ} : (P : ℕ → Type κ) (a : ℕ) (bs : List ℕ) → All P bs → All P (set_erase a bs)
unfolding set_erase
All-set_erase P a [] h = tt
All-set_erase P a (b ∷ bs) h = ground (arith, All-set_erase P a bs h.1)

Above-set_insert : (a c : ℕ) (bs : List ℕ) → c < a → Above c bs → Above c (set_insert a bs)
unfolding set_insert
Above-set_insert a c [] l h = (l, tt)
Above-set_insert a c (b ∷ bs) l h = ground (arith, Above-set_insert a b bs)

pub set_insert-IsOrdered : (a : ℕ) (bs : List ℕ) → IsOrdered bs → IsOrdered (set_insert a bs)
unfolding set_insert
set_insert-IsOrdered a [] h = tt
set_insert-IsOrdered a (b ∷ bs) h = ground (arith, Above-set_insert a b bs)

Above-down : (a b : ℕ) (bs : List ℕ) → a < b → Above b bs → Above a bs
Above-down a b [] l h = tt
Above-down a b (c ∷ bs) l h = ground arith

Above-set_erase : (a c : ℕ) (bs : List ℕ) → Above c bs → Above c (set_erase a bs)
unfolding set_erase
Above-set_erase a c [] h = tt
Above-set_erase a c (b ∷ bs) h = ground (arith, Above-set_erase a b bs h.1, Above-down c b bs)

Above-IsOrdered : (a : ℕ) (bs : List ℕ) → Above a bs → IsOrdered bs
Above-IsOrdered a [] h = tt
Above-IsOrdered a (b ∷ bs) h = h.1

pub set_erase-IsOrdered : (a : ℕ) (bs : List ℕ) → IsOrdered bs → IsOrdered (set_erase a bs)
unfolding set_erase
set_erase-IsOrdered a [] h = tt
set_erase-IsOrdered a (b ∷ bs) h =
    ground
      (arith, Above-set_erase a b bs h, Above-IsOrdered b bs h, Above-IsOrdered b (set_erase a bs))

pub contains-set_insert :
    (a b : ℕ) (bs : List ℕ) → contains b (set_insert a bs) ≡ (a == b || contains b bs)
unfolding contains set_insert
contains-set_insert a b [] = ground arith
contains-set_insert a b (c ∷ bs) = ground (arith, contains-set_insert a b bs)

contains-Above : (a c : ℕ) (bs : List ℕ) → Above c bs → a < suc c → contains a bs ≡ false
unfolding contains
contains-Above a c [] h l = refl
contains-Above a c (b ∷ bs) h l = ground (arith, contains-Above a b bs h.1)

pub contains-set_erase :
    (a b : ℕ) (bs : List ℕ)
    → IsOrdered bs
    → contains b (set_erase a bs) ≡ (if a == b then false else contains b bs)
unfolding contains set_erase
contains-set_erase a b [] h = ground arith
contains-set_erase a b (c ∷ bs) h = ground (
  arith,
  contains-set_erase a b bs (Above-IsOrdered c bs h),
  contains-Above a c bs h,
  contains-Above b c bs h,
)

Above-ne : (a c : ℕ) (bs : List ℕ) → a < suc c → Above c bs → All (λ b. b ≢ a) bs
Above-ne a c [] l h = tt
Above-ne a c (b ∷ bs) l h = (omega arith, Above-ne a b bs (omega arith) h.1)

pub set_erase-ne : (a : ℕ) (bs : List ℕ) → IsOrdered bs → All (λ b. b ≢ a) (set_erase a bs)
unfolding set_erase
set_erase-ne a [] h = tt
set_erase-ne a (b ∷ bs) h =
    ground (arith, set_erase-ne a bs (Above-IsOrdered b bs h), Above-ne a b bs)

abbrev pub StringMap : Type 0
StringMap = List (List ℕ × List ℕ)

-- `map[k] = v`.
unfoldable pub map_put : List ℕ → List ℕ → StringMap → StringMap
map_put k v [] = (k, v) ∷ []
map_put k v ((j, w) ∷ m) = if bytes_eq j k then (j, v) ∷ m else (j, w) ∷ map_put k v m

unfoldable pub map_find : List ℕ → StringMap → Option (List ℕ)
map_find k [] = none
map_find k ((j, v) ∷ m) = if bytes_eq j k then some v else map_find k m

pub map_find-map_put :
    (k j v : List ℕ) (m : StringMap)
    → map_find j (map_put k v m) ≡ (if bytes_eq k j then some v else map_find j m)
unfolding map_put map_find
map_find-map_put k j v [] = refl
map_find-map_put k j v ((i, w) ∷ m) = ground (
  arith,
  map_find-map_put k j v m,
  bytes_eq→eq i k,
  bytes_eq→eq i j,
  bytes_eq→eq k j,
  bytes_eq_refl i,
)
