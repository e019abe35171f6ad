-- ===== src/Channel/Subscribers.antt =====
-- `attachSubscriber` and `detachSubscriber` of libdill/src/server_channel.cpp.
use dill.Base.{
  ℕ, ◌≡◌, refl, ap, false, ◌||◌, List, [], ◌∷◌, ◌++◌, map, ◌==◌, if◌then◌else◌, All, All-append,
  contains, IsOrdered, contains-set_insert, contains-set_erase, StringMap, Bytes,
}
use mathlib.Core.List.{map-append}
use dill.Protocol.{DillParcel}
use dill.Channel.{DillServerChannel, Write, attach_subscriber, detach_subscriber, register_parcel}
use dill.Protocol.Ops.{priority_register}

-- Every write of a list goes to the connection `conn`.
abbrev pub OnlyTo : ℕ → List Write → Type 0
OnlyTo conn = All (λ w. w.0 ≡ conn)

OnlyTo-map {ℓ} :
    {A : Type ℓ} (conn : ℕ) (f : A → DillParcel) (xs : List A)
    → OnlyTo conn (map (λ x. (conn, f x)) xs)
OnlyTo-map conn f [] = tt
OnlyTo-map conn f (x ∷ xs) = (refl, OnlyTo-map conn f xs)

map-parcels {ℓ} :
    {A : Type ℓ} (conn : ℕ) (f : A → DillParcel) (xs : List A)
    → map {A = Write} (λ w. w.1) (map (λ x. (conn, f x)) xs) ≡ map f xs
map-parcels conn f [] = refl
map-parcels conn f (x ∷ xs) = ap (◌∷◌ (f x)) (map-parcels conn f xs)

map-id {ℓ} : {A : Type ℓ} (xs : List A) → map (λ x. x) xs ≡ xs
map-id [] = refl
map-id (x ∷ xs) = ap (◌∷◌ x) (map-id xs)

-- A register update of a channel, without a time.
abbrev pub IsRegisterOf : ℕ → DillParcel → Type 0
IsRegisterOf id p =
    (p.op ≡ priority_register) × (p.id ≡ id) × (p.timestamp1 ≡ 0) × (p.timestamp2 ≡ 0)

-- The key and the value that a register update carries.
abbrev pub carried : DillParcel → Bytes × Bytes
carried p = (p.str1, p.str2)

register_parcels :
    (id : ℕ) (rs : StringMap)
    → All (IsRegisterOf id) (map (register_parcel id) rs)
      × (map carried (map (register_parcel id) rs) ≡ rs)
register_parcels id [] = (tt, refl)
register_parcels id ((key, value) ∷ rs) =
    let (registers, same) = register_parcels id rs in
    (((refl, refl, refl, refl), registers), ap ((key, value) ∷◌) same)

-- A connection that attaches is sent, and nobody else is, every log that the channel holds, oldest
-- first, and then register updates of the channel, without a time, that carry just the keys and values
-- of its registers; it becomes a subscriber, as those before it stay, and nothing else of the channel
-- changes.
pub attach_subscriber_lem :
    (c : DillServerChannel) (conn other : ℕ)
    → let (c', sent) = attach_subscriber c conn in
      OnlyTo conn sent
      × ((registers : List DillParcel) × (map (λ w. w.1) sent ≡ c.buffers ++ registers)
          × All (IsRegisterOf c.id) registers
          × (map carried registers ≡ c.registers))
      × (c' ≡ record c { subscribers = c'.subscribers })
      × (contains other c'.subscribers ≡ (conn == other || contains other c.subscribers))
unfolding attach_subscriber
attach_subscriber_lem c conn other = (
  All-append _ (map (λ p. (conn, p)) c.buffers) _ (OnlyTo-map conn (λ p. p) c.buffers)
      (OnlyTo-map conn (register_parcel c.id) c.registers),
  (
    map (register_parcel c.id) c.registers,
    rw (
      map-append,
      map-parcels conn (λ p. p) c.buffers,
      map-parcels conn (register_parcel c.id) c.registers,
      map-id c.buffers,
    ),
    (register_parcels c.id c.registers).0,
    (register_parcels c.id c.registers).1,
  ),
  refl,
  contains-set_insert conn other c.subscribers,
)

-- Detaching removes the connection from the subscribers, and changes nothing else.
detach_subscriber_lem :
    (c : DillServerChannel) (conn other : ℕ)
    → IsOrdered c.subscribers
    → let c' = detach_subscriber c conn in
      (c' ≡ record c { subscribers = c'.subscribers })
      × (contains other c'.subscribers
          ≡ (if conn == other then false else contains other c.subscribers))
unfolding detach_subscriber
detach_subscriber_lem c conn other h = (refl, contains-set_erase conn other c.subscribers h)
