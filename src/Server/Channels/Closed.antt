-- ===== src/Server/Channels/Closed.antt =====
-- The changes that the handlers of libdill/src/server_conn.cpp and server_netio.cpp can make to the
-- list of channels, and what holds of a step that may fail.

use dill.Base.{
  ℕ, ◌%◌, ◌<◌, ◌≡◌, refl, Bool, true, false, none, some, List, [], ◌∷◌, ◌++◌, map, Bytes, u32,
  c_str, Result, ok, err, ◌>>=◌, if◌then◌else◌, length, get_elem?, set,
}
use dill.Protocol.{DillParcel}
use dill.Channel.{
  DillServerChannel, new_channel, update_channel, attach_subscriber, detach_subscriber,
}
use dill.Server.Registry.{find_name}

-- The changes: a channel takes a parcel, a subscriber comes or goes, a channel is created under a
-- name that is not taken.
pub record Closed (bufsize maxchannels : ℕ) (P : List DillServerChannel → Type 0) : Type 0 where
  pub updates :
      (chs : List DillServerChannel) (i : ℕ) (c : DillServerChannel) (p : DillParcel)
      → get_elem? chs i ≡ some c
      → P chs
      → P (set chs i (update_channel c p).0)
  pub attaches :
      (chs : List DillServerChannel) (i : ℕ) (c : DillServerChannel) (conn : ℕ)
      → get_elem? chs i ≡ some c
      → P chs
      → P (set chs i (attach_subscriber c conn).0)
  pub detaches :
      (chs : List DillServerChannel) (i : ℕ) (c : DillServerChannel) (conn : ℕ)
      → get_elem? chs i ≡ some c
      → P chs
      → P (set chs i (detach_subscriber c conn))
  pub detaches_all :
      (chs : List DillServerChannel) (conn : ℕ)
      → P chs
      → P (map (λ c. detach_subscriber c conn) chs)
  pub creates :
      (chs : List DillServerChannel) (name : Bytes)
      → find_name (c_str name) chs ≡ none
      → length chs < maxchannels
      → P chs
      → P (chs ++ (new_channel (length chs % u32) bufsize (c_str name) ∷ []))

abbrev pub Holds : {A : Type 0} → (A → Type 0) → Result A → Type 0
Holds P (ok a) = P a
Holds P (err e) = Unit {0}

pub Holds-bind :
    {A B : Type 0} (P : A → Type 0) (Q : B → Type 0) (m : Result A) (f : A → Result B)
    → Holds P m
    → ((a : A) → P a → Holds Q (f a))
    → Holds Q (m >>= f)
Holds-bind P Q (ok a) f h k = k a h
Holds-bind P Q (err e) f h k = tt

-- A step whose result does not matter.
pub Holds-then :
    {A B : Type 0} (Q : B → Type 0) (m : Result A) (f : A → Result B)
    → ((a : A) → Holds Q (f a))
    → Holds Q (m >>= f)
Holds-then Q (ok a) f k = k a
Holds-then Q (err e) f k = tt

pub Holds-if :
    {A : Type 0} (P : A → Type 0) (b : Bool) (x y : Result A)
    → Holds P x
    → Holds P y
    → Holds P (if b then x else y)
Holds-if P true x y h k = h
Holds-if P false x y h k = k

pub Holds-test :
    {A : Type 0} (P : A → Type 0) (b : Bool) (x y : Result A)
    → (b ≡ true → Holds P x)
    → Holds P y
    → Holds P (if b then x else y)
Holds-test P true x y h k = h refl
Holds-test P false x y h k = k
