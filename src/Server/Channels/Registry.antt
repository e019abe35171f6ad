-- ===== src/Server/Channels/Registry.antt =====
-- The identifiers and names of the channels of a running server (libdill/src/server_netio.cpp).
use mathlib.Core.Path.{ap₂}
use mathlib.Core.List.{map-append}
use dill.Base.{
  ℕ, zero, suc, ◌+◌, ◌≤◌, ◌<◌, ◌≡◌, refl, sym, ap, subst, Bool, false, none, some, List, [], ◌∷◌,
  ◌++◌, map, arith, Bytes, u32, c_str, bytes_eq, bytes_eq_refl, length, get_elem?, set,
  length-append, All, All-append, c_str_idem,
}
use dill.Channel.{
  DillServerChannel, update_channel, attach_subscriber, detach_subscriber, archive_log, new_channel,
}
use dill.Server.State.{Pending, DillServer}
use dill.Server.Loop.{Outcome, Reach, enter_loop, new_server}
use dill.Server.Channels.Closed.{Closed}
use dill.Server.Channels.Loop.{Reach-channels}
use dill.Server.Registry.{find_name, get_channel_data, find_channel_by_name}
use dill.Protocol.{DillParcel}

-- What identifies a channel.
abbrev Key : Type 0
Key = ℕ × Bytes

abbrev key : DillServerChannel → Key
key c = (c.id, c.name)

abbrev keys : List DillServerChannel → List Key
keys = map key

abbrev Numbered : ℕ → List Key → Type 0
Numbered n [] = Unit {0}
Numbered n (k ∷ ks) = (k.0 ≡ n) × Numbered (suc n) ks

abbrev Distinct : List Key → Type 0
Distinct [] = Unit {0}
Distinct (k ∷ ks) = All (λ j. bytes_eq k.1 j.1 ≡ false) ks × Distinct ks

-- The identifiers count from 0, no two names are equal, no name has a zero byte, and there are at
-- most `maxchannels`.
record IsRegistry (maxchannels : ℕ) (ks : List Key) : Type 0 where
  numbered : Numbered 0 ks
  distinct : Distinct ks
  limited : length ks ≤ maxchannels
  plain : All (λ k. c_str k.1 ≡ k.1) ks

keys-set :
    (chs : List DillServerChannel) (i : ℕ) (c c' : DillServerChannel)
    → get_elem? chs i ≡ some c
    → key c' ≡ key c
    → keys (set chs i c') ≡ keys chs
keys-set [] i c c' h e = refl
keys-set (d ∷ chs) zero c c' h e = ground arith
keys-set (d ∷ chs) (suc i) c c' h e = ap (◌∷◌ (key d)) (keys-set chs i c c' h e)

keys-map :
    (f : DillServerChannel → DillServerChannel) (chs : List DillServerChannel)
    → ((c : DillServerChannel) → key (f c) ≡ key c)
    → keys (map f chs) ≡ keys chs
keys-map f [] h = refl
keys-map f (c ∷ chs) h = ap₂ ◌∷◌ (h c) (keys-map f chs h)

Numbered-append :
    (n : ℕ) (ks : List Key) (k : Key)
    → Numbered n ks
    → k.0 ≡ n + length ks
    → Numbered n (ks ++ (k ∷ []))
Numbered-append n [] k h e = (omega arith, tt)
Numbered-append n (j ∷ ks) k h e = (h.0, Numbered-append (suc n) ks k h.1 (omega arith))

Distinct-append :
    (ks : List Key) (k : Key)
    → Distinct ks
    → All (λ j. bytes_eq j.1 k.1 ≡ false) ks
    → Distinct (ks ++ (k ∷ []))
Distinct-append [] k h n = (tt, tt)
Distinct-append (j ∷ ks) k h n = (
  All-append (λ i. bytes_eq j.1 i.1 ≡ false) ks (k ∷ []) h.0 (n.0, tt),
  Distinct-append ks k h.1 n.1,
)

find_name-none :
    (name : Bytes) (chs : List DillServerChannel)
    → find_name name chs ≡ none
    → All (λ j. bytes_eq j.1 name ≡ false) (keys chs)
unfolding find_name
find_name-none name [] h = tt
find_name-none name (c ∷ chs) h = ground (arith, find_name-none name chs)

length-keys : (chs : List DillServerChannel) → length (keys chs) ≡ length chs
length-keys [] = refl
length-keys (c ∷ chs) = ap suc (length-keys chs)

key-update_channel : (c : DillServerChannel) (p : DillParcel) → key (update_channel c p).0 ≡ key c
unfolding update_channel archive_log
key-update_channel c p = ground arith

IsRegistry-Closed :
    (bufsize maxchannels : ℕ)
    → maxchannels < u32
    → Closed bufsize maxchannels (λ chs. IsRegistry maxchannels (keys chs))
unfolding attach_subscriber detach_subscriber new_channel
IsRegistry-Closed bufsize maxchannels small = record {
  updates = λ chs i c p e h.
      subst (IsRegistry maxchannels) (sym (keys-set chs i c _ e (key-update_channel c p))) h;
  attaches = λ chs i c conn e h.
      subst (IsRegistry maxchannels) (sym (keys-set chs i c (attach_subscriber c conn).0 e refl)) h;
  detaches = λ chs i c conn e h.
      subst (IsRegistry maxchannels) (sym (keys-set chs i c (detach_subscriber c conn) e refl)) h;
  detaches_all = λ chs conn h.
      subst (IsRegistry maxchannels)
        (sym (keys-map (λ c. detach_subscriber c conn) chs (λ c. refl))) h;
  creates = λ chs name free room h.
      subst (IsRegistry maxchannels) (sym (map-append key chs _)) (record {
        numbered = Numbered-append 0 (keys chs) _ h.numbered (omega (arith, length-keys chs));
        distinct = Distinct-append (keys chs) _ h.distinct (find_name-none (c_str name) chs free);
        limited = omega (arith, length-append (keys chs) (_ ∷ []), length-keys chs);
        plain = All-append (λ k. c_str k.1 ≡ k.1) (keys chs) _ h.plain (c_str_idem name, tt);
      });
}

Numbered-get_elem? :
    (n : ℕ) (chs : List DillServerChannel) (i : ℕ) (c : DillServerChannel)
    → Numbered n (keys chs)
    → get_elem? chs i ≡ some c
    → c.id ≡ n + i
Numbered-get_elem? n [] i c h e = cc
Numbered-get_elem? n (d ∷ chs) zero c h e = ground arith
Numbered-get_elem? n (d ∷ chs) (suc i) c h e =
    omega (arith, Numbered-get_elem? (suc n) chs i c h.1 e)

get_elem?-keys :
    (P : Key → Type 0) (chs : List DillServerChannel) (i : ℕ) (c : DillServerChannel)
    → All P (keys chs)
    → get_elem? chs i ≡ some c
    → P (key c)
get_elem?-keys P [] i c h e = cc
get_elem?-keys P (d ∷ chs) zero c h e = ground (arith, h.0)
get_elem?-keys P (d ∷ chs) (suc i) c h e = get_elem?-keys P chs i c h.1 e

find_name_self :
    (chs : List DillServerChannel) (i : ℕ) (c : DillServerChannel)
    → Distinct (keys chs)
    → get_elem? chs i ≡ some c
    → find_name c.name chs ≡ some c
unfolding find_name
find_name_self [] i c h e = cc
find_name_self (d ∷ chs) zero c h e = ground (arith, bytes_eq_refl c.name)
find_name_self (d ∷ chs) (suc i) c h e =
    rw (get_elem?-keys (λ j. bytes_eq d.name j.1 ≡ false) chs i c h.0 e)
      (find_name_self chs i c h.1 e)

-- In every state that a server with fewer than 2^32 channels reaches, whatever completes and
-- however: the channel that is got by an index has this index as its identifier, it is the one that
-- is found by its name, and there are at most as many channels as the server was made for.
pub Reach-registry :
    (bound : Bool) (bufsize maxchannels : ℕ) {Q : Pending → Outcome → Type 0} {s : DillServer}
    (id : ℕ) (c : DillServerChannel)
    → maxchannels < u32
    → Reach Q (enter_loop (new_server bound bufsize maxchannels)) s
    → get_channel_data id s ≡ some c
    → (c.id ≡ id)
      × (find_channel_by_name (some c.name) s ≡ some c)
      × (length s.channel_data ≤ maxchannels)
unfolding get_channel_data find_channel_by_name
Reach-registry bound bufsize maxchannels {s = s} id c small r h =
    let v =
      Reach-channels bufsize maxchannels (λ chs. IsRegistry maxchannels (keys chs))
        (IsRegistry-Closed bufsize maxchannels small) bound
        (record { numbered = tt; distinct = tt; limited = omega arith; plain = tt }) r in
    let at : get_elem? s.channel_data id ≡ some c = ground (arith, h) in
    (
      omega (arith, Numbered-get_elem? 0 s.channel_data id c v.numbered at),
      find_name_self s.channel_data id c v.distinct at,
      omega (arith, v.limited, length-keys s.channel_data),
    )

-- No two of the names are equal.
abbrev pub AreNames : List Bytes → Type 0
AreNames [] = Unit {0}
AreNames (name ∷ names) = All (λ other. bytes_eq name other ≡ false) names × AreNames names

-- What `getChannelName` returns of each channel.
abbrev pub names_of : List DillServerChannel → List Bytes
names_of = map (λ c. c_str c.name)

others-differ :
    (name : Bytes) (chs : List DillServerChannel)
    → All (λ j. bytes_eq name j.1 ≡ false) (keys chs)
    → All (λ k. c_str k.1 ≡ k.1) (keys chs)
    → All (λ other. bytes_eq name other ≡ false) (names_of chs)
others-differ name [] h plain = tt
others-differ name (c ∷ chs) h plain = (rw plain.0 h.0, others-differ name chs h.1 plain.1)

keys-AreNames :
    (chs : List DillServerChannel)
    → Distinct (keys chs)
    → All (λ k. c_str k.1 ≡ k.1) (keys chs)
    → AreNames (names_of chs)
keys-AreNames [] h plain = tt
keys-AreNames (c ∷ chs) h plain =
    (rw plain.0 (others-differ c.name chs h.0 plain.1), keys-AreNames chs h.1 plain.1)

-- In every state that a server with fewer than 2^32 channels reaches, the names that it tells of its
-- channels are different, and there are at most as many as it was made for.
pub Reach-AreNames :
    (bound : Bool) (bufsize maxchannels : ℕ) {Q : Pending → Outcome → Type 0} {s : DillServer}
    → maxchannels < u32
    → Reach Q (enter_loop (new_server bound bufsize maxchannels)) s
    → AreNames (names_of s.channel_data) × (length s.channel_data ≤ maxchannels)
Reach-AreNames bound bufsize maxchannels {s = s} small r =
    let v =
      Reach-channels bufsize maxchannels (λ chs. IsRegistry maxchannels (keys chs))
        (IsRegistry-Closed bufsize maxchannels small) bound
        (record { numbered = tt; distinct = tt; limited = omega arith; plain = tt }) r in
    (
      keys-AreNames s.channel_data v.distinct v.plain,
      omega (arith, v.limited, length-keys s.channel_data),
    )
