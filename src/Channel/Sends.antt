-- ===== src/Channel/Sends.antt =====
-- The writes that a channel of libdill/src/server_channel.cpp asks of connections.
use dill.Base.{ℕ, ◌≡◌, refl, ap, List, [], ◌∷◌, map, All}
use dill.Protocol.{DillParcel}
use dill.Channel.{Write}

-- The parcel is sent to each of the connections, in their order, once, and nothing else is sent.
pub record SentTo (conns : List ℕ) (p : DillParcel) (writes : List Write) : Type 0 where
  pub receivers : map (λ (w : Write). w.0) writes ≡ conns
  pub parcels : All (λ (w : Write). w.1 ≡ p) writes

pub writes-SentTo :
    (conns : List ℕ) (p : DillParcel) → SentTo conns p (map (λ conn. (conn, p)) conns)
writes-SentTo [] p = record { receivers = refl; parcels = tt }
writes-SentTo (conn ∷ conns) p =
    let rest = writes-SentTo conns p in
    record { receivers = ap (conn ∷◌) rest.receivers; parcels = (refl, rest.parcels) }
