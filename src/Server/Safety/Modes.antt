-- ===== src/Server/Safety/Modes.antt =====
-- The working mode of the connection at an address, if one is allocated there, through the changes
-- that libdill/src/server_conn.cpp and server_netio.cpp make to the set of connections.
use dill.Base.{
  ℕ, ◌≡◌, refl, inl, inr, Bool, Option, none, some, [], ◌∷◌, arith, ◌==◌, if◌then◌else◌, Bool-cases,
}
use dill.Server.State.{WorkingMode, DillServerConnection, Conns, find_conn, set_conn, erase_conn}

abbrev pub mode_of : ℕ → Conns → Option WorkingMode
mode_of a [] = none
mode_of a ((b, c) ∷ cs) = if b == a then some c.mode else mode_of a cs

-- 1 for an allocated address, 0 for any other.
abbrev pub alive : ℕ → Conns → ℕ
alive a cs = elim (mode_of a cs) [ none ↦ 0 | some m ↦ 1 ]

pub find_conn-mode_of :
    (a : ℕ) (cs : Conns) (c : DillServerConnection)
    → find_conn a cs ≡ some c
    → mode_of a cs ≡ some c.mode
unfolding find_conn
find_conn-mode_of a [] c h = cc
find_conn-mode_of a ((b, d) ∷ cs) c h = ground (arith, find_conn-mode_of a cs c)

pub mode_of-find_conn :
    (a : ℕ) (cs : Conns) (m : WorkingMode)
    → mode_of a cs ≡ some m
    → (c : DillServerConnection) × (find_conn a cs ≡ some c) × (c.mode ≡ m)
unfolding find_conn
mode_of-find_conn a [] m h = cc
mode_of-find_conn a ((b, d) ∷ cs) m h = elim (Bool-cases (b == a)) [
  | inl e ↦ (d, rw e, ground arith)
  | inr e ↦ rw e (mode_of-find_conn a cs m (rw e at h))
]

pub mode_of-none : (a : ℕ) (cs : Conns) → find_conn a cs ≡ none → mode_of a cs ≡ none
unfolding find_conn
mode_of-none a [] h = refl
mode_of-none a ((b, d) ∷ cs) h = ground (arith, mode_of-none a cs)

-- A change of mode at an address where a connection is allocated.
abbrev changed : Bool → WorkingMode → Option WorkingMode → Option WorkingMode
changed hit m none = none
changed hit m (some n) = some (if hit then m else n)

mode_of-set_conn_any :
    (a b : ℕ) (v : DillServerConnection) (cs : Conns)
    → mode_of a (set_conn b v cs) ≡ changed (b == a) v.mode (mode_of a cs)
unfolding set_conn
mode_of-set_conn_any a b v [] = refl
mode_of-set_conn_any a b v ((d, c) ∷ cs) = ground (arith, mode_of-set_conn_any a b v cs)

pub mode_of-set_conn :
    (a b : ℕ) (v : DillServerConnection) (cs : Conns) (m : WorkingMode)
    → mode_of b cs ≡ some m
    → mode_of a (set_conn b v cs) ≡ (if b == a then some v.mode else mode_of a cs)
mode_of-set_conn a b v cs m h = ground (arith, mode_of-set_conn_any a b v cs)

pub mode_of-set_conn_self :
    (a : ℕ) (v : DillServerConnection) (cs : Conns) (m : WorkingMode)
    → mode_of a cs ≡ some m
    → mode_of a (set_conn a v cs) ≡ some v.mode
mode_of-set_conn_self a v cs m h = ground (arith, mode_of-set_conn a a v cs m h)

pub mode_of-erase_conn :
    (a b : ℕ) (cs : Conns) → mode_of a (erase_conn b cs) ≡ (if b == a then none else mode_of a cs)
unfolding erase_conn
mode_of-erase_conn a b [] = ground arith
mode_of-erase_conn a b ((d, c) ∷ cs) = ground (arith, mode_of-erase_conn a b cs)
