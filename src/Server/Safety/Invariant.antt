-- ===== src/Server/Safety/Invariant.antt =====
-- Who may still touch a connection of the server (libdill/src/server_netio.cpp): every allocated
-- connection is named by at most one read or posted disconnect in the queue or by the handler that
-- runs, and each subscriber of a channel is an allocated connection in subscriber mode.
use dill.Base.{
  ℕ, ◌+◌, ◌≤◌, ◌≡◌, ◌⊎◌, inl, inr, Bool, true, false, Option, some, List, [], ◌∷◌, ◌++◌, arith,
  Bytes, use_after_free, null_string, out_of_bounds, null_pointer, unset_pointer, pure_virtual_call,
  Result, ok, err, ◌>>=◌, ◌==◌, if◌then◌else◌, Bool-cases, All, All-map, IsOrdered,
}
use dill.Channel.{DillServerChannel}
use dill.Server.State.{
  WorkingMode, mode_unknown, mode_subscriber, Pending, accepting, reading_length, reading_content,
  writing, disconnecting, Conns, DillServer, start, callback, set_conn, DillServerConnection,
}
use dill.Server.Safety.Modes.{mode_of, alive, mode_of-set_conn}

abbrev pub one : ℕ → ℕ → ℕ
one a b = if a == b then 1 else 0

-- How many reads and posted disconnects of the queue name the address.
abbrev pub tokens : ℕ → List Pending → ℕ
tokens a [] = 0
tokens a (reading_length b ∷ ops) = one b a + tokens a ops
tokens a (reading_content b size ∷ ops) = one b a + tokens a ops
tokens a (disconnecting b ∷ ops) = one b a + tokens a ops
tokens a (accepting ∷ ops) = tokens a ops
tokens a (writing b frame ∷ ops) = tokens a ops

pub tokens-append : (a : ℕ) (xs ys : List Pending) → tokens a (xs ++ ys) ≡ tokens a xs + tokens a ys
tokens-append a [] ys = omega arith
tokens-append a (accepting ∷ xs) ys = tokens-append a xs ys
tokens-append a (reading_length b ∷ xs) ys = omega (arith, tokens-append a xs ys)
tokens-append a (reading_content b size ∷ xs) ys = omega (arith, tokens-append a xs ys)
tokens-append a (writing b frame ∷ xs) ys = tokens-append a xs ys
tokens-append a (disconnecting b ∷ xs) ys = omega (arith, tokens-append a xs ys)

abbrev pub Subscribed : Conns → DillServerChannel → Type 0
Subscribed conns ch =
    IsOrdered ch.subscribers × All (λ a. mode_of a conns ≡ some mode_subscriber) ch.subscribers

-- `held` counts the handler that runs.
pub record Inv (held : ℕ → ℕ) (s : DillServer) : Type 0 where
  pub owned : (a : ℕ) → tokens a s.pending + held a ≤ alive a s.conns
  pub subscribed : All (Subscribed s.conns) s.channel_data

-- No handler runs; the handler of an operation on a connection runs.
abbrev pub nobody : ℕ → ℕ
nobody a = 0

abbrev pub holding : ℕ → ℕ → ℕ
holding conn a = one conn a

-- A result that is no access through a wrong pointer, and satisfies `P` if there is one.
abbrev pub Safe : {A : Type 0} → (A → Type 0) → Result A → Type 0
Safe P (ok a) = P a
Safe P (err use_after_free) = ⊥
Safe P (err null_string) = Unit {0}
Safe P (err out_of_bounds) = Unit {0}
Safe P (err null_pointer) = ⊥
Safe P (err unset_pointer) = ⊥
Safe P (err pure_virtual_call) = ⊥

pub Safe-bind :
    {A B : Type 0} (P : A → Type 0) (Q : B → Type 0) (m : Result A) (f : A → Result B)
    → Safe P m
    → ((a : A) → P a → Safe Q (f a))
    → Safe Q (m >>= f)
Safe-bind P Q (ok a) f h k = k a h
Safe-bind P Q (err use_after_free) f h k = h
Safe-bind P Q (err null_string) f h k = tt
Safe-bind P Q (err out_of_bounds) f h k = tt
Safe-bind P Q (err null_pointer) f h k = h
Safe-bind P Q (err unset_pointer) f h k = h
Safe-bind P Q (err pure_virtual_call) f h k = h

pub Safe-if :
    {A : Type 0} (P : A → Type 0) (b : Bool) (x y : Result A)
    → Safe P x
    → Safe P y
    → Safe P (if b then x else y)
Safe-if P true x y h k = h
Safe-if P false x y h k = k

pub Safe-weaken :
    {A : Type 0} {P Q : A → Type 0} → ((a : A) → P a → Q a) → (r : Result A) → Safe P r → Safe Q r
Safe-weaken f (ok a) h = f a h
Safe-weaken f (err use_after_free) h = h
Safe-weaken f (err null_string) h = tt
Safe-weaken f (err out_of_bounds) h = tt
Safe-weaken f (err null_pointer) h = h
Safe-weaken f (err unset_pointer) h = h
Safe-weaken f (err pure_virtual_call) h = h

pub Inv-callback :
    {held : ℕ → ℕ} (op id t1 t2 : ℕ) (str1 str2 : Option Bytes) (s : DillServer)
    → Inv held s
    → Inv held (callback op id t1 t2 str1 str2 s)
unfolding callback
Inv-callback op id t1 t2 str1 str2 s v = elim (Bool-cases s.evcb) [
  | inl e ↦ rw e (record { owned = v.owned; subscribed = v.subscribed })
  | inr e ↦ rw e (record { owned = v.owned; subscribed = v.subscribed })
]

-- The connections change, but none is freed and subscribers stay subscribers.
pub Inv-conns :
    {held : ℕ → ℕ} (s : DillServer) (conns : Conns)
    → ((a : ℕ) → alive a conns ≡ alive a s.conns)
    → ((a : ℕ) → mode_of a s.conns ≡ some mode_subscriber → mode_of a conns ≡ some mode_subscriber)
    → Inv held s
    → Inv held (record s { conns = conns })
Inv-conns s conns same stay v = record {
  owned = λ a. rw (same a) (v.owned a);
  subscribed = All-map (λ ch h. (h.0, All-map stay ch.subscribers h.1)) s.channel_data v.subscribed;
}

-- A connection is given new fields: its mode is what it was, or was not yet chosen.
pub Inv-set_conn :
    {held : ℕ → ℕ} (s : DillServer) (conn : ℕ) (c : DillServerConnection) (m : WorkingMode)
    → mode_of conn s.conns ≡ some m
    → (m ≡ c.mode) ⊎ (m ≡ mode_unknown)
    → Inv held s
    → Inv held (record s { conns = set_conn conn c s.conns })
Inv-set_conn s conn c m h k v =
    Inv-conns s (set_conn conn c s.conns)
      (λ a. ground (arith, mode_of-set_conn a conn c s.conns m h))
      (λ a e. ground (arith, mode_of-set_conn a conn c s.conns m h)) v

-- A write is started.
pub Inv-writing :
    {held : ℕ → ℕ} (s : DillServer) (conn : ℕ) (frame : Bytes)
    → Inv held s
    → Inv held (start (writing conn frame) s)
Inv-writing s conn frame v = record {
  owned = λ a. omega (arith, tokens-append a s.pending (writing conn frame ∷ []), v.owned a);
  subscribed = v.subscribed;
}

-- The running handler hands its connection over to the queue.
pub Inv-hand_over :
    (s : DillServer) (conn : ℕ) (op : Pending)
    → ((a : ℕ) → tokens a (op ∷ []) ≡ one conn a)
    → Inv (holding conn) s
    → Inv nobody (start op s)
Inv-hand_over s conn op e v = record {
  owned = λ a. omega (arith, tokens-append a s.pending (op ∷ []), v.owned a, e a);
  subscribed = v.subscribed;
}
