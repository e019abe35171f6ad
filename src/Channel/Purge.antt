-- ===== src/Channel/Purge.antt =====
-- The purge loop of libdill/src/server_channel.cpp, against the longest run of recent logs that
-- leaves room for the new one.
use dill.Base.{
  ◌-◌, ◌%◌, ◌≤◌, ◌<◌, ◌≡◌, refl, ap, inl, inr, [], arith, u32, ltb, Bool-cases, length,
  length-append, ℕ, List, ◌∷◌, ◌+◌, ◌++◌,
}
use dill.Protocol.{DillParcel, deflate_len}
use dill.Channel.{purge}

-- The bytes that a run of parcels takes.
abbrev pub total : List DillParcel → ℕ
total [] = 0
total (p ∷ ps) = deflate_len p + total ps

pub total-append : (xs ys : List DillParcel) → total (xs ++ ys) ≡ total xs + total ys
total-append [] ys = omega arith
total-append (x ∷ xs) ys = omega (arith, total-append xs ys)

-- `kept` is the longest suffix of `ps` that takes at most `room` bytes.
pub record Longest (room : ℕ) (ps kept : List DillParcel) : Type 0 where
  pub dropped : List DillParcel
  pub split : ps ≡ dropped ++ kept
  pub fits : total kept ≤ room
  pub longest :
      (xs ys : List DillParcel) → ps ≡ xs ++ ys → total ys ≤ room → length ys ≤ length kept

Longest-all : (room : ℕ) (ps : List DillParcel) → total ps ≤ room → Longest room ps ps
Longest-all room ps h = record {
  dropped = [];
  split = refl;
  fits = h;
  longest = λ xs ys e k. omega (arith, ap length e, length-append xs ys);
}

longer :
    (room : ℕ) (p : DillParcel) (ps kept xs ys : List DillParcel)
    → room < total (p ∷ ps)
    → Longest room ps kept
    → p ∷ ps ≡ xs ++ ys
    → total ys ≤ room
    → length ys ≤ length kept
longer room p ps kept [] ys h l e k = absurd (omega (arith, ap total e))
longer room p ps kept (x ∷ xs) ys h l e k = l.longest xs ys (cc) k

Longest-next :
    (room : ℕ) (p : DillParcel) (ps kept : List DillParcel)
    → room < total (p ∷ ps)
    → Longest room ps kept
    → Longest room (p ∷ ps) kept
Longest-next room p ps kept h l = record {
  dropped = p ∷ l.dropped;
  split = ap (◌∷◌ p) l.split;
  fits = l.fits;
  longest = λ xs ys e k. longer room p ps kept xs ys h l e k;
}

-- The loop started with the exact count ends with the exact count of what it keeps.
pub record Purged (capacity psize : ℕ) (ps : List DillParcel) (r : ℕ × List DillParcel)
    : Type 0 where
  pub counted : r.0 ≡ total r.1
  pub room : psize ≤ capacity → Longest (capacity - psize) ps r.1
  pub oversize : capacity < psize → r.1 ≡ []

pub purge-Purged :
    (capacity psize : ℕ) (ps : List DillParcel)
    → capacity + 47549 < u32
    → psize ≤ 47549
    → total ps ≤ capacity
    → Purged capacity psize ps (purge capacity psize (total ps) ps)
unfolding purge
purge-Purged capacity psize [] h k l = record {
  counted = refl;
  room = λ q. Longest-all (capacity - psize) [] (omega arith);
  oversize = λ q. refl;
}
purge-Purged capacity psize (p ∷ ps) h k l =
    elim (Bool-cases (ltb capacity ((total (p ∷ ps) + psize) % u32))) [
      | inl full ↦
          let ih = purge-Purged capacity psize ps h k (omega arith) in
          let left : (total (p ∷ ps) + u32 - deflate_len p) % u32 ≡ total ps = omega arith in
          let more : capacity < total (p ∷ ps) + psize = ground arith in
          rw (full, left)
            (record {
              counted = ih.counted;
              room = λ q. Longest-next (capacity - psize) p ps _ (omega arith) (ih.room q);
              oversize = ih.oversize;
            })
      | inr fits ↦
          let less : total (p ∷ ps) + psize ≤ capacity = ground arith in
          rw fits (record {
            counted = refl;
            room = λ q. Longest-all (capacity - psize) (p ∷ ps) (omega arith);
            oversize = λ q. absurd (omega arith);
          })
    ]
