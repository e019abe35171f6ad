-- ===== src/Tools/Publisher/Quit.antt =====
-- The loop of `main` of tools/publisher/publisher.cpp, where it ends: lines without words, and an input
-- without `quit`.
use dill.Base.{
  ℕ, zero, suc, ◌≡◌, refl, ap, ◌∙◌, ◌≢◌, inl, inr, Bool, true, false, Option, some, List, [], ◌∷◌,
  Bytes, c_str, Fault, out_of_bounds, Result, ok, err, ◌>>=◌, ◌==◌, if◌then◌else◌, Bool-cases,
  Option-cases, bytes_eq, bytes_eq→eq, get_elem?, take, All,
}
use dill.Agent.{DillLogAgent}
use dill.Tools.Publisher.{
  Moment, Publisher, is_delimiter, tokenize, sent, log_word, param, perform, on_line, run,
}
use dill.Tools.Publisher.Words.{scan, tokenize_lem}

All-take : (P : ℕ → Type 0) (n : ℕ) (s : Bytes) → All P s → All P (take n s)
All-take P zero s h = tt
All-take P (suc n) [] h = tt
All-take P (suc n) (c ∷ s) h = (h.0, All-take P n s h.1)

All-c_str : (P : ℕ → Type 0) (s : Bytes) → All P s → All P (c_str s)
unfolding c_str
All-c_str P [] h = tt
All-c_str P (c ∷ s) h = elim (Bool-cases (c == 0)) [
  | inl e ↦ rw (c_str, e) tt
  | inr e ↦ rw (c_str, e) (h.0, All-c_str P s h.1)
]

abbrev pub IsBlank : Bytes → Type 0
IsBlank line = All (λ (c : ℕ). is_delimiter c ≡ true) line

scan-blank : (s : Bytes) → IsBlank s → scan [] s ≡ []
unfolding scan
scan-blank [] h = refl
scan-blank (c ∷ s) h = rw h.0 (scan-blank s h.1)

-- A line of blanks and tabs, such as the empty one, has no words, and reading the first one is out of
-- bounds.
blank_line :
    (m : Moment) (line : Bytes) (p : Publisher)
    → IsBlank line
    → on_line m line p ≡ err out_of_bounds
unfolding on_line param
blank_line m line p h =
    let blank = All-c_str _ (take 4095 line) (All-take _ 4095 line h) in
    let none_there : tokenize line ≡ [] =
      tokenize_lem line ∙ scan-blank (c_str (take 4095 line)) blank in
    rw (on_line, none_there) refl

-- A round goes on if it returns.
record GoesOn (r : Result (Bool × Publisher)) : Type 0 where
  goes_on : (more : Bool) (p : Publisher) → r ≡ ok (more, p) → more ≡ true

err-GoesOn : (fault : Fault) → GoesOn (err fault)
err-GoesOn fault = record { goes_on = λ more p e. cc }

ok-GoesOn : (p : Publisher) → GoesOn (ok (true, p))
ok-GoesOn p = record { goes_on = λ more p' e. cc }

then-GoesOn :
    {A : Type 0} (r : Result A) (next : A → Result (Bool × Publisher))
    → ((a : A) → GoesOn (next a))
    → GoesOn (r >>= next)
then-GoesOn (err fault) next h = err-GoesOn fault
then-GoesOn (ok a) next h = h a

if-GoesOn :
    (b : Bool) (r r' : Result (Bool × Publisher))
    → GoesOn r
    → GoesOn r'
    → GoesOn (if b then r else r')
if-GoesOn true r r' h h' = h
if-GoesOn false r r' h h' = h'

sent-GoesOn : (r : Result (Bool × Option DillLogAgent)) (p : Publisher) → GoesOn (sent r p)
unfolding sent
sent-GoesOn r p = then-GoesOn r _ (λ (done, g). ok-GoesOn (record p { agent = g }))

perform-GoesOn :
    (m : Moment) (params : List Bytes) (command : Bytes) (p : Publisher)
    → GoesOn (perform m params command p)
unfolding perform log_word
perform-GoesOn m params command p = search (if-GoesOn, then-GoesOn, ok-GoesOn, sent-GoesOn) depth 12

abbrev pub quit_word : Bytes
quit_word = b'q' ∷ b'u' ∷ b'i' ∷ b't' ∷ []

-- The first word of a line is not `quit`.
abbrev pub GoesAhead : Moment × Bytes → Type 0
GoesAhead (m, line) = get_elem? (tokenize line) 0 ≢ some quit_word

on_line-GoesOn :
    (m : Moment) (line : Bytes) (p : Publisher) → GoesAhead (m, line) → GoesOn (on_line m line p)
unfolding on_line param
on_line-GoesOn m line p h = elim (Option-cases (get_elem? (tokenize line) 0)) [
  | inl e ↦ rw (on_line, param, e) (err-GoesOn out_of_bounds)
  | inr (command, e) ↦ elim (Bool-cases (bytes_eq command quit_word)) [
    | inl same ↦ absurd (h (e ∙ ap some (bytes_eq→eq command quit_word same)))
    | inr other ↦ rw (on_line, param, e, other) (perform-GoesOn m (tokenize line) command p)
  ]
]

-- Unless the first word of some line is `quit`, the program runs into a fault, at the end of its
-- input if not before, whatever the lines are.
pub no_quit :
    (at_end : Moment) (lines : List (Moment × Bytes)) (p : Publisher)
    → All GoesAhead lines
    → (fault : Fault) × (run at_end lines p ≡ err fault)
unfolding run
no_quit at_end [] p h = (out_of_bounds, rw (run, blank_line at_end [] p tt) refl)
no_quit at_end ((m, line) ∷ lines) p h =
    go (λ p'. no_quit at_end lines p' h.1) (on_line m line p) refl (on_line-GoesOn m line p h.0)
  where
    go :
        ((p' : Publisher) → (fault : Fault) × (run at_end lines p' ≡ err fault))
        → (r : Result (Bool × Publisher)) → on_line m line p ≡ r
        → GoesOn r
        → (fault : Fault) × (run at_end ((m, line) ∷ lines) p ≡ err fault)
    go others (err fault) e g = (fault, rw (run, e) refl)
    go others (ok (more, p')) e g =
        let (fault, faults) = others p' in (fault, rw (run, e, g.goes_on more p' refl) faults)
