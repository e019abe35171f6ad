-- ===== src/Tools/Publisher.antt =====
-- tools/publisher/publisher.cpp: the commands that it reads, and the calls of libdill that they make. The
-- numbers of `rand`, the time of a call and what an uninitialised variable holds are arguments. The
-- input is a list of lines, each with its end.
pub mod Words
pub mod Quit
use dill.Base.{
  ℕ, zero, suc, ◌+◌, ◌-◌, ◌*◌, ◌/◌, ◌%◌, ◌^◌, ◌≤◌, ◌<◌, min, ◌≡◌, refl, sym, ap, ◌∙◌, subst, ◌≢◌,
  ◌↔◌, ◌⊎◌, inl, inr, Bool, true, false, not, ◌&&◌, ◌||◌, Option, none, some, List, [], ◌∷◌, ◌++◌,
  map, append-nil, append_assoc, arith, Bytes, u16, u32, c_str, overwrite, Fault, use_after_free,
  null_string, out_of_bounds, Result, ok, err, ◌>>=◌, or_fault, invert, length-overwrite,
  take-overwrite, ltb, leb, ◌==◌, if◌then◌else◌, ==_iff, ==_refl, Bool-cases, Option-cases, dec_le,
  dec_lt, ℕ_discrete, not-==, bytes_eq, bytes_eq→eq, bytes_eq_refl, bytes_eq_sym, length, get_elem?,
  set, take, drop, replicate, length-replicate, length-append, length-take, length-drop, take_all,
  length-set, get_elem?-lt, get_elem?-ge, get_elem?-none, get_elem?-append_left,
  get_elem?-append_last, get_elem?-some, length-map, All, All-append, All-set, All-get_elem?,
  All-map, set_insert, set_erase, contains, All-set_insert, All-set_erase, IsOrdered,
  set_insert-IsOrdered, set_erase-IsOrdered, contains-set_insert, contains-set_erase, StringMap,
  map_put, map_find, map_find-map_put,
}
use dill.Agent.{DillLogAgent}
use dill.Api.Log.{log_println, default_port}
use dill.Api.Namespace.{log_init, log_deinit, reg_str, reg_int}

-- " \t".
unfoldable pub is_delimiter : ℕ → Bool
is_delimiter c = (c == 32) || (c == 9)

unfoldable pub skip_delimiters : Bytes → Bytes
skip_delimiters [] = []
skip_delimiters (c ∷ s) = if is_delimiter c then skip_delimiters s else c ∷ s

unfoldable pub first_word : Bytes → Bytes
first_word [] = []
first_word (c ∷ s) = if is_delimiter c then [] else c ∷ first_word s

-- What is left behind the delimiter that ends a word.
unfoldable pub after_word : Bytes → Bytes
after_word [] = []
after_word (c ∷ s) = if is_delimiter c then s else after_word s

-- `std::strtok`: the next word and where the next call goes on.
unfoldable pub strtok : Bytes → Option (Bytes × Bytes)
strtok s = elim (skip_delimiters s) [
  | [] ↦ none
  | c ∷ rest ↦ some (first_word (c ∷ rest), after_word (c ∷ rest))
]

-- The loop of `tokenize`, with fuel.
unfoldable pub tokens : ℕ → Bytes → List Bytes
tokens zero s = []
tokens (suc fuel) s = elim (strtok s) [ none ↦ [] | some (word, rest) ↦ word ∷ tokens fuel rest ]

-- The buffer holds 4096 zeros, and the copy at most 4095 bytes of the line.
unfoldable pub tokenize : Bytes → List Bytes
tokenize line = tokens 4096 (c_str (overwrite (take 4095 line) (replicate 4096 0)))

abbrev Agent : Type 0
Agent = Option DillLogAgent

-- What the surroundings give to one round of the loop: `junk` is what an uninitialised variable
-- holds, `rand` a random number, with the texts of it and of the quotient by 19, and the time.
pub record Moment : Type 0 where
  pub junk : ℕ
  pub rand : ℕ
  pub int_text : Bytes
  pub real_text : Bytes
  pub seconds : ℕ
  pub fraction : ℕ

pub record Publisher : Type 0 where
  pub tag : Bytes
  pub agent : Agent

-- The start of `main`, with the arguments behind the program's name; `default_addr` is the text of
-- `DILL_DEFAULT_ADDR`.
unfoldable pub start : List Bytes → Bytes → Bytes → Bytes → Publisher
start args default_addr rd_buf wt_buf =
    let channel : Bytes = elim args [ [] ↦ b'm' ∷ b'a' ∷ b't' ∷ b't' ∷ [] | name ∷ rest ↦ name ] in
    record {
      tag = b't' ∷ b'e' ∷ b's' ∷ b't' ∷ [];
      agent = (log_init channel default_port default_addr rd_buf wt_buf none).1;
    }

-- The result of a call that logs is not used.
unfoldable pub sent : Result (Bool × Agent) → Publisher → Result (Bool × Publisher)
sent r p = r >>= λ (done, g). ok (true, record p { agent = g })

unfoldable pub log_word : Moment → Bytes → Bytes → Publisher → Result (Bool × Publisher)
log_word m tag msg p =
    sent (log_println m.junk (m.rand % 5) (c_str tag) (c_str msg) m.seconds m.fraction p.agent) p

-- The word at a position; `params[i]` has no test.
unfoldable pub param : List Bytes → ℕ → Result Bytes
param params i = or_fault (get_elem? params i) out_of_bounds

-- The commands behind `quit`, with the first word.
unfoldable pub perform : Moment → List Bytes → Bytes → Publisher → Result (Bool × Publisher)
perform m params command p =
    let pnum = length params % u32 in
    if bytes_eq command (b't' ∷ b'a' ∷ b'g' ∷ []) && ltb 1 pnum
    then (param params 1 >>= λ word. ok (true, record p { tag = word }))
    else (if bytes_eq command (b'r' ∷ b'e' ∷ b'g' ∷ []) && ltb 2 pnum
        then (param params 1 >>= λ name.
            (param params 2 >>= λ content.
            sent (reg_str m.junk (c_str name) (c_str content) m.seconds m.fraction p.agent) p))
        else (if bytes_eq command (b'r' ∷ b'e' ∷ b'g' ∷ b'i' ∷ []) && ltb 1 pnum
            then (param params 1 >>= λ name.
                sent (reg_int (λ n. n) m.junk (c_str name) m.int_text m.seconds m.fraction p.agent)
                  p)
            else (if bytes_eq command (b'r' ∷ b'e' ∷ b'g' ∷ b'f' ∷ []) && ltb 1 pnum
                then (param params 1 >>= λ name.
                    sent
                      (reg_int (λ n. n) m.junk (c_str name) m.real_text m.seconds m.fraction
                        p.agent)
                      p)
                else (if ltb 1 pnum
                    then (param params 1 >>= λ msg. log_word m command msg p)
                    else log_word m p.tag command p))))

-- One round of the loop of `main`; false if the loop ends.
unfoldable pub on_line : Moment → Bytes → Publisher → Result (Bool × Publisher)
on_line m line p =
    let params = tokenize line in
    param params 0 >>= λ command.
    if bytes_eq command (b'q' ∷ b'u' ∷ b'i' ∷ b't' ∷ [])
    then ok (false, p)
    else perform m params command p

-- The loop of `main` and what comes behind it. At the end of the input `std::getline` leaves the
-- line empty, and the round with it is the last one, since it has no word.
unfoldable pub run : Moment → List (Moment × Bytes) → Publisher → Result Publisher
run at_end [] p =
    on_line at_end [] p >>= λ (more, p'). ok (record p' { agent = log_deinit p'.agent })
run at_end ((m, line) ∷ lines) p = on_line m line p >>= λ (more, p').
    if more then run at_end lines p' else ok (record p' { agent = log_deinit p'.agent })
