-- ===== src/Tools/Publisher/Words.antt =====
-- `tokenize` of tools/publisher/publisher.cpp, and a scanner of one pass.
use dill.Base.{
  ℕ, zero, suc, ◌≤◌, ◌<◌, ◌≡◌, refl, sym, ap, ◌∙◌, inl, inr, true, false, List, [], ◌∷◌, ◌++◌,
  append-nil, append_assoc, arith, Bytes, c_str, overwrite, ◌==◌, if◌then◌else◌, Bool-cases, length,
  take, drop, replicate, length-take, All,
}
use dill.Tools.Publisher.{
  is_delimiter, skip_delimiters, first_word, after_word, strtok, tokens, tokenize,
}

abbrev finish : Bytes → List Bytes → List Bytes
finish [] words = words
finish (c ∷ word) words = (c ∷ word) ∷ words

-- The words of a text, behind a word that has been begun.
unfoldable pub scan : Bytes → Bytes → List Bytes
scan word [] = finish word []
scan word (c ∷ s) = if is_delimiter c then finish word (scan [] s) else scan (word ++ (c ∷ [])) s

scan-skip_delimiters : (s : Bytes) → scan [] (skip_delimiters s) ≡ scan [] s
unfolding scan skip_delimiters
scan-skip_delimiters [] = refl
scan-skip_delimiters (c ∷ s) = elim (Bool-cases (is_delimiter c)) [
  | inl e ↦ rw e (scan-skip_delimiters s)
  | inr e ↦ rw (e, e) refl
]

-- A word that has been begun goes on to the next delimiter.
scan-first_word :
    (c : ℕ) (word s : Bytes)
    → scan (c ∷ word) s ≡ ((c ∷ word) ++ first_word s) ∷ scan [] (after_word s)
unfolding scan first_word after_word
scan-first_word c word [] = ap (λ w. (c ∷ w) ∷ []) (sym (append-nil word))
scan-first_word c word (d ∷ s) = elim (Bool-cases (is_delimiter d)) [
  | inl e ↦ rw e (ap (λ w. (c ∷ w) ∷ scan [] s) (sym (append-nil word)))
  | inr e ↦ rw e (
      scan-first_word c (word ++ (d ∷ [])) s
      ∙ ap (λ w. (c ∷ w) ∷ scan [] (after_word s)) (append_assoc word (d ∷ []) (first_word s)))
]

length-after_word : (s : Bytes) → length (after_word s) ≤ length s
unfolding after_word
length-after_word [] = omega arith
length-after_word (c ∷ s) = elim (Bool-cases (is_delimiter c)) [
  | inl e ↦ rw e (omega arith)
  | inr e ↦ rw e (omega (arith, length-after_word s))
]

length-skip_delimiters : (s : Bytes) → length (skip_delimiters s) ≤ length s
unfolding skip_delimiters
length-skip_delimiters [] = omega arith
length-skip_delimiters (c ∷ s) = elim (Bool-cases (is_delimiter c)) [
  | inl e ↦ rw e (omega (arith, length-skip_delimiters s))
  | inr e ↦ rw e (omega arith)
]

-- What is not skipped does not start with a delimiter.
skip_delimiters-head :
    (s : Bytes) (c : ℕ) (rest : Bytes) → skip_delimiters s ≡ c ∷ rest → is_delimiter c ≡ false
unfolding skip_delimiters
skip_delimiters-head [] c rest h = cc
skip_delimiters-head (d ∷ s) c rest h = elim (Bool-cases (is_delimiter d)) [
  | inl e ↦
      let later : skip_delimiters s ≡ c ∷ rest = rw (skip_delimiters, e) at h in
      skip_delimiters-head s c rest later
  | inr e ↦
      let now : Path Bytes (d ∷ s) (c ∷ rest) = rw (skip_delimiters, e) at h in
      let same : d ≡ c = cc in ap is_delimiter (sym same) ∙ e
]

scan-strtok :
    (c : ℕ) (rest : Bytes)
    → is_delimiter c ≡ false
    → scan [] (c ∷ rest) ≡ first_word (c ∷ rest) ∷ scan [] (after_word (c ∷ rest))
unfolding scan first_word after_word
scan-strtok c rest e = rw (e) (scan-first_word c [] rest)

length-strtok :
    (c : ℕ) (rest : Bytes) → is_delimiter c ≡ false → length (after_word (c ∷ rest)) ≤ length rest
unfolding after_word
length-strtok c rest e = rw e (length-after_word rest)

-- With fuel for each byte the loop has the words of the scanner.
tokens_lem : (fuel : ℕ) (s : Bytes) → length s < fuel → tokens fuel s ≡ scan [] s
unfolding tokens strtok scan
tokens_lem zero s h = absurd (omega arith)
tokens_lem (suc fuel) s h = go (tokens_lem fuel) (skip_delimiters s) refl
  where
    go :
        ((rest : Bytes) → length rest < fuel → tokens fuel rest ≡ scan [] rest)
        → (t : Bytes) → skip_delimiters s ≡ t
        → tokens (suc fuel) s ≡ scan [] s
    go others [] e = rw (tokens, strtok, e) (ap (scan []) (sym e) ∙ scan-skip_delimiters s)
    go others (c ∷ rest) e =
        let starts = skip_delimiters-head s c rest e in
        let size : length (after_word (c ∷ rest)) < fuel =
          omega (arith, length-strtok c rest starts, length-skip_delimiters s, ap length e) in
        rw (tokens, strtok, e)
          (ap (first_word (c ∷ rest) ∷◌) (others (after_word (c ∷ rest)) size)
            ∙ sym (scan-strtok c rest starts)
            ∙ ap (scan []) (sym e)
            ∙ scan-skip_delimiters s)

-- Zeros behind a text do not show in it.
c_str-zeros : (s zeros : Bytes) → All (λ (c : ℕ). c ≡ 0) zeros → c_str (s ++ zeros) ≡ c_str s
unfolding c_str
c_str-zeros [] [] h = refl
c_str-zeros [] (c ∷ zeros) h =
    let is_zero : (c == 0) ≡ true = ground (arith, h.0) in rw is_zero refl
c_str-zeros (c ∷ s) zeros h = elim (Bool-cases (c == 0)) [
  | inl e ↦ rw e refl
  | inr e ↦ rw e (ap (c ∷◌) (c_str-zeros s zeros h))
]

All-drop :
    (n : ℕ) (zeros : Bytes) → All (λ (c : ℕ). c ≡ 0) zeros → All (λ (c : ℕ). c ≡ 0) (drop n zeros)
All-drop zero zeros h = h
All-drop (suc n) [] h = tt
All-drop (suc n) (c ∷ zeros) h = All-drop n zeros h.1

All-replicate : (n : ℕ) → All (λ (c : ℕ). c ≡ 0) (replicate n 0)
All-replicate zero = tt
All-replicate (suc n) = (refl, All-replicate n)

length-c_str : (s : Bytes) → length (c_str s) ≤ length s
unfolding c_str
length-c_str [] = omega arith
length-c_str (c ∷ s) = elim (Bool-cases (c == 0)) [
  | inl e ↦ rw e (omega arith)
  | inr e ↦ rw e (omega (arith, length-c_str s))
]

-- The buffer reads as the first 4095 bytes of the line, up to a zero byte.
buffer_lem :
    (line : Bytes) → c_str (overwrite (take 4095 line) (replicate 4096 0)) ≡ c_str (take 4095 line)
unfolding overwrite
buffer_lem line =
    c_str-zeros (take 4095 line) (drop (length (take 4095 line)) (replicate 4096 0))
      (All-drop (length (take 4095 line)) (replicate 4096 0) (All-replicate 4096))

-- For every line, the calls of `strtok` end, and give the words of one pass over the first 4095 bytes
-- of the line, up to a zero byte: the longest runs of bytes that are not blanks or tabs, in order.
pub tokenize_lem : (line : Bytes) → tokenize line ≡ scan [] (c_str (take 4095 line))
unfolding tokenize
tokenize_lem line =
    rw (tokenize, buffer_lem line)
      (tokens_lem 4096 (c_str (take 4095 line))
        (omega (arith, length-c_str (take 4095 line), length-take 4095 line)))
