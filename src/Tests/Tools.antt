-- ===== src/Tests/Tools.antt =====
-- The theorems about the programs under tools at concrete inputs.

use dill.Base.{
  ℕ, ◌≡◌, sym, ap, ◌∙◌, ◌≢◌, true, Option, none, some, [], ◌∷◌, arith, Bytes, c_str, Fault, err,
  get_elem?, All,
}
use dill.Tests.Examples.{info_parcel, subscriber, idle}
use dill.Tests.Runs.{server3, published}
use dill.Tools.Console.Reports.{IsPrinted, printed_lem}
use dill.Subscriber.{new_subscriber, upcall}
use dill.Client.{on_parcel_read}
use dill.Tools.Publisher.{Moment, Publisher, tokenize, run, is_delimiter}
use dill.Tools.Publisher.Words.{scan, tokenize_lem}
use dill.Tools.Publisher.Quit.{no_quit, quit_word}
use dill.Tools.Console.Prints.{Prints, upcall-Prints}

-- "reg x  7".
abbrev reg_line : Bytes
reg_line = b'r' ∷ b'e' ∷ b'g' ∷ 32 ∷ b'x' ∷ 9 ∷ 32 ∷ b'7' ∷ []

tokenize_lem_example :
    tokenize reg_line ≡ (b'r' ∷ b'e' ∷ b'g' ∷ []) ∷ (b'x' ∷ []) ∷ (b'7' ∷ []) ∷ []
unfolding scan c_str is_delimiter
tokenize_lem_example = tokenize_lem reg_line

abbrev noon : Moment
noon = record {
  junk = 0;
  rand = 8;
  int_text = b'8' ∷ [];
  real_text = b'8' ∷ [];
  seconds = 5;
  fraction = 6;
}

abbrev publisher : Publisher
publisher = record { tag = b't' ∷ []; agent = some idle }

-- The first word of `reg_line` is `reg`.
reg_line_goes_ahead : get_elem? (tokenize reg_line) 0 ≢ some quit_word
unfolding scan c_str is_delimiter
reg_line_goes_ahead e =
    let first : Path (Option Bytes) (some (b'r' ∷ b'e' ∷ b'g' ∷ [])) (some quit_word) =
      ap (λ words. get_elem? words 0) (sym (tokenize_lem reg_line)) ∙ e in
    let letters : Path ℕ b'r' b'q' =
      ap (λ x. elim x [ none ↦ 0 | some w ↦ elim w [ [] ↦ 0 | c ∷ _ ↦ c ] ]) first in
    absurd (omega arith)

no_quit_example : (fault : Fault) × (run noon ((noon, reg_line) ∷ []) publisher ≡ err fault)
no_quit_example = no_quit noon ((noon, reg_line) ∷ []) publisher (reg_line_goes_ahead, tt)

upcall-Prints_example : All Prints (upcall (on_parcel_read info_parcel) subscriber).events
unfolding new_subscriber
upcall-Prints_example = upcall-Prints (on_parcel_read info_parcel) subscriber tt

abbrev unread : Bytes → Option ℕ
unread text = none

printed_lem_example : All IsPrinted server3.events
printed_lem_example = printed_lem true 100 4 published
