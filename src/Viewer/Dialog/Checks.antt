-- ===== src/Viewer/Dialog/Checks.antt =====
-- `DlvSubscribeDialog` of dlv/dlv_subscribedlg.cpp: which channels it takes for subscribed.

use dill.Base.{
  ℕ, zero, suc, ◌≡◌, refl, sym, ap, ◌∙◌, subst, ◌≢◌, inl, inr, Bool, false, not, some, List, [],
  ◌∷◌, map, arith, Bytes, c_str, ◌==◌, Bool-cases, bytes_eq, bytes_eq→eq, bytes_eq_refl, get_elem?,
}
use dill.Viewer.App.{
  DlvApp, ChannelData, get_channel_names, is_named_subscribed, is_channel_subscribed,
}
use dill.Viewer.Dialog.{subscribing, has_text, new_dialog}

-- A channel with a page.
abbrev pub has_page : ChannelData → Bool
has_page d = not (d.page == 0)

-- The texts of the channels are different.
abbrev pub AreTitles : (Bytes → Bytes) → List ChannelData → Type 0
AreTitles text ds =
    (i j : ℕ) (d e : ChannelData)
    → get_elem? ds i ≡ some d
    → get_elem? ds j ≡ some e
    → text d.name ≡ text e.name
    → i ≡ j

AreTitles-tail :
    (text : Bytes → Bytes) (d : ChannelData) (ds : List ChannelData)
    → AreTitles text (d ∷ ds)
    → AreTitles text ds
AreTitles-tail text d ds h =
    λ i j e e' at at' same. omega (arith, h (suc i) (suc j) e e' at at' same)

-- The head's text is no later channel's.
head-differs :
    (text : Bytes → Bytes) (d : ChannelData) (ds : List ChannelData) (k : ℕ) (e : ChannelData)
    → AreTitles text (d ∷ ds)
    → get_elem? ds k ≡ some e
    → text d.name ≢ text e.name
head-differs text d ds k e h at same = absurd (omega (arith, h zero (suc k) d e refl at same))

differs-bytes_eq : (a b : Bytes) → a ≢ b → bytes_eq a b ≡ false
differs-bytes_eq a b n = elim (Bool-cases (bytes_eq a b)) [
  | inl same ↦ absurd (n (bytes_eq→eq a b same))
  | inr differs ↦ differs
]

is_named_subscribed_lem :
    (text : Bytes → Bytes) (ds : List ChannelData) (k : ℕ) (d : ChannelData)
    → AreTitles text ds
    → get_elem? ds k ≡ some d
    → is_named_subscribed d.name ds ≡ has_page d
unfolding is_named_subscribed
is_named_subscribed_lem text [] k d h at = cc
is_named_subscribed_lem text (e ∷ ds) zero d h at =
    let same : e ≡ d = cc in rw (same, bytes_eq_refl d.name) refl
is_named_subscribed_lem text (e ∷ ds) (suc k) d h at =
    let differs : bytes_eq e.name d.name ≡ false =
      differs-bytes_eq e.name d.name (λ same. head-differs text e ds k d h at (ap text same)) in
    rw differs (is_named_subscribed_lem text ds k d (AreTitles-tail text e ds h) at)

module _ (from_utf8 : Bytes → Bytes) (a : DlvApp) where
  -- What a channel's name is shown as.
  abbrev pub shown_as : Bytes → Bytes
  shown_as name = from_utf8 (c_str name)

  -- A text that no name is shown as is not among the subscribed ones.
  has_text_other :
      (text : Bytes) (ds : List ChannelData)
      → ((k : ℕ) (d : ChannelData) → get_elem? ds k ≡ some d → shown_as d.name ≢ text)
      → has_text text (subscribing from_utf8 (map (λ (d : ChannelData). d.name) ds) a) ≡ false
  unfolding has_text subscribing
  has_text_other text [] h = refl
  has_text_other text (d ∷ ds) h =
      let later = has_text_other text ds (λ k. h (suc k)) in
      let differs = differs-bytes_eq (shown_as d.name) text (h zero d refl) in
      elim (Bool-cases (is_channel_subscribed d.name a)) [
        | inl here ↦ rw (here, differs, later) refl
        | inr none_here ↦ rw none_here later
      ]

  -- A name's text is among the subscribed ones if it is subscribed.
  has_text_lem :
      (ds : List ChannelData) (k : ℕ) (d : ChannelData)
      → AreTitles shown_as ds
      → get_elem? ds k ≡ some d
      → has_text (shown_as d.name) (subscribing from_utf8 (map (λ (d : ChannelData). d.name) ds) a)
        ≡ is_channel_subscribed d.name a
  unfolding has_text subscribing
  has_text_lem [] k d h at = cc
  has_text_lem (e ∷ ds) zero d h at =
      let same : e ≡ d = cc in
      let later =
        has_text_other (shown_as e.name) ds
          (λ k c at' eq. head-differs shown_as e ds k c h at' (sym eq)) in
      subst
        (λ c.
          has_text (shown_as c.name)
            (subscribing from_utf8 (map (λ (d : ChannelData). d.name) (e ∷ ds)) a)
          ≡ is_channel_subscribed c.name a)
        same
        (elim (Bool-cases (is_channel_subscribed e.name a)) [
          | inl here ↦ rw (here, bytes_eq_refl (shown_as e.name)) refl
          | inr none_here ↦ rw (none_here) later
        ])
  has_text_lem (e ∷ ds) (suc k) d h at =
      let differs =
        differs-bytes_eq (shown_as e.name) (shown_as d.name)
          (head-differs shown_as e ds k d h at) in
      let later = has_text_lem ds k d (AreTitles-tail shown_as e ds h) at in
      elim (Bool-cases (is_channel_subscribed e.name a)) [
        | inl here ↦ rw (here, differs) later
        | inr none_here ↦ rw none_here later
      ]

  -- The dialogue takes a channel for subscribed if it has a page.
  pub was_subscribed_lem :
      (k : ℕ) (d : ChannelData)
      → AreTitles shown_as a.channel_data
      → get_elem? a.channel_data k ≡ some d
      → has_text (shown_as d.name) (new_dialog from_utf8 a).subscribing_channels ≡ has_page d
  unfolding new_dialog get_channel_names is_channel_subscribed
  was_subscribed_lem k d h at =
      has_text_lem a.channel_data k d h at
      ∙ is_named_subscribed_lem shown_as a.channel_data k d h at
