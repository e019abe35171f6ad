-- ===== src/Viewer/App/Refresh.antt =====
-- `refreshChannelData` of dlv/dlv_app.cpp: its loop ends, and how it pairs pages with channels.
use dill.Base.{
  ℕ, zero, suc, ◌+◌, ◌≤◌, ◌<◌, ◌≡◌, refl, ap, ◌∙◌, inl, inr, true, false, some, List, [], ◌∷◌, ◌++◌,
  map, append-nil, append_assoc, arith, Bytes, ltb, ◌==◌, if◌then◌else◌, Bool-cases, bytes_eq,
  bytes_eq→eq, bytes_eq_sym, length, get_elem?, drop, length-append, get_elem?-some, All,
}
use dill.Viewer.App.{Dill, ChannelData, DlvApp, load_channels, pair_page, pair_pages}

-- The channels have different names.
abbrev pub AreDistinct : List ChannelData → Type 0
AreDistinct [] = Unit
AreDistinct (d ∷ ds) = All (λ e. bytes_eq d.name e.name ≡ false) ds × AreDistinct ds

-- The page that the last of the old channels with this name and a page was shown on.
unfoldable pub last_page : Bytes → List ChannelData → ℕ → ℕ
last_page name [] before = before
last_page name (old ∷ olds) before =
    last_page name olds
      (if old.page == 0 then before else (if bytes_eq name old.name then old.page else before))

-- A channel that gets the page of an old one with its name.
abbrev repaired : ChannelData → ChannelData → ChannelData
repaired old d = record d { page = if bytes_eq d.name old.name then old.page else d.page }

others-repaired :
    (old : ChannelData) (name : Bytes) (ds : List ChannelData)
    → name ≡ old.name
    → All (λ e. bytes_eq name e.name ≡ false) ds
    → map (repaired old) ds ≡ ds
others-repaired old name [] e h = refl
others-repaired old name (d ∷ ds) e h =
    let other : bytes_eq d.name old.name ≡ false = bytes_eq_sym d.name old.name ∙ rw (← e) h.0 in
    rw (other, others-repaired old name ds e h.1) refl

pair_page_lem :
    (old : ChannelData) (ds : List ChannelData)
    → AreDistinct ds
    → pair_page old ds ≡ map (repaired old) ds
unfolding pair_page
pair_page_lem old [] h = refl
pair_page_lem old (d ∷ ds) h = elim (Bool-cases (bytes_eq d.name old.name)) [
  | inl e ↦ rw (e, others-repaired old d.name ds (bytes_eq→eq d.name old.name e) h.0) refl
  | inr e ↦ rw e (ap (d ∷◌) (pair_page_lem old ds h.1))
]

-- Repairing keeps the names, and with them that they are different.
repaired-All :
    (old : ChannelData) (P : Bytes → Type 0) (ds : List ChannelData)
    → All (λ e. P e.name) ds
    → All (λ e. P e.name) (map (repaired old) ds)
repaired-All old P [] h = tt
repaired-All old P (d ∷ ds) h = (h.0, repaired-All old P ds h.1)

repaired-AreDistinct :
    (old : ChannelData) (ds : List ChannelData)
    → AreDistinct ds
    → AreDistinct (map (repaired old) ds)
repaired-AreDistinct old [] h = tt
repaired-AreDistinct old (d ∷ ds) h = (
  repaired-All old (λ name. bytes_eq d.name name ≡ false) ds h.0,
  repaired-AreDistinct old ds h.1,
)

-- A channel with the page of the last of the old channels that had its name and a page.
abbrev pub repaired_by : List ChannelData → ChannelData → ChannelData
repaired_by olds d = record d { page = last_page d.name olds d.page }

map-repaired :
    (old : ChannelData) (olds ds : List ChannelData)
    → (old.page == 0) ≡ false
    → map (repaired_by olds) (map (repaired old) ds) ≡ map (repaired_by (old ∷ olds)) ds
unfolding last_page
map-repaired old olds [] h = refl
map-repaired old olds (d ∷ ds) h = rw (h, map-repaired old olds ds h) refl

map-unpaired :
    (old : ChannelData) (olds ds : List ChannelData)
    → (old.page == 0) ≡ true
    → map (repaired_by olds) ds ≡ map (repaired_by (old ∷ olds)) ds
unfolding last_page
map-unpaired old olds [] h = refl
map-unpaired old olds (d ∷ ds) h = rw (h, map-unpaired old olds ds h) refl

map-repaired_none : (ds : List ChannelData) → ds ≡ map (repaired_by []) ds
unfolding last_page
map-repaired_none [] = refl
map-repaired_none (d ∷ ds) = ap (d ∷◌) (map-repaired_none ds)

-- Where the channels have different names, pairing gives each the page of the last of the old ones
-- that had its name and a page, and leaves the others as they are.
pub pair_pages_lem :
    (olds ds : List ChannelData) → AreDistinct ds → pair_pages olds ds ≡ map (repaired_by olds) ds
unfolding pair_pages
pair_pages_lem [] ds h = map-repaired_none ds
pair_pages_lem (old ∷ olds) ds h = elim (Bool-cases (old.page == 0)) [
  | inl e ↦ rw e (pair_pages_lem olds ds h ∙ map-unpaired old olds ds e)
  | inr e ↦
      rw (e, pair_page_lem old ds h)
        (pair_pages_lem olds (map (repaired old) ds) (repaired-AreDistinct old ds h)
          ∙ map-repaired old olds ds e)
]

-- However the answers change from call to call, if the server never has more than `most` channels,
-- the loop ends with fuel for one round more than the channels that are missing.
pub load_channels_ends :
    (dill : Dill) (most fuel : ℕ) (a : DlvApp)
    → ((t : ℕ) → dill.available_channels t ≤ most)
    → most < fuel + length a.channel_data
    → 0 < fuel
    → (a' : DlvApp) × (load_channels dill fuel a ≡ some a')
unfolding load_channels
load_channels_ends dill most zero a h k z = absurd (omega arith)
load_channels_ends dill most (suc fuel) a h k z =
    elim (Bool-cases (ltb (length a.channel_data) (dill.available_channels a.calls))) [
      | inr done ↦ (record a { calls = a.calls + 1 }, rw done refl)
      | inl more ↦
          let d : ChannelData = record {
            page = 0;
            name = dill.get_channel_name (a.calls + 1) (length a.channel_data);
          } in
          let (a', e) =
            load_channels_ends dill most fuel
              (record a { channel_data = a.channel_data ++ (d ∷ []); calls = a.calls + 2 }) h
              (omega (arith, length-append a.channel_data (d ∷ []))) (ground (arith, h a.calls)) in
          (a', rw more e)
    ]

-- A server whose channels stay the same while it is asked.
pub record Lists (dill : Dill) (names : List Bytes) : Type 0 where
  pub available : (t : ℕ) → dill.available_channels t ≡ length names
  pub named :
      (t i : ℕ) (name : Bytes) → get_elem? names i ≡ some name → dill.get_channel_name t i ≡ name

abbrev pub unpaired : Bytes → ChannelData
unpaired name = record { page = 0; name = name }

drop-cons :
    {A : Type 0} (xs : List A) (i : ℕ) (x : A)
    → get_elem? xs i ≡ some x
    → drop i xs ≡ x ∷ drop (suc i) xs
drop-cons [] i x h = cc
drop-cons (y ∷ xs) zero x h = cc
drop-cons (y ∷ xs) (suc i) x h = drop-cons xs i x h

pub drop_all : {A : Type 0} (i : ℕ) (xs : List A) → length xs ≤ i → drop i xs ≡ []
drop_all zero [] h = refl
drop_all zero (x ∷ xs) h = absurd (omega arith)
drop_all (suc i) [] h = refl
drop_all (suc i) (x ∷ xs) h = drop_all i xs (omega arith)

append-unpaired :
    (ds : List ChannelData) (names : List Bytes) (name got : Bytes)
    → get_elem? names (length ds) ≡ some name
    → got ≡ name
    → (ds ++ (unpaired got ∷ [])) ++ map unpaired (drop (length (ds ++ (unpaired got ∷ []))) names)
      ≡ ds ++ map unpaired (drop (length ds) names)
append-unpaired ds names name got at e =
    let size : length (ds ++ (unpaired got ∷ [])) ≡ suc (length ds) =
      omega (arith, length-append ds (unpaired got ∷ [])) in
    rw (size, drop-cons names (length ds) name at, e)
      (append_assoc ds (unpaired name ∷ []) (map unpaired (drop (suc (length ds)) names)))

-- The loop adds the channels that are missing, without a page.
pub load_channels_lem :
    (dill : Dill) (names : List Bytes) (fuel : ℕ) (a : DlvApp)
    → Lists dill names
    → length names < fuel + length a.channel_data
    → 0 < fuel
    → (calls : ℕ) × (load_channels dill fuel a
        ≡ some (record a {
          channel_data = a.channel_data ++ map unpaired (drop (length a.channel_data) names);
          calls = calls;
        }))
unfolding load_channels
load_channels_lem dill names zero a v k z = absurd (omega arith)
load_channels_lem dill names (suc fuel) a v k z =
    let i = length a.channel_data in
    elim (Bool-cases (ltb i (dill.available_channels a.calls))) [
      | inr done ↦
          let none_missing : a.channel_data ++ map unpaired (drop i names) ≡ a.channel_data =
            rw (drop_all i names (ground (arith, v.available a.calls)))
              (append-nil a.channel_data) in
          (a.calls + 1, rw (done, none_missing) refl)
      | inl more ↦
          let (name, at) = get_elem?-some names i (ground (arith, v.available a.calls)) in
          let got = dill.get_channel_name (a.calls + 1) i in
          let (calls, e) =
            load_channels_lem dill names fuel
              (record a {
                channel_data = a.channel_data ++ (unpaired got ∷ []);
                calls = a.calls + 2;
              })
              v (omega (arith, length-append a.channel_data (unpaired got ∷ [])))
              (ground (arith, v.available a.calls)) in
          (
            calls,
            rw more (
                e
                ∙ ap (λ ds. some (record a { channel_data = ds; calls = calls }))
                    (append-unpaired a.channel_data names name got at
                      (v.named (a.calls + 1) i name at))),
          )
    ]
