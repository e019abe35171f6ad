-- ===== src/Viewer/Frame/Sound.antt =====
-- The pages, the tabs and the channels of dlv/dlv_frame.cpp and dlv/dlv_app.cpp: what holds between
-- them, so that no handler meets a page that was deleted.
use dill.Base.{
  ℕ, zero, suc, ◌≤◌, ◌<◌, ◌≡◌, refl, ap, ◌∙◌, subst, ◌≢◌, ◌⊎◌, inl, inr, Option, some, List, [],
  ◌∷◌, ◌++◌, arith, Bytes, ℕ_discrete, length, get_elem?, set, get_elem?-lt, get_elem?-append_left,
  get_elem?-append_last, All, none, All-append, sym, All-map, length-set, length-append,
}
use dill.Viewer.Desktop.{Tab, remove_tab}
use dill.Viewer.App.{ChannelData}

module _ {A : Type 0} where
  -- An element of a changed list is the new one or stood there before.
  get_elem?-set_cases :
      (xs : List A) (i j : ℕ) (v w : A)
      → get_elem? (set xs i v) j ≡ some w
      → ((j ≡ i) × (w ≡ v)) ⊎ ((j ≢ i) × (get_elem? xs j ≡ some w))
  get_elem?-set_cases [] i j v w e = cc
  get_elem?-set_cases (x ∷ xs) zero zero v w e = inl (refl, cc)
  get_elem?-set_cases (x ∷ xs) zero (suc j) v w e = inr (λ p. omega arith, e)
  get_elem?-set_cases (x ∷ xs) (suc i) zero v w e = inr (λ p. omega arith, e)
  get_elem?-set_cases (x ∷ xs) (suc i) (suc j) v w e = elim (get_elem?-set_cases xs i j v w e) [
    | inl (p, q) ↦ inl (omega arith, q)
    | inr (p, q) ↦ inr (λ r. p (omega arith), q)
  ]

  pub get_elem?-set_same :
      (xs : List A) (i : ℕ) (v w : A) → get_elem? xs i ≡ some w → get_elem? (set xs i v) i ≡ some v
  get_elem?-set_same [] i v w e = cc
  get_elem?-set_same (x ∷ xs) zero v w e = refl
  get_elem?-set_same (x ∷ xs) (suc i) v w e = get_elem?-set_same xs i v w e

  pub get_elem?-set_other :
      (xs : List A) (i j : ℕ) (v : A) → j ≢ i → get_elem? (set xs i v) j ≡ get_elem? xs j
  get_elem?-set_other [] i j v n = refl
  get_elem?-set_other (x ∷ xs) zero zero v n = absurd (n refl)
  get_elem?-set_other (x ∷ xs) zero (suc j) v n = refl
  get_elem?-set_other (x ∷ xs) (suc i) zero v n = refl
  get_elem?-set_other (x ∷ xs) (suc i) (suc j) v n =
      get_elem?-set_other xs i j v (λ e. n (omega arith))

-- A tab has a page of the heap, that may be deleted by now.
abbrev pub WasThere : ℕ → Tab → Type 0
WasThere size (title, page) = (0 < page) × (page ≤ size)

-- The channel with the page of a tab has the tab's text.
abbrev pub IsTitled : (Bytes → Bytes) → List ChannelData → Tab → Type 0
IsTitled text ds (title, page) =
    (i : ℕ) (d : ChannelData) → get_elem? ds i ≡ some d → d.page ≡ page → title ≡ text d.name

All-both :
    {P Q R : Tab → Type 0}
    → ((t : Tab) → P t → Q t → R t)
    → (tabs : List Tab) → All P tabs
    → All Q tabs
    → All R tabs
All-both f [] ps qs = tt
All-both f (t ∷ tabs) (p, ps) (q, qs) = (f t p q, All-both f tabs ps qs)

All-remove_tab :
    (P : Tab → Type 0) (k : ℕ) (tabs : List Tab) → All P tabs → All P (remove_tab k tabs)
unfolding remove_tab
All-remove_tab P k [] h = tt
All-remove_tab P zero (t ∷ tabs) h = h.1
All-remove_tab P (suc k) (t ∷ tabs) h = (h.0, All-remove_tab P k tabs h.1)

module _ {A : Type 0} where
  -- A page of an address is live.
  abbrev pub IsLive : List (Option A) → ℕ → Type 0
  IsLive pages q = (i : ℕ) × (p : A) × (q ≡ suc i) × (get_elem? pages i ≡ some (some p))

  IsLive-append :
      (pages : List (Option A)) (q : ℕ) (p : A) → IsLive pages q → IsLive (pages ++ (some p ∷ [])) q
  IsLive-append pages q p (i, r, e, at) =
      (i, r, e, get_elem?-append_left pages _ i (get_elem?-lt pages i (some r) at) ∙ at)

  pub IsLive-last :
      (pages : List (Option A)) (p : A) → IsLive (pages ++ (some p ∷ [])) (suc (length pages))
  IsLive-last pages p =
      (length pages, p, refl, get_elem?-append_last pages (some p) (length pages) refl)

  pub IsLive-le : (pages : List (Option A)) (q : ℕ) → IsLive pages q → q ≤ length pages
  IsLive-le pages q (i, r, e, at) = omega (arith, get_elem?-lt pages i (some r) at)

  IsLive-set :
      (pages : List (Option A)) (q i : ℕ) (v : Option A)
      → q ≢ suc i ⊎ ((p : A) × (v ≡ some p))
      → IsLive pages q
      → IsLive (set pages i v) q
  IsLive-set pages q i v other (j, r, e, at) = elim (ℕ_discrete j i) [
    | yes same ↦
        let here : get_elem? pages i ≡ some (some r) =
          subst (λ k. get_elem? pages k ≡ some (some r)) same at in
        elim other [
          | inl n ↦ absurd (n (omega arith))
          | inr (p, is_page) ↦
              (i, p, omega arith, get_elem?-set_same pages i v (some r) here ∙ ap some is_page)
        ]
    | no n ↦ (j, r, e, get_elem?-set_other pages i j v n ∙ at)
  ]

  -- What holds between the channels, the pages and the tabs: the channels have different texts, a
  -- channel has no page or a live one, a tab has a page that was there, and a channel with the page of
  -- a tab has the tab's text.
  pub record IsSound (text : Bytes → Bytes) (ds : List ChannelData) (pages : List (Option A))
      (tabs : List Tab) : Type 0 where
    pub distinct :
        (i j : ℕ) (d e : ChannelData)
        → get_elem? ds i ≡ some d
        → get_elem? ds j ≡ some e
        → text d.name ≡ text e.name
        → i ≡ j
    pub referenced :
        (i : ℕ) (d : ChannelData) → get_elem? ds i ≡ some d → (d.page ≡ 0) ⊎ IsLive pages d.page
    pub old_pages : All (WasThere (length pages)) tabs
    pub titled : All (IsTitled text ds) tabs

module _ {A : Type 0} (text : Bytes → Bytes) where
  -- A new page and its tab, of a text that no channel has to have.
  pub IsSound-add :
      (ds : List ChannelData) (pages : List (Option A)) (tabs : List Tab) (p : A) (title : Bytes)
      → IsSound text ds pages tabs
      → IsSound text ds (pages ++ (some p ∷ [])) (tabs ++ ((title, suc (length pages)) ∷ []))
  IsSound-add ds pages tabs p title s = record {
    distinct = s.distinct;
    referenced = λ i d at. elim (s.referenced i d at) [
      | inl no_page ↦ inl no_page
      | inr alive ↦ inr (IsLive-append pages d.page p alive)
    ];
    old_pages =
        All-append (WasThere (length (pages ++ (some p ∷ [])))) tabs
          ((title, suc (length pages)) ∷ [])
          (All-map (λ t (above, below). (above, omega (arith, length-append pages (some p ∷ []))))
            tabs s.old_pages)
          ((omega arith, omega (arith, length-append pages (some p ∷ []))), tt);
    titled = All-append (IsTitled text ds) tabs ((title, suc (length pages)) ∷ []) s.titled (
      (λ i d at e. elim (s.referenced i d at) [
        | inl no_page ↦ absurd (omega arith)
        | inr alive ↦ absurd (omega (arith, IsLive-le pages d.page alive))
      ]),
      tt,
    );
  }

  -- A channel's page is replaced by none or a live one, whose tabs have the channel's text.
  pub IsSound-replace :
      (ds : List ChannelData) (pages : List (Option A)) (tabs : List Tab) (i page : ℕ)
      (d : ChannelData)
      → get_elem? ds i ≡ some d
      → (page ≡ 0) ⊎ IsLive pages page
      → All (λ t. page ≡ t.1 → t.0 ≡ text d.name) tabs
      → IsSound text ds pages tabs
      → IsSound text (set ds i (record d { page = page })) pages tabs
  IsSound-replace ds pages tabs i page d at alive titles s =
      let named : (j : ℕ) (e : ChannelData)
          → get_elem? (set ds i (record d { page = page })) j ≡ some e
          → (e' : ChannelData) × (get_elem? ds j ≡ some e') × (e'.name ≡ e.name) =
        λ j e found. elim (get_elem?-set_cases ds i j (record d { page = page }) e found) [
          | inl (same, is_new) ↦ (d, rw same at, sym (ap (λ c. c.name) is_new))
          | inr (other, old) ↦ (e, old, refl)
        ] in
      record {
        distinct = λ j k e e' at_j at_k same.
            let (c, found, name) = named j e at_j in
            let (c', found', name') = named k e' at_k in
            s.distinct j k c c' found found' (ap text name ∙ same ∙ ap text (sym name'));
        referenced = λ j e found.
            elim (get_elem?-set_cases ds i j (record d { page = page }) e found) [
              | inl (same, is_new) ↦
                  subst (λ c. (c.page ≡ 0) ⊎ IsLive pages c.page) (sym is_new) alive
              | inr (other, old) ↦ s.referenced j e old
            ];
        old_pages = s.old_pages;
        titled =
            All-both
              (λ t old new j e found e_page.
                elim (get_elem?-set_cases ds i j (record d { page = page }) e found) [
                  | inl (same, is_new) ↦
                      new (sym (ap (λ c. c.page) is_new) ∙ e_page)
                      ∙ ap (λ c. text c.name) (sym is_new)
                  | inr (other, before) ↦ old j e before e_page
                ])
              tabs s.titled titles;
      }

  -- A page that no channel has is deleted, with a tab.
  pub IsSound-free :
      (ds : List ChannelData) (pages : List (Option A)) (tabs : List Tab) (k i : ℕ)
      → ((j : ℕ) (d : ChannelData) → get_elem? ds j ≡ some d → d.page ≢ suc i)
      → IsSound text ds pages tabs
      → IsSound text ds (set pages i none) (remove_tab k tabs)
  IsSound-free ds pages tabs k i unused s = record {
    distinct = s.distinct;
    referenced = λ j d at. elim (s.referenced j d at) [
      | inl no_page ↦ inl no_page
      | inr alive ↦ inr (IsLive-set pages d.page i none (inl (unused j d at)) alive)
    ];
    old_pages = All-remove_tab (WasThere (length (set pages i none))) k tabs (
        All-map (λ t (above, below). (above, omega (arith, length-set pages i none))) tabs
          s.old_pages);
    titled = All-remove_tab (IsTitled text ds) k tabs s.titled;
  }

  -- A live page is written.
  pub IsSound-write :
      (ds : List ChannelData) (pages : List (Option A)) (tabs : List Tab) (i : ℕ) (p : A)
      → IsSound text ds pages tabs
      → IsSound text ds (set pages i (some p)) tabs
  IsSound-write ds pages tabs i p s = record {
    distinct = s.distinct;
    referenced = λ j d at. elim (s.referenced j d at) [
      | inl no_page ↦ inl no_page
      | inr alive ↦ inr (IsLive-set pages d.page i (some p) (inr (p, refl)) alive)
    ];
    old_pages =
        All-map (λ t (above, below). (above, omega (arith, length-set pages i (some p)))) tabs
          s.old_pages;
    titled = s.titled;
  }
