-- ===== src/Viewer/Dialog/Outcome.antt =====
-- `ShowModal` of dlv/dlv_subscribedlg.cpp: what the user's checks come to.
use dill.Base.{
  ℕ, zero, suc, ◌+◌, ◌<◌, ◌≡◌, refl, sym, ap, ◌∙◌, subst, ◌≢◌, Bool, true, false, not, none, some,
  List, [], ◌∷◌, arith, Bytes, ◌==◌, if◌then◌else◌, length, get_elem?, get_elem?-lt, get_elem?-some,
  get_elem?-map,
}
use dill.Viewer.Desktop.{Desktop}
use dill.Viewer.App.{
  Dill, DlvApp, ChannelData, get_channel_names, is_channel_id_subscribed, is_channel_subscribed,
}
use dill.Viewer.Frame.{DlvFrame, do_subscribe_channel}
use dill.Viewer.Frame.Sound.{get_elem?-set_same, get_elem?-set_other}
use dill.Viewer.Frame.Steps.{text_of}
use dill.Viewer.Frame.Handlers.{channel_data-do_subscribe_channel}
use dill.Viewer.Dialog.{
  has_text, new_dialog, check_all, apply_check, apply_checks, show_modal, on_subscribe,
}
use dill.Viewer.Dialog.Checks.{AreTitles, has_page, was_subscribed_lem}
use dill.Viewer.Dialog.Safety.{length-check_list_box}

-- What holds of the first element and of the others holds of all.
get_elem?-cons_cases :
    {A : Type 0} (x : A) (xs : List A) (P : ℕ → A → Type 0)
    → P zero x
    → ((k : ℕ) (e : A) → get_elem? xs k ≡ some e → P (suc k) e)
    → (k : ℕ) (e : A) → get_elem? (x ∷ xs) k ≡ some e
    → P k e
get_elem?-cons_cases x xs P first others zero e found =
    let same : x ≡ e = cc in subst (P zero) same first
get_elem?-cons_cases x xs P first others (suc k) e found = others k e found

get_elem?-check_all :
    (checks : ℕ → Bool) (i k n : ℕ) (box : List (Bytes × Bool)) (text : Bytes) (shown : Bool)
    → get_elem? box k ≡ some (text, shown)
    → n ≡ i + k
    → get_elem? (check_all checks i box) k ≡ some (text, checks n)
unfolding check_all
get_elem?-check_all checks i k n [] text shown e h = cc
get_elem?-check_all checks i zero n ((t, s) ∷ box) text shown e h =
    let same : t ≡ text = ap (λ x. elim x [ none ↦ t | some c ↦ c.0 ]) e in
    let position : i ≡ n = omega arith in rw (same, position) refl
get_elem?-check_all checks i (suc k) n ((t, s) ∷ box) text shown e h =
    get_elem?-check_all checks (i + 1) k n box text shown e (omega arith)

-- The page of a subscription is one.
page-if : (b : Bool) (n : ℕ) → not ((if b then suc n else 0) == 0) ≡ b
page-if true n = ground arith
page-if false n = refl

is_channel_id_subscribed-same :
    (i : ℕ) (a b : DlvApp)
    → get_elem? a.channel_data i ≡ get_elem? b.channel_data i
    → is_channel_id_subscribed i a ≡ is_channel_id_subscribed i b
unfolding is_channel_id_subscribed
is_channel_id_subscribed-same i a b e = rw (is_channel_id_subscribed, e) refl

module _ (W : Desktop) (dill : Dill) (succeeds : (t : ℕ) → dill.subscribe_channel t ≡ true) where
  -- A channel is subscribed as wanted, and the others are left alone.
  pub record Applied (want : Bool) (i : ℕ) (f g : DlvFrame W) : Type 0 where
    pub others : (j : ℕ) → j ≢ i → get_elem? g.app.channel_data j ≡ get_elem? f.app.channel_data j
    pub subscribed : is_channel_id_subscribed i g.app ≡ want

  do_subscribe_channel-Applied :
      (b : Bool) (i : ℕ) (d : ChannelData) (f : DlvFrame W)
      → get_elem? f.app.channel_data i ≡ some d
      → Applied b i f (do_subscribe_channel W dill i b f)
  unfolding is_channel_id_subscribed
  do_subscribe_channel-Applied b i d f at =
      let page = if b then suc (length f.pages) else 0 in
      let changed = channel_data-do_subscribe_channel W dill i b d f at (succeeds f.app.calls) in
      record {
        others = λ j n. rw changed (get_elem?-set_other f.app.channel_data i j _ n);
        subscribed =
            rw
              (
                is_channel_id_subscribed,
                changed,
                get_elem?-set_same f.app.channel_data i (record d { page = page }) d at,
              )
              (page-if b (length f.pages));
      }

  apply_check-Applied :
      (was want : Bool) (i : ℕ) (d : ChannelData) (f : DlvFrame W)
      → get_elem? f.app.channel_data i ≡ some d
      → was ≡ has_page d
      → Applied want i f (apply_check W dill was want i f)
  unfolding apply_check is_channel_id_subscribed
  apply_check-Applied true true i d f at e = record {
    others = λ j n. refl;
    subscribed = rw (is_channel_id_subscribed, at) (sym e);
  }
  apply_check-Applied true false i d f at e = do_subscribe_channel-Applied false i d f at
  apply_check-Applied false true i d f at e = do_subscribe_channel-Applied true i d f at
  apply_check-Applied false false i d f at e = record {
    others = λ j n. refl;
    subscribed = rw (is_channel_id_subscribed, at) (sym e);
  }

  -- An entry is that of a channel, and tells whether it has a page.
  abbrev pub IsEntry : List Bytes → DlvFrame W → ℕ → Bytes → Type 0
  IsEntry subscribing_channels f i text =
      (d : ChannelData) × (get_elem? f.app.channel_data i ≡ some d)
      × (has_text text subscribing_channels ≡ has_page d)

  apply_checks_lem :
      (subs : List Bytes) (i : ℕ) (box : List (Bytes × Bool)) (f : DlvFrame W)
      → ((k : ℕ) (e : Bytes × Bool) → get_elem? box k ≡ some e → IsEntry subs f (i + k) e.0)
      → ((j : ℕ)
          → j < i
          → get_elem? (apply_checks W dill subs i box f).app.channel_data j
            ≡ get_elem? f.app.channel_data j)
        × ((k : ℕ) (e : Bytes × Bool)
            → get_elem? box k ≡ some e
            → is_channel_id_subscribed (i + k) (apply_checks W dill subs i box f).app ≡ e.1)
  unfolding apply_checks
  apply_checks_lem subs i [] f h = (λ j lt. refl, λ k e at. cc)
  apply_checks_lem subs i ((text, want) ∷ box) f h =
      let (d, at, was) = h zero (text, want) refl in
      let here : get_elem? f.app.channel_data i ≡ some d =
        subst (λ n. get_elem? f.app.channel_data n ≡ some d) (omega arith) at in
      let g = apply_check W dill (has_text text subs) want i f in
      let step = apply_check-Applied (has_text text subs) want i d f here was in
      let (before, after) = apply_checks_lem subs (i + 1) box g (λ k e found.
        let (d', at', was') = h (suc k) e found in
        let next : get_elem? f.app.channel_data (i + 1 + k) ≡ some d' =
          subst (λ n. get_elem? f.app.channel_data n ≡ some d') (omega arith) at' in
        (d', step.others (i + 1 + k) (λ eq. omega arith) ∙ next, was')) in
      let last = apply_checks W dill subs (i + 1) box g in
      (
        (λ j lt. before j (omega arith) ∙ step.others j (λ eq. omega arith)),
        get_elem?-cons_cases (text, want) box
            (λ k e. is_channel_id_subscribed (i + k) last.app ≡ e.1)
            (subst (λ n. is_channel_id_subscribed n last.app ≡ want) (omega arith)
              (is_channel_id_subscribed-same i last.app g.app (before i (omega arith))
                ∙ step.subscribed))
            (λ k e found.
              subst (λ n. is_channel_id_subscribed n last.app ≡ e.1) (omega arith)
                (after k e found)),
      )

  -- The entry of a channel in the box.
  entry_at :
      (checks : ℕ → Bool) (a : DlvApp) (k : ℕ) (d : ChannelData)
      → get_elem? a.channel_data k ≡ some d
      → get_elem? (check_all checks 0 (new_dialog W.from_utf8 a).check_list_box) k
        ≡ some (text_of W d.name, checks k)
  unfolding new_dialog get_channel_names
  entry_at checks a k d at =
      get_elem?-check_all checks 0 k k _ (text_of W d.name) (is_channel_subscribed d.name a)
        (get_elem?-map (λ name. (text_of W name, is_channel_subscribed name a))
          (get_channel_names a) k d.name
          (get_elem?-map (λ (d : ChannelData). d.name) a.channel_data k d at))
        (omega arith)

  IsEntry-box :
      (checks : ℕ → Bool) (f : DlvFrame W) (k : ℕ) (e : Bytes × Bool)
      → AreTitles (text_of W) f.app.channel_data
      → get_elem? (check_all checks 0 (new_dialog W.from_utf8 f.app).check_list_box) k ≡ some e
      → IsEntry (new_dialog W.from_utf8 f.app).subscribing_channels f k e.0
  IsEntry-box checks f k e v found =
      let inside : k < length f.app.channel_data =
        omega (arith, get_elem?-lt _ k e found, length-check_list_box W dill checks f.app) in
      let (d, at) = get_elem?-some f.app.channel_data k inside in
      let both : some (text_of W d.name, checks k) ≡ some e =
        sym (entry_at checks f.app k d at) ∙ found in
      let text : text_of W d.name ≡ e.0 = ap (λ x. elim x [ none ↦ [] | some c ↦ c.0 ]) both in
      let was = was_subscribed_lem W.from_utf8 f.app k d v at in
      (
        d,
        at,
        ap (λ t. has_text t (new_dialog W.from_utf8 f.app).subscribing_channels) (sym text) ∙ was,
      )

  -- On a frame whose channels have different texts, whatever its pages and tabs are, and where each
  -- call that subscribes succeeds: a confirmed dialogue leaves each channel with the address of a page
  -- if its box is checked and without one if it is not, and a dialogue that is not confirmed changes
  -- nothing.
  pub on_subscribe_lem :
      (checks : ℕ → Bool) (f : DlvFrame W)
      → AreTitles (text_of W) f.app.channel_data
      → (on_subscribe W dill false checks f ≡ f)
        × ((i : ℕ)
            → i < length f.app.channel_data
            → is_channel_id_subscribed i (on_subscribe W dill true checks f).app ≡ checks i)
  unfolding on_subscribe show_modal
  on_subscribe_lem checks f v =
      let d = new_dialog W.from_utf8 f.app in
      let box = check_all checks 0 d.check_list_box in
      let (_, applied) = apply_checks_lem d.subscribing_channels 0 box f (λ k e found.
        subst (λ n. IsEntry d.subscribing_channels f n e.0) (omega arith)
          (IsEntry-box checks f k e v found)) in
      (
        refl,
        λ i h.
            let (c, at) = get_elem?-some f.app.channel_data i h in
            let last = (apply_checks W dill d.subscribing_channels 0 box f).app in
            subst (λ n. is_channel_id_subscribed n last ≡ checks i) (omega arith)
              (applied i (text_of W c.name, checks i) (entry_at checks f.app i c at)),
      )
