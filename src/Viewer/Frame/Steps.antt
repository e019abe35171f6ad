-- ===== src/Viewer/Frame/Steps.antt =====
-- The handlers of dlv/dlv_frame.cpp keep the pages, the tabs and the channels together, and meet no
-- deleted page.
use dill.Base.{
  ℕ, zero, suc, ◌<◌, ◌≡◌, refl, sym, ap, ◌∙◌, ◌≢◌, ◌⊎◌, inl, inr, true, false, Option, none, some,
  List, [], ◌∷◌, ◌++◌, arith, Bytes, c_str, Bool-cases, Option-cases, bytes_eq, bytes_eq→eq, length,
  get_elem?, set, get_elem?-some, All, All-append, All-set, All-map,
}
use dill.Viewer.Desktop.{Desktop, Tab}
use dill.Viewer.Page.{DlvChannelPage, live, new_page}
use dill.Viewer.Page.Rendering.{visible}
use dill.Viewer.Page.Rows.{Shows}
use dill.Viewer.App.{Dill, DlvApp, ChannelData, get_channel_name, subscribe_channel}
use dill.Viewer.Frame.{DlvFrame, do_subscribe_channel, find_tab, free_page}
use dill.Viewer.Frame.Sound.{
  IsSound, IsLive-last, IsSound-add, IsSound-replace, IsSound-free, IsTitled, WasThere,
  get_elem?-set_same,
}

-- The tab that is found has the text, and stands among the tabs.
find_tab-All :
    (P : Tab → Type 0) (text : Bytes) (tabs : List Tab) (k page : ℕ)
    → find_tab text tabs ≡ some (k, page)
    → All P tabs
    → P (text, page)
unfolding find_tab
find_tab-All P text [] k page e h = cc
find_tab-All P text ((other, q) ∷ tabs) k page e h = elim (Bool-cases (bytes_eq other text)) [
  | inl same ↦
      let here : Path (Option (ℕ × ℕ)) (some (zero, q)) (some (k, page)) =
        rw (find_tab, same) at e in
      let found : q ≡ page = cc in
      let texts : other ≡ text = bytes_eq→eq other text same in rw (← found, ← texts) h.0
  | inr differs ↦ elim (Option-cases (find_tab text tabs)) [
    | inl nowhere ↦
        let none_found : Path (Option (ℕ × ℕ)) none (some (k, page)) =
          rw (find_tab, differs, nowhere) at e in
        cc
    | inr ((k', page'), later) ↦
        let there : Path (Option (ℕ × ℕ)) (some (suc k', page')) (some (k, page)) =
          rw (find_tab, differs, later) at e in
        let found : page' ≡ page = cc in rw (← found) (find_tab-All P text tabs k' page' later h.1)
  ]
]

module _ (W : Desktop) where
  -- The list of a page shows its logs, unless the page was deleted.
  abbrev pub PageOk : Option (DlvChannelPage W.lists) → Type 0
  PageOk none = Unit
  PageOk (some p) = Shows W.lists W.date p

  -- The text of a channel's tab.
  abbrev pub text_of : Bytes → Bytes
  text_of name = W.from_utf8 (c_str name)

  -- What holds of the frame between two handlers.
  pub record IsSafe (f : DlvFrame W) : Type 0 where
    pub sound : IsSound text_of f.app.channel_data f.pages (W.tabs f.channel_notebook)
    pub shown : All PageOk f.pages

  new_page-Shows : Shows W.lists W.date (new_page W.lists live W.new_list W.new_list)
  unfolding new_page visible
  new_page-Shows = record { shown = W.rows-new_list; priorities = tt }

  -- A subscription leaves the channels or gives one its page.
  subscribe_channel-cases :
      (dill : Dill) (i page : ℕ) (a : DlvApp)
      → ((subscribe_channel dill i page true a).1.channel_data ≡ a.channel_data)
        ⊎ ((d : ChannelData) × (get_elem? a.channel_data i ≡ some d)
            × ((subscribe_channel dill i page true a).1.channel_data
                ≡ set a.channel_data i (record d { page = page })))
  unfolding subscribe_channel
  subscribe_channel-cases dill i page a = elim (Option-cases (get_elem? a.channel_data i)) [
    | inl e ↦ inl (rw (subscribe_channel, e) refl)
    | inr (d, e) ↦ elim (Bool-cases (dill.subscribe_channel a.calls)) [
      | inl done ↦ inr (d, e, rw (subscribe_channel, e, done) refl)
      | inr failed ↦ inl (rw (subscribe_channel, e, failed) refl)
    ]
  ]

  -- A page below a tab with the text of a channel that has no page is no channel's.
  unused_page :
      (name : Bytes) (i page : ℕ) (ds : List ChannelData)
      (pages : List (Option (DlvChannelPage W.lists))) (tabs : List Tab)
      → get_elem? ds i ≡ some (record { page = 0; name = name })
      → IsTitled text_of ds (text_of name, suc page)
      → IsSound text_of ds pages tabs
      → (j : ℕ) (e : ChannelData) → get_elem? ds j ≡ some e
      → e.page ≢ suc page
  unused_page name i page ds pages tabs here titled s j e at is_page =
      let d : ChannelData = record { page = 0; name = name } in
      let same : i ≡ j = s.distinct i j d e here at (titled j e at is_page) in
      let both : some d ≡ some e = sym here ∙ ap (get_elem? ds) same ∙ at in
      let none_there : 0 ≡ e.page = ap (λ x. elim x [ none ↦ 0 | some c ↦ c.page ]) both in
      absurd (omega arith)

  unsubscribe-set :
      (dill : Dill) (i : ℕ) (d : ChannelData) (a : DlvApp)
      → get_elem? a.channel_data i ≡ some d
      → dill.subscribe_channel a.calls ≡ true
      → (subscribe_channel dill i 0 false a).1.channel_data
        ≡ set a.channel_data i (record d { page = 0 })
  unfolding subscribe_channel
  unsubscribe-set dill i d a e done = rw (subscribe_channel, e, done) refl

  pub subscribe-IsSafe :
      (dill : Dill) (i : ℕ) (f : DlvFrame W)
      → IsSafe f
      → IsSafe (do_subscribe_channel W dill i true f)
  unfolding do_subscribe_channel get_channel_name
  subscribe-IsSafe dill i f v =
      let new = suc (length f.pages) in
      let p = new_page W.lists live W.new_list W.new_list in
      let title = W.from_utf8 (get_channel_name i f.app) in
      let pages = f.pages ++ (some p ∷ []) in
      let tabs = W.tabs f.channel_notebook ++ ((title, new) ∷ []) in
      let added =
        IsSound-add text_of f.app.channel_data f.pages (W.tabs f.channel_notebook) p title
          v.sound in
      let titles : (d : ChannelData)
          → get_elem? f.app.channel_data i ≡ some d
          → All (λ t. new ≡ t.1 → t.0 ≡ text_of d.name) tabs =
        λ d e.
          All-append (λ t. new ≡ t.1 → t.0 ≡ text_of d.name) (W.tabs f.channel_notebook)
            ((title, new) ∷ [])
            (All-map (λ t (above, below) is_new. absurd (omega arith)) (W.tabs f.channel_notebook)
              v.sound.old_pages)
            ((λ _. ap W.from_utf8 (rw (get_channel_name, e) refl)), tt) in
      let after : IsSound text_of (subscribe_channel dill i new true f.app).1.channel_data pages
          tabs =
        elim (subscribe_channel-cases dill i new f.app) [
          | inl same ↦ rw same added
          | inr (d, e, changed) ↦ rw changed (
              IsSound-replace text_of f.app.channel_data pages tabs i new d e
                (inr (IsLive-last f.pages p)) (titles d e) added)
        ] in
      record {
        sound = rw (W.tabs-add_page new title f.channel_notebook) after;
        shown = All-append PageOk f.pages (some p ∷ []) v.shown (new_page-Shows, tt);
      }

  pub unsubscribe-IsSafe :
      (dill : Dill) (i : ℕ) (f : DlvFrame W)
      → ((t : ℕ) → dill.subscribe_channel t ≡ true)
      → i < length f.app.channel_data
      → IsSafe f
      → IsSafe (do_subscribe_channel W dill i false f)
  unfolding do_subscribe_channel get_channel_name free_page
  unsubscribe-IsSafe dill i f succeeds h v =
      let (d, e) = get_elem?-some f.app.channel_data i h in
      let ds = set f.app.channel_data i (record d { page = 0 }) in
      let tabs = W.tabs f.channel_notebook in
      let cleared : IsSound text_of ds f.pages tabs =
        IsSound-replace text_of f.app.channel_data f.pages tabs i 0 d e (inl refl)
          (All-map (λ t (above, below) is_none. absurd (omega arith)) tabs v.sound.old_pages)
          v.sound in
      let changed = unsubscribe-set dill i d f.app e (succeeds f.app.calls) in
      let title : get_channel_name i f.app ≡ c_str d.name = rw (get_channel_name, e) refl in
      rw (do_subscribe_channel, title)
        (elim (Option-cases (find_tab (text_of d.name) tabs)) [
          | inl nowhere ↦ rw nowhere (record { sound = rw changed cleared; shown = v.shown })
          | inr ((k, zero), found) ↦ absurd (
              omega (
                arith,
                (find_tab-All (WasThere (length f.pages)) (text_of d.name) tabs k 0 found
                    v.sound.old_pages).0,
              ))
          | inr ((k, suc page), found) ↦
              let here = get_elem?-set_same f.app.channel_data i (record d { page = 0 }) d e in
              let titled =
                find_tab-All (IsTitled text_of ds) (text_of d.name) tabs k (suc page) found
                  cleared.titled in
              rw found (record {
                sound =
                    rw (W.tabs-delete_page k f.channel_notebook, changed)
                      (IsSound-free text_of ds f.pages tabs k page
                        (unused_page d.name i page ds f.pages tabs here titled cleared) cleared);
                shown = All-set PageOk f.pages page none v.shown tt;
              })
        ])
