-- ===== src/Viewer/Frame/Handlers.antt =====
-- The handlers of dlv/dlv_frame.cpp for the events of the application and for what the user does to a
-- page: none meets a deleted page.
use dill.Base.{
  ℕ, zero, suc, ◌<◌, ◌≡◌, refl, ap, ◌⊎◌, inl, inr, Bool, true, false, ◌&&◌, none, some, arith,
  Fault, use_after_free, Result, ok, err, ltb, ◌==◌, if◌then◌else◌, Bool-cases, Option-cases,
  length, get_elem?, set, length-set, get_elem?-some, All-set, All-get_elem?,
}
use dill.Viewer.Events.{DlvEvtDataConnStatus, DlvDillEvent, conn_stat, log_data, reg_data}
use dill.Viewer.Desktop.{Desktop}
use dill.Viewer.Page.{DlvChannelPage, PageEvent, on_append_log, on_update_register}
use dill.Viewer.Page.Rendering.{HasPriority}
use dill.Viewer.Page.Rows.{Shows, append-Shows, register-Shows, EventOk, event-Shows}
use dill.Viewer.App.{
  ChannelData, get_channel_name, Dill, DlvApp, get_channel_page_by_id, subscribe_channel,
}
use dill.Viewer.Frame.{
  DlvFrame, do_subscribe_channel, page_at, put_page, with_page, on_update_conn_stat,
  on_dill_log_data, on_dill_register_update, on_dill_event, on_page_clicked, free_page, find_tab,
}
use dill.Viewer.Frame.Sound.{IsLive, IsSound-write}
use dill.Viewer.Frame.Steps.{IsSafe, PageOk, subscribe-IsSafe, text_of}

module _ (W : Desktop) where
  -- A handler returns, and what holds of the frame holds behind it, with as many channels.
  pub record Runs (f : DlvFrame W) (r : Result (DlvFrame W)) : Type 0 where
    pub after : DlvFrame W
    pub returned : r ≡ ok after
    pub safe : IsSafe W after
    pub size : length after.app.channel_data ≡ length f.app.channel_data

  pub length-subscribe_channel :
      (dill : Dill) (i page : ℕ) (b : Bool) (a : DlvApp)
      → length (subscribe_channel dill i page b a).1.channel_data ≡ length a.channel_data
  unfolding subscribe_channel
  length-subscribe_channel dill i page b a = elim (Option-cases (get_elem? a.channel_data i)) [
    | inl e ↦ rw (subscribe_channel, e) refl
    | inr (d, e) ↦ elim (Bool-cases (dill.subscribe_channel a.calls)) [
      | inl done ↦ rw (subscribe_channel, e, done) (length-set a.channel_data i _)
      | inr failed ↦ rw (subscribe_channel, e, failed) refl
    ]
  ]

  put_page-IsSafe :
      (q : ℕ) (p : DlvChannelPage W.lists) (f : DlvFrame W)
      → IsSafe W f
      → Shows W.lists W.date p
      → IsSafe W (put_page W q p f)
  unfolding put_page
  put_page-IsSafe zero p f v shows = v
  put_page-IsSafe (suc i) p f v shows = record {
    sound =
        IsSound-write (text_of W) f.app.channel_data f.pages (W.tabs f.channel_notebook) i p
          v.sound;
    shown = All-set (PageOk W) f.pages i (some p) v.shown shows;
  }

  put_page_app :
      (q : ℕ) (p : DlvChannelPage W.lists) (f : DlvFrame W) → (put_page W q p f).app ≡ f.app
  unfolding put_page
  put_page_app zero p f = refl
  put_page_app (suc i) p f = refl

  page_at-IsLive :
      (q : ℕ) (f : DlvFrame W)
      → IsSafe W f
      → IsLive f.pages q
      → (p : DlvChannelPage W.lists) × (page_at W q f ≡ ok p) × Shows W.lists W.date p
  unfolding page_at
  page_at-IsLive q f v (i, p, e, at) =
      (p, rw (e, page_at, at) refl, All-get_elem? (PageOk W) f.pages i (some p) v.shown at)

  page_at-cases :
      (q : ℕ) (f : DlvFrame W)
      → IsSafe W f
      → ((fault : Fault) × (page_at W q f ≡ err fault))
        ⊎ ((p : DlvChannelPage W.lists) × (page_at W q f ≡ ok p) × Shows W.lists W.date p)
  unfolding page_at
  page_at-cases zero f v = inl (use_after_free, refl)
  page_at-cases (suc i) f v = elim (Option-cases (get_elem? f.pages i)) [
    | inl e ↦ inl (use_after_free, rw (page_at, e) refl)
    | inr (none, e) ↦ inl (use_after_free, rw (page_at, e) refl)
    | inr (some p, e) ↦ inr (page_at-IsLive (suc i) f v (i, p, refl, e))
  ]

  -- An act that keeps what a page shows is done to the page of a channel, if it has one.
  with_page-Runs :
      (channel : ℕ) (act : DlvChannelPage W.lists → Result (DlvChannelPage W.lists))
      (f : DlvFrame W)
      → channel < length f.app.channel_data
      → ((p : DlvChannelPage W.lists)
          → Shows W.lists W.date p
          → (p' : DlvChannelPage W.lists) × (act p ≡ ok p') × Shows W.lists W.date p')
      → IsSafe W f
      → Runs f (with_page W channel act f)
  unfolding with_page get_channel_page_by_id
  with_page-Runs channel act f h keeps v =
      let (d, e) = get_elem?-some f.app.channel_data channel h in
      elim (Bool-cases (d.page == 0)) [
        | inl none_there ↦ record {
          after = f;
          returned = rw (with_page, get_channel_page_by_id, e, none_there) refl;
          safe = v;
          size = refl;
        }
        | inr there ↦ elim (v.sound.referenced channel d e) [
          | inl none_there ↦ absurd (ground arith)
          | inr alive ↦
              let (p, found, shows) = page_at-IsLive d.page f v alive in
              let (p', done, shows') = keeps p shows in
              record {
                after = put_page W d.page p' f;
                returned = rw (with_page, get_channel_page_by_id, e, there, found, done) refl;
                safe = put_page-IsSafe d.page p' f v shows';
                size = ap (λ a. length a.channel_data) (put_page_app d.page p' f);
              }
        ]
      ]

  -- An event is about one of the channels, and a log has one of the five priorities.
  abbrev pub Fits : ℕ → DlvDillEvent → Type 0
  Fits size (conn_stat d) = Unit
  Fits size (log_data d) = (d.channel < size) × HasPriority d
  Fits size (reg_data d) = d.channel < size

  -- The fields beside the channels, the tabs and the pages do not matter.
  IsSafe-same :
      (f g : DlvFrame W)
      → g.app.channel_data ≡ f.app.channel_data
      → g.pages ≡ f.pages
      → g.channel_notebook ≡ f.channel_notebook
      → IsSafe W f
      → IsSafe W g
  IsSafe-same f g channels pages notebook v = record {
    sound = rw (channels, pages, notebook) v.sound;
    shown = rw pages v.shown;
  }

  pub on_update_conn_stat-IsSafe :
      (dill : Dill) (d : DlvEvtDataConnStatus) (f : DlvFrame W)
      → IsSafe W f
      → IsSafe W (on_update_conn_stat W dill d f)
        × (length (on_update_conn_stat W dill d f).app.channel_data ≡ length f.app.channel_data)
  unfolding do_subscribe_channel on_update_conn_stat
  on_update_conn_stat-IsSafe dill d f v =
      let f' = record f { status = some d } in
      let v' = IsSafe-same f f' refl refl refl v in
      elim (Bool-cases (f.waiting_first_channel && ltb 0 d.channel_num)) [
        | inl first ↦
            rw (on_update_conn_stat, first)
              (
                IsSafe-same (do_subscribe_channel W dill 0 true f') _ refl refl refl
                    (subscribe-IsSafe W dill 0 f' v'),
                length-subscribe_channel dill 0 (suc (length f.pages)) true f.app,
              )
        | inr later ↦ rw (on_update_conn_stat, later) (v', refl)
      ]

  pub on_dill_event-Runs :
      (dill : Dill) (e : DlvDillEvent) (f : DlvFrame W)
      → Fits (length f.app.channel_data) e
      → IsSafe W f
      → Runs f (on_dill_event W dill e f)
  unfolding on_dill_event on_dill_log_data on_dill_register_update
  on_dill_event-Runs dill (conn_stat d) f h v =
      let (safe, size) = on_update_conn_stat-IsSafe dill d f v in
      record { after = on_update_conn_stat W dill d f; returned = refl; safe = safe; size = size }
  on_dill_event-Runs dill (log_data d) f (h, priority) v =
      with_page-Runs d.channel (on_append_log W.lists W.date d) f h
        (λ p shows.
          let (p', returned, shows', _) = append-Shows W.lists W.date d p priority shows in
          (p', returned, shows'))
        v
  on_dill_event-Runs dill (reg_data d) f h v =
      with_page-Runs d.channel (λ p. ok (on_update_register W.lists d p)) f h
        (λ p shows. (on_update_register W.lists d p, refl, register-Shows W.lists W.date d p shows))
        v

  pub on_page_clicked-Runs :
      (page : ℕ) (e : PageEvent) (f : DlvFrame W)
      → EventOk W.lists W.date e
      → IsSafe W f
      → Runs f (on_page_clicked W page e f)
  unfolding on_page_clicked
  on_page_clicked-Runs page e f h v = elim (page_at-cases page f v) [
    | inl (fault, gone) ↦ record {
      after = f;
      returned = rw (on_page_clicked, gone) refl;
      safe = v;
      size = refl;
    }
    | inr (p, found, shows) ↦
        let (p', done, shows') = event-Shows W.lists W.date e p h shows in
        record {
          after = put_page W page p' f;
          returned = rw (on_page_clicked, found, done) refl;
          safe = put_page-IsSafe page p' f v shows';
          size = ap (λ a. length a.channel_data) (put_page_app page p' f);
        }
  ]

  pub length-do_subscribe_channel :
      (dill : Dill) (i : ℕ) (b : Bool) (f : DlvFrame W)
      → length (do_subscribe_channel W dill i b f).app.channel_data ≡ length f.app.channel_data
  unfolding do_subscribe_channel free_page
  length-do_subscribe_channel dill i true f =
      length-subscribe_channel dill i (suc (length f.pages)) true f.app
  length-do_subscribe_channel dill i false f =
      elim (Option-cases
        (find_tab (W.from_utf8 (get_channel_name i f.app)) (W.tabs f.channel_notebook))) [
          | inl nowhere ↦
              rw (do_subscribe_channel, nowhere) (length-subscribe_channel dill i 0 false f.app)
          | inr ((k, zero), found) ↦
              rw (do_subscribe_channel, found) (length-subscribe_channel dill i 0 false f.app)
          | inr ((k, suc page), found) ↦
              rw (do_subscribe_channel, found) (length-subscribe_channel dill i 0 false f.app)
        ]

  -- A call that subscribes and succeeds changes the page of its channel.
  pub channel_data-do_subscribe_channel :
      (dill : Dill) (i : ℕ) (b : Bool) (d : ChannelData) (f : DlvFrame W)
      → get_elem? f.app.channel_data i ≡ some d
      → dill.subscribe_channel f.app.calls ≡ true
      → (do_subscribe_channel W dill i b f).app.channel_data
        ≡ set f.app.channel_data i (record d { page = if b then suc (length f.pages) else 0 })
  unfolding do_subscribe_channel subscribe_channel free_page
  channel_data-do_subscribe_channel dill i true d f at done =
      rw (do_subscribe_channel, subscribe_channel, at, done) refl
  channel_data-do_subscribe_channel dill i false d f at done =
      elim (Option-cases
        (find_tab (W.from_utf8 (get_channel_name i f.app)) (W.tabs f.channel_notebook))) [
          | inl nowhere ↦ rw (do_subscribe_channel, nowhere, subscribe_channel, at, done) refl
          | inr ((k, zero), found) ↦
              rw (do_subscribe_channel, found, subscribe_channel, at, done) refl
          | inr ((k, suc page), found) ↦
              rw (do_subscribe_channel, found, subscribe_channel, at, done) refl
        ]
