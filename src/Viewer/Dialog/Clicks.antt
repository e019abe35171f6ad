-- ===== src/Viewer/Dialog/Clicks.antt =====
-- When the user can ask for the subscription dialogue by the bars of dlv/dlv_frame.cpp.

use dill.Viewer.Desktop.{Desktop}
use dill.Viewer.App.{get_channel_name, Dill, DlvApp, get_channel_page_by_id, subscribe_channel}
use dill.Viewer.Events.{DlvEvtDataConnStatus, conn_stat, log_data, reg_data}
use dill.Viewer.Page.{DlvChannelPage}
use dill.Viewer.Frame.{
  DlvFrame, new_frame, find_tab, do_subscribe_channel, on_update_conn_stat, on_dill_event,
  on_dill_log_data, on_dill_register_update, with_page, page_at, put_page, free_page, on_close,
  on_page_clicked,
}
use dill.Viewer.Dialog.{
  has_text, FrameEvent, dill_event, subscribe_clicked, page_clicked, closed, on_frame_event,
  on_frame_events, on_subscribe, show_modal, apply_checks, apply_check, on_click, on_handler,
}
use dill.Viewer.Bars.{
  dlv, tool_subscribe, setup_menu_bar, setup_tool_bar, enable, enable_item, is_enabled,
  is_item_enabled, same_id, dlv_id, handler_of, wx_exit,
}
use dill.Base.{
  ℕ, zero, suc, ◌+◌, ◌≡◌, refl, ap, ◌∙◌, subst, ◌⊎◌, inl, inr, Bool, true, false, not, ◌&&◌, List,
  [], ◌∷◌, Bytes, Result, ok, err, ◌>>=◌, ltb, ◌==◌, if◌then◌else◌, Bool-cases, Option-cases,
}

-- The bars as they were made, or with the entry for the subscriptions enabled.
abbrev Bars : {W : Desktop} → DlvFrame W → Type 0
Bars f =
    ((f.waiting_first_channel ≡ true)
      × (f.menu_bar ≡ setup_menu_bar)
      × (f.tool_bar ≡ setup_tool_bar))
    ⊎ ((f.waiting_first_channel ≡ false)
        × (f.menu_bar ≡ enable_item (dlv tool_subscribe) true setup_menu_bar)
        × (f.tool_bar ≡ enable (dlv tool_subscribe) true setup_tool_bar))

-- Nothing but the status changes the bars.
abbrev SameBars : {W : Desktop} → DlvFrame W → DlvFrame W → Type 0
SameBars f g =
    (g.waiting_first_channel ≡ f.waiting_first_channel)
    × (g.menu_bar ≡ f.menu_bar)
    × (g.tool_bar ≡ f.tool_bar)

SameBars-Bars : {W : Desktop} (f g : DlvFrame W) → SameBars f g → Bars f → Bars g
SameBars-Bars f g (w, m, t) (inl (a, b, c)) = inl (w ∙ a, m ∙ b, t ∙ c)
SameBars-Bars f g (w, m, t) (inr (a, b, c)) = inr (w ∙ a, m ∙ b, t ∙ c)

module _ (W : Desktop) where
  abbrev Keeps : DlvFrame W → Result (DlvFrame W) → Type 0
  Keeps f (ok g) = SameBars f g
  Keeps f (err fault) = Unit {0}

  Keeps-bind :
      {A : Type 0} (f : DlvFrame W) (r : Result A) (next : A → Result (DlvFrame W))
      → ((a : A) → Keeps f (next a))
      → Keeps f (r >>= next)
  Keeps-bind f (ok a) next h = h a
  Keeps-bind f (err fault) next h = tt

  put_page-SameBars :
      (page : ℕ) (p : DlvChannelPage W.lists) (f : DlvFrame W) → SameBars f (put_page W page p f)
  unfolding put_page
  put_page-SameBars zero p f = (refl, refl, refl)
  put_page-SameBars (suc i) p f = (refl, refl, refl)

  free_page-SameBars : (page : ℕ) (f : DlvFrame W) → SameBars f (free_page W page f)
  unfolding free_page
  free_page-SameBars zero f = (refl, refl, refl)
  free_page-SameBars (suc i) f = (refl, refl, refl)

  do_subscribe_channel-SameBars :
      (dill : Dill) (i : ℕ) (on : Bool) (f : DlvFrame W)
      → SameBars f (do_subscribe_channel W dill i on f)
  unfolding do_subscribe_channel
  do_subscribe_channel-SameBars dill i true f = (refl, refl, refl)
  do_subscribe_channel-SameBars dill i false f =
      let text = W.from_utf8 (get_channel_name i f.app) in
      elim (Option-cases (find_tab text (W.tabs f.channel_notebook))) [
        | inl e ↦ rw (do_subscribe_channel, e) (refl, refl, refl)
        | inr ((k, page), e) ↦
            rw (do_subscribe_channel, e)
              (free_page-SameBars page
                (record f { app = (subscribe_channel dill i 0 false f.app).1 }))
      ]

  apply_check-SameBars :
      (dill : Dill) (was want : Bool) (i : ℕ) (f : DlvFrame W)
      → SameBars f (apply_check W dill was want i f)
  unfolding apply_check
  apply_check-SameBars dill true true i f = (refl, refl, refl)
  apply_check-SameBars dill true false i f = do_subscribe_channel-SameBars dill i false f
  apply_check-SameBars dill false true i f = do_subscribe_channel-SameBars dill i true f
  apply_check-SameBars dill false false i f = (refl, refl, refl)

  apply_checks-SameBars :
      (dill : Dill) (subs : List Bytes) (i : ℕ) (box : List (Bytes × Bool)) (f : DlvFrame W)
      → SameBars f (apply_checks W dill subs i box f)
  unfolding apply_checks
  apply_checks-SameBars dill subs i [] f = (refl, refl, refl)
  apply_checks-SameBars dill subs i ((text, want) ∷ box) f =
      let g = apply_check W dill (has_text text subs) want i f in
      let (w, m, t) = apply_check-SameBars dill (has_text text subs) want i f in
      let (w', m', t') = apply_checks-SameBars dill subs (i + 1) box g in (w' ∙ w, m' ∙ m, t' ∙ t)

  on_subscribe-SameBars :
      (dill : Dill) (confirmed : Bool) (checks : ℕ → Bool) (f : DlvFrame W)
      → SameBars f (on_subscribe W dill confirmed checks f)
  unfolding on_subscribe show_modal
  on_subscribe-SameBars dill true checks f = apply_checks-SameBars dill _ 0 _ f
  on_subscribe-SameBars dill false checks f = (refl, refl, refl)

  with_page-Keeps :
      (channel : ℕ) (act : DlvChannelPage W.lists → Result (DlvChannelPage W.lists))
      (f : DlvFrame W)
      → Keeps f (with_page W channel act f)
  unfolding with_page
  with_page-Keeps channel act f = Keeps-bind f (get_channel_page_by_id channel f.app) _ (λ page.
      elim (Bool-cases (page == 0)) [
        | inl e ↦ rw e (refl, refl, refl)
        | inr e ↦ rw e (
            Keeps-bind f (page_at W page f) _
              (λ p. Keeps-bind f (act p) _ (λ q. put_page-SameBars page q f)))
      ])

  on_page_clicked-Keeps :
      (page : ℕ) (e : dill.Viewer.Page.PageEvent) (f : DlvFrame W)
      → Keeps f (on_page_clicked W page e f)
  unfolding on_page_clicked
  on_page_clicked-Keeps page e f = go (page_at W page f) refl
    where
      go :
          (r : Result (DlvChannelPage W.lists))
          → page_at W page f ≡ r
          → Keeps f (on_page_clicked W page e f)
      go (err fault) at = rw (on_page_clicked, at) (refl, refl, refl)
      go (ok p) at =
          rw (on_page_clicked, at)
            (Keeps-bind f (dill.Viewer.Page.on_page_event W.lists W.date e p)
              (λ q. ok (put_page W page q f)) (λ q. put_page-SameBars page q f))

  -- The status of a server with channels enables the entries.
  on_update_conn_stat-Bars :
      (dill : Dill) (d : DlvEvtDataConnStatus) (f : DlvFrame W)
      → Bars f
      → Bars (on_update_conn_stat W dill d f)
  unfolding on_update_conn_stat
  on_update_conn_stat-Bars dill d f b =
      elim (Bool-cases (f.waiting_first_channel && ltb 0 d.channel_num)) [
        | inl e ↦ rw e (elim b [
          | inl (w, m, t) ↦ inr (
            refl,
            ap (enable_item (dlv tool_subscribe) true) m,
            ap (enable (dlv tool_subscribe) true) t,
          )
          | inr (w, m, t) ↦ let no : false && ltb 0 d.channel_num ≡ true = rw w at e in cc
        ])
        | inr e ↦ rw e b
      ]

  -- What holds of the bars of the frame that a handler returns, if it does.
  abbrev BarsOf : Result (DlvFrame W) → Type 0
  BarsOf (ok f) = Bars f
  BarsOf (err fault) = Unit {0}

  Keeps-BarsOf : (f : DlvFrame W) (r : Result (DlvFrame W)) → Keeps f r → Bars f → BarsOf r
  Keeps-BarsOf f (ok g) k b = SameBars-Bars f g k b
  Keeps-BarsOf f (err fault) k b = tt

  on_frame_event-Bars :
      (dill : Dill) (e : FrameEvent) (f : DlvFrame W) → Bars f → BarsOf (on_frame_event W dill e f)
  unfolding on_frame_event on_dill_event on_dill_log_data on_dill_register_update on_close
  on_frame_event-Bars dill (dill_event (conn_stat d)) f b = on_update_conn_stat-Bars dill d f b
  on_frame_event-Bars dill (dill_event (log_data d)) f b =
      Keeps-BarsOf f _ (with_page-Keeps d.channel _ f) b
  on_frame_event-Bars dill (dill_event (reg_data d)) f b =
      Keeps-BarsOf f _ (with_page-Keeps d.channel _ f) b
  on_frame_event-Bars dill (subscribe_clicked confirmed checks) f b =
      SameBars-Bars f (on_subscribe W dill confirmed checks f)
        (on_subscribe-SameBars dill confirmed checks f) b
  on_frame_event-Bars dill (page_clicked page e) f b =
      Keeps-BarsOf f _ (on_page_clicked-Keeps page e f) b
  on_frame_event-Bars dill closed f b = SameBars-Bars f (on_close f) (refl, refl, refl) b

  BarsOf-bind :
      (r : Result (DlvFrame W)) (next : DlvFrame W → Result (DlvFrame W))
      → ((f : DlvFrame W) → Bars f → BarsOf (next f))
      → BarsOf r
      → BarsOf (r >>= next)
  BarsOf-bind (ok f) next h b = h f b
  BarsOf-bind (err fault) next h b = tt

  on_frame_events-Bars :
      (dill : Dill) (es : List FrameEvent) (f : DlvFrame W)
      → Bars f
      → BarsOf (on_frame_events W dill es f)
  unfolding on_frame_events
  on_frame_events-Bars dill [] f b = b
  on_frame_events-Bars dill (e ∷ es) f b =
      BarsOf-bind (on_frame_event W dill e f) (on_frame_events W dill es)
        (λ g c. on_frame_events-Bars dill es g c) (on_frame_event-Bars dill e f b)

-- However events, the dialogue and clicks follow one another on a new frame without a fault: the
-- entry for the subscriptions is enabled in both bars exactly if the frame no longer waits for a
-- first channel, and a click on it opens the dialogue then and does nothing before. The entry that
-- quits always closes the frame.
clicks_lem :
    (W : Desktop) (dill : Dill) (es : List FrameEvent) (a : DlvApp) (f : DlvFrame W)
    (confirmed : Bool) (checks : ℕ → Bool) (filenames : List Bytes)
    → on_frame_events W dill es (new_frame W a) ≡ ok f
    → (is_item_enabled (dlv tool_subscribe) f.menu_bar ≡ not f.waiting_first_channel)
      × (is_enabled (dlv tool_subscribe) f.tool_bar ≡ not f.waiting_first_channel)
      × (on_click W dill (dlv tool_subscribe) confirmed checks filenames f
          ≡ (if f.waiting_first_channel then f else on_subscribe W dill confirmed checks f))
      × (on_click W dill wx_exit confirmed checks filenames f ≡ on_close f)
unfolding new_frame is_item_enabled is_enabled setup_menu_bar setup_tool_bar enable enable_item
    same_id dlv_id on_click handler_of on_handler
clicks_lem W dill es a f confirmed checks filenames done =
    let bars : BarsOf W (ok f) =
      subst (BarsOf W) done
        (on_frame_events-Bars W dill es (new_frame W a) (inl (refl, refl, refl))) in
    elim bars [
      | inl (w, m, t) ↦ (rw (w, m) refl, rw (w, t) refl, rw (w, m, t) refl, rw (m, t) refl)
      | inr (w, m, t) ↦ (rw (w, m) refl, rw (w, t) refl, rw (w, m, t) refl, rw (m, t) refl)
    ]
