-- ===== src/Viewer/Dialog/Safety.antt =====
-- The viewer's frame and its dialogue (dlv/dlv_frame.cpp, dlv/dlv_subscribedlg.cpp), from the start of the
-- frame on: what the user and the application do to it meets no deleted page.

use dill.Base.{
  ℕ, suc, ◌+◌, ◌≤◌, ◌<◌, ◌≡◌, refl, sym, ap, ◌∙◌, subst, inl, Bool, true, false, some, List, [],
  ◌∷◌, arith, Bytes, ok, length, get_elem?, length-map, All, All-get_elem?,
}
use dill.Viewer.Desktop.{Desktop}
use dill.Viewer.Page.Rows.{EventOk}
use dill.Viewer.App.{Dill, DlvApp, ChannelData, get_channel_names, set_quiting}
use dill.Viewer.Frame.{DlvFrame, new_frame, do_subscribe_channel, on_close}
use dill.Viewer.Frame.Steps.{IsSafe, text_of, subscribe-IsSafe, unsubscribe-IsSafe}
use dill.Viewer.Frame.Handlers.{
  Runs, Fits, length-do_subscribe_channel, on_dill_event-Runs, on_page_clicked-Runs,
}
use dill.Viewer.Dialog.{
  new_dialog, check_all, apply_check, apply_checks, show_modal, on_subscribe, FrameEvent,
  dill_event, subscribe_clicked, page_clicked, closed, on_frame_event, on_frame_events, has_text,
}

length-check_all :
    (checks : ℕ → Bool) (i : ℕ) (box : List (Bytes × Bool))
    → length (check_all checks i box) ≡ length box
unfolding check_all
length-check_all checks i [] = refl
length-check_all checks i ((text, shown) ∷ box) = ap suc (length-check_all checks (i + 1) box)

module _ (W : Desktop) (dill : Dill) where
  -- What a change of the frame leaves: the number of channels, and what holds between handlers.
  abbrev pub Keeps : DlvFrame W → DlvFrame W → Type 0
  Keeps f g = IsSafe W g × (length g.app.channel_data ≡ length f.app.channel_data)

  do_subscribe_channel-Keeps :
      (i : ℕ) (b : Bool) (f : DlvFrame W)
      → ((t : ℕ) → dill.subscribe_channel t ≡ true)
      → i < length f.app.channel_data
      → IsSafe W f
      → Keeps f (do_subscribe_channel W dill i b f)
  do_subscribe_channel-Keeps i true f succeeds h v =
      (subscribe-IsSafe W dill i f v, length-do_subscribe_channel W dill i true f)
  do_subscribe_channel-Keeps i false f succeeds h v =
      (unsubscribe-IsSafe W dill i f succeeds h v, length-do_subscribe_channel W dill i false f)

  apply_check-Keeps :
      (was want : Bool) (i : ℕ) (f : DlvFrame W)
      → ((t : ℕ) → dill.subscribe_channel t ≡ true)
      → i < length f.app.channel_data
      → IsSafe W f
      → Keeps f (apply_check W dill was want i f)
  unfolding apply_check
  apply_check-Keeps true true i f succeeds h v = (v, refl)
  apply_check-Keeps true false i f succeeds h v = do_subscribe_channel-Keeps i false f succeeds h v
  apply_check-Keeps false true i f succeeds h v = do_subscribe_channel-Keeps i true f succeeds h v
  apply_check-Keeps false false i f succeeds h v = (v, refl)

  apply_checks-Keeps :
      (subscribing_channels : List Bytes) (i : ℕ) (box : List (Bytes × Bool)) (f : DlvFrame W)
      → ((t : ℕ) → dill.subscribe_channel t ≡ true)
      → i + length box ≤ length f.app.channel_data
      → IsSafe W f
      → Keeps f (apply_checks W dill subscribing_channels i box f)
  unfolding apply_checks
  apply_checks-Keeps subscribing_channels i [] f succeeds h v = (v, refl)
  apply_checks-Keeps subscribing_channels i ((text, want) ∷ box) f succeeds h v =
      let was = has_text text subscribing_channels in
      let (v', size) = apply_check-Keeps was want i f succeeds (omega arith) v in
      let (v'', size') =
        apply_checks-Keeps subscribing_channels (i + 1) box (apply_check W dill was want i f)
          succeeds (omega arith) v' in
      (v'', size' ∙ size)

  pub length-check_list_box :
      (checks : ℕ → Bool) (a : DlvApp)
      → length (check_all checks 0 (new_dialog W.from_utf8 a).check_list_box)
        ≡ length a.channel_data
  unfolding new_dialog get_channel_names
  length-check_list_box checks a =
      length-check_all checks 0 (new_dialog W.from_utf8 a).check_list_box
      ∙ length-map _ (get_channel_names a)
      ∙ length-map _ a.channel_data

  on_subscribe-Keeps :
      (confirmed : Bool) (checks : ℕ → Bool) (f : DlvFrame W)
      → ((t : ℕ) → dill.subscribe_channel t ≡ true)
      → IsSafe W f
      → Keeps f (on_subscribe W dill confirmed checks f)
  unfolding on_subscribe show_modal
  on_subscribe-Keeps false checks f succeeds v = (v, refl)
  on_subscribe-Keeps true checks f succeeds v =
      let d = new_dialog W.from_utf8 f.app in
      apply_checks-Keeps d.subscribing_channels 0 (check_all checks 0 d.check_list_box) f succeeds
        (omega (arith, length-check_list_box checks f.app)) v

  -- Events of the application fit the channels, and logs have one of the five priorities.
  abbrev pub FrameEventOk : ℕ → FrameEvent → Type 0
  FrameEventOk size (dill_event e) = Fits W size e
  FrameEventOk size (page_clicked page e) = EventOk W.lists W.date e
  FrameEventOk size _ = Unit

  on_frame_event-Runs :
      (e : FrameEvent) (f : DlvFrame W)
      → ((t : ℕ) → dill.subscribe_channel t ≡ true)
      → FrameEventOk (length f.app.channel_data) e
      → IsSafe W f
      → Runs W f (on_frame_event W dill e f)
  unfolding on_frame_event on_close set_quiting
  on_frame_event-Runs (dill_event e) f succeeds h v = on_dill_event-Runs W dill e f h v
  on_frame_event-Runs (subscribe_clicked confirmed checks) f succeeds h v =
      let (v', size) = on_subscribe-Keeps confirmed checks f succeeds v in
      record {
        after = on_subscribe W dill confirmed checks f;
        returned = refl;
        safe = v';
        size = size;
      }
  on_frame_event-Runs (page_clicked page e) f succeeds h v = on_page_clicked-Runs W page e f h v
  on_frame_event-Runs closed f succeeds h v = record {
    after = on_close f;
    returned = refl;
    safe = record { sound = v.sound; shown = v.shown };
    size = refl;
  }

  on_frame_events-Runs :
      (es : List FrameEvent) (f : DlvFrame W)
      → ((t : ℕ) → dill.subscribe_channel t ≡ true)
      → All (FrameEventOk (length f.app.channel_data)) es
      → IsSafe W f
      → Runs W f (on_frame_events W dill es f)
  unfolding on_frame_events
  on_frame_events-Runs [] f succeeds h v = record {
    after = f;
    returned = refl;
    safe = v;
    size = refl;
  }
  on_frame_events-Runs (e ∷ es) f succeeds h v =
      let first = on_frame_event-Runs e f succeeds h.0 v in
      let rest =
        on_frame_events-Runs es first.after succeeds
          (subst (λ size. All (FrameEventOk size) es) (sym first.size) h.1) first.safe in
      record {
        after = rest.after;
        returned = rw first.returned rest.returned;
        safe = rest.safe;
        size = rest.size ∙ first.size;
      }

  -- The texts of the channels' tabs are different, and no channel has a page yet.
  pub record Starts (a : DlvApp) : Type 0 where
    pub distinct :
        (i j : ℕ) (d e : ChannelData)
        → get_elem? a.channel_data i ≡ some d
        → get_elem? a.channel_data j ≡ some e
        → text_of W d.name ≡ text_of W e.name
        → i ≡ j
    pub no_page : All (λ d. d.page ≡ 0) a.channel_data

  pub new_frame-IsSafe : (a : DlvApp) → Starts a → IsSafe W (new_frame W a)
  unfolding new_frame
  new_frame-IsSafe a starts = record {
    sound = rw W.tabs-new_notebook (record {
      distinct = starts.distinct;
      referenced =
          λ i d e. inl (All-get_elem? (λ d. d.page ≡ 0) a.channel_data i d starts.no_page e);
      old_pages = tt;
      titled = tt;
    });
    shown = tt;
  }

  -- The channels of an application have different texts and no page, every call that subscribes
  -- succeeds, the events are about these channels, and every log has one of the five priorities. However
  -- the application's events, the dialogue and the user's clicks then follow one another on a new
  -- frame, no handler meets a deleted page or another fault. At the end each channel has no page or a
  -- live one, and the list of each live page shows the logs of it that pass its filter, in order.
  pub on_frame_events-IsSafe :
      (es : List FrameEvent) (a : DlvApp)
      → Starts a
      → ((t : ℕ) → dill.subscribe_channel t ≡ true)
      → All (FrameEventOk (length a.channel_data)) es
      → (f : DlvFrame W) × (on_frame_events W dill es (new_frame W a) ≡ ok f) × IsSafe W f
  unfolding new_frame
  on_frame_events-IsSafe es a starts succeeds h =
      let run = on_frame_events-Runs es (new_frame W a) succeeds h (new_frame-IsSafe a starts) in
      (run.after, run.returned, run.safe)
