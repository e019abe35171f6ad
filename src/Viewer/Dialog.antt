-- ===== src/Viewer/Dialog.antt =====
-- dlv/dlv_subscribedlg.cpp, the class `DlvSubscribeDialog`: a box of the channels with a check at each
-- subscribed one, and what it does with the checks once the user confirms. Its layout is left out.
pub mod Safety
pub mod Checks
pub mod Outcome
pub mod Clicks
use dill.Base.{
  ℕ, zero, suc, ◌+◌, ◌-◌, ◌*◌, ◌/◌, ◌%◌, ◌^◌, ◌≤◌, ◌<◌, min, ◌≡◌, refl, sym, ap, ◌∙◌, subst, ◌≢◌,
  ◌↔◌, ◌⊎◌, inl, inr, Bool, true, false, not, ◌&&◌, ◌||◌, Option, none, some, List, [], ◌∷◌, ◌++◌,
  map, append-nil, append_assoc, arith, Bytes, u16, u32, c_str, overwrite, Fault, use_after_free,
  null_string, out_of_bounds, Result, ok, err, ◌>>=◌, or_fault, invert, length-overwrite,
  take-overwrite, ltb, leb, ◌==◌, if◌then◌else◌, ==_iff, ==_refl, Bool-cases, Option-cases, dec_le,
  dec_lt, ℕ_discrete, not-==, bytes_eq, bytes_eq→eq, bytes_eq_refl, bytes_eq_sym, length, get_elem?,
  set, take, drop, replicate, length-replicate, length-append, length-take, length-drop, take_all,
  length-set, get_elem?-lt, get_elem?-ge, get_elem?-none, get_elem?-append_left,
  get_elem?-append_last, get_elem?-some, length-map, All, All-append, All-set, All-get_elem?,
  All-map, set_insert, set_erase, contains, All-set_insert, All-set_erase, IsOrdered,
  set_insert-IsOrdered, set_erase-IsOrdered, contains-set_insert, contains-set_erase, StringMap,
  map_put, map_find, map_find-map_put,
}
use dill.Viewer.Desktop.{Desktop}
use dill.Viewer.App.{Dill, DlvApp, get_channel_names, is_channel_subscribed}
use dill.Viewer.Events.{DlvDillEvent}
use dill.Viewer.Frame.{DlvFrame, do_subscribe_channel, on_close, on_dill_event, on_page_clicked}
use dill.Viewer.Bars.{
  CommandId, Handler, about, quit, subscribe, opens_log, handler_of, is_enabled, is_item_enabled,
}
use dill.Viewer.Page.{PageEvent}

pub record DlvSubscribeDialog : Type 0 where
  -- The texts of the check list box, with their checks.
  pub check_list_box : List (Bytes × Bool)
  pub subscribing_channels : List Bytes

-- The second loop of the constructor: the texts of the names that are subscribed.
unfoldable pub subscribing : (Bytes → Bytes) → List Bytes → DlvApp → List Bytes
subscribing from_utf8 [] a = []
subscribing from_utf8 (name ∷ names) a =
    let others = subscribing from_utf8 names a in
    if is_channel_subscribed name a then from_utf8 (c_str name) ∷ others else others

unfoldable pub new_dialog : (Bytes → Bytes) → DlvApp → DlvSubscribeDialog
new_dialog from_utf8 a =
    let names = get_channel_names a in
    record {
      check_list_box = map (λ name. (from_utf8 (c_str name), is_channel_subscribed name a)) names;
      subscribing_channels = subscribing from_utf8 names a;
    }

-- `wxArrayString::Index` finds a text.
unfoldable pub has_text : Bytes → List Bytes → Bool
has_text text [] = false
has_text text (other ∷ texts) = bytes_eq other text || has_text text texts

-- The user's checks, which may differ from those that were shown.
unfoldable pub check_all : (ℕ → Bool) → ℕ → List (Bytes × Bool) → List (Bytes × Bool)
check_all checks i [] = []
check_all checks i ((text, shown) ∷ box) = (text, checks i) ∷ check_all checks (i + 1) box

-- What `ShowModal` does for one entry.
unfoldable pub apply_check : (W : Desktop) → Dill → Bool → Bool → ℕ → DlvFrame W → DlvFrame W
apply_check W dill was_in_subscribing want_subscribing i f =
    if not was_in_subscribing && want_subscribing
    then do_subscribe_channel W dill i true f
    else (if was_in_subscribing && not want_subscribing
        then do_subscribe_channel W dill i false f
        else f)

-- The loop of `ShowModal` from an entry on.
unfoldable pub apply_checks :
    (W : Desktop) → Dill → List Bytes → ℕ → List (Bytes × Bool) → DlvFrame W → DlvFrame W
apply_checks W dill subscribing_channels i [] f = f
apply_checks W dill subscribing_channels i ((text, want_subscribing) ∷ box) f =
    apply_checks W dill subscribing_channels (i + 1) box
      (apply_check W dill (has_text text subscribing_channels) want_subscribing i f)

-- `ShowModal`, where the user leaves the box with checks, and confirms it or does not.
unfoldable pub show_modal :
    (W : Desktop)
    → Dill
    → Bool
    → (ℕ → Bool)
    → DlvSubscribeDialog
    → DlvFrame W
    → DlvSubscribeDialog × DlvFrame W
show_modal W dill confirmed checks d f =
    let box = check_all checks 0 d.check_list_box in
    (
      record d { check_list_box = box },
      if confirmed then apply_checks W dill d.subscribing_channels 0 box f else f,
    )

-- `DlvFrame::OnSubscribe`.
unfoldable pub on_subscribe : (W : Desktop) → Dill → Bool → (ℕ → Bool) → DlvFrame W → DlvFrame W
on_subscribe W dill confirmed checks f =
    (show_modal W dill confirmed checks (new_dialog W.from_utf8 f.app) f).1

-- `DlvFrame::OnOpenLog`, which does nothing with the answer of the file dialogue.
unfoldable pub open_log : {W : Desktop} → Bool → List Bytes → DlvFrame W → DlvFrame W
open_log confirmed filenames f = f

-- `OnAbout`, `OnQuit`, which closes the frame, and the other handlers of the entries of the bars.
unfoldable pub on_handler :
    (W : Desktop) → Dill → Handler → Bool → (ℕ → Bool) → List Bytes → DlvFrame W → DlvFrame W
on_handler W dill about confirmed checks filenames f = f
on_handler W dill quit confirmed checks filenames f = on_close f
on_handler W dill subscribe confirmed checks filenames f = on_subscribe W dill confirmed checks f
on_handler W dill opens_log confirmed checks filenames f = open_log confirmed filenames f

-- The user clicks an entry of a bar, and leaves the dialogue that it opens with an answer.
unfoldable pub on_click :
    (W : Desktop) → Dill → CommandId → Bool → (ℕ → Bool) → List Bytes → DlvFrame W → DlvFrame W
on_click W dill id confirmed checks filenames f =
    if is_item_enabled id f.menu_bar || is_enabled id f.tool_bar
    then elim (handler_of id) [
      | none ↦ f
      | some h ↦ on_handler W dill h confirmed checks filenames f
    ]
    else f

-- What reaches the frame: an event that the application posted, the dialogue with the user's checks,
-- what the user does to a page, and the end.
pub data FrameEvent : Type 0 where
  dill_event : DlvDillEvent → FrameEvent
  subscribe_clicked : Bool → (ℕ → Bool) → FrameEvent
  page_clicked : ℕ → PageEvent → FrameEvent
  closed : FrameEvent

unfoldable pub on_frame_event : (W : Desktop) → Dill → FrameEvent → DlvFrame W → Result (DlvFrame W)
on_frame_event W dill (dill_event e) f = on_dill_event W dill e f
on_frame_event W dill (subscribe_clicked confirmed checks) f =
    ok (on_subscribe W dill confirmed checks f)
on_frame_event W dill (page_clicked page e) f = on_page_clicked W page e f
on_frame_event W dill closed f = ok (on_close f)

unfoldable pub on_frame_events :
    (W : Desktop) → Dill → List FrameEvent → DlvFrame W → Result (DlvFrame W)
on_frame_events W dill [] f = ok f
on_frame_events W dill (e ∷ es) f = on_frame_event W dill e f >>= λ f. on_frame_events W dill es f
