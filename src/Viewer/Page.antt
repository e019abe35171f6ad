-- ===== src/Viewer/Page.antt =====
-- dlv/dlv_channelpage.cpp, the class `DlvChannelPage`: the logs and registers of a channel, and the two
-- lists that show them. The list controls are those of an argument of `ListCtrl`; `date` stands for
-- the text that `wxDateTime` and `Printf` make of a time stamp. Buttons, icons, layout, column widths
-- and the file dialogue are left out.
pub mod Rendering
pub mod Rows
pub mod Registers
pub mod Latest
use dill.Base.{
  ℕ, zero, suc, ◌+◌, ◌-◌, ◌*◌, ◌/◌, ◌%◌, ◌^◌, ◌≤◌, ◌<◌, min, ◌≡◌, refl, sym, ap, ◌∙◌, subst, ◌≢◌,
  ◌↔◌, ◌⊎◌, inl, inr, Bool, true, false, not, ◌&&◌, ◌||◌, Option, none, some, List, [], ◌∷◌, ◌++◌,
  map, append-nil, append_assoc, arith, Bytes, u16, u32, c_str, overwrite, Fault, use_after_free,
  null_string, out_of_bounds, Result, ok, err, ◌>>=◌, or_fault, invert, length-overwrite,
  take-overwrite, ltb, leb, ◌==◌, if◌then◌else◌, ==_iff, ==_refl, Bool-cases, Option-cases, dec_le,
  dec_lt, ℕ_discrete, not-==, bytes_eq, bytes_eq→eq, bytes_eq_refl, bytes_eq_sym, length, get_elem?,
  set, take, drop, replicate, length-replicate, length-append, length-take, length-drop, take_all,
  length-set, get_elem?-lt, get_elem?-ge, get_elem?-none, All, All-append, All-set, All-get_elem?,
  All-map, set_insert, set_erase, contains, All-set_insert, All-set_erase, IsOrdered,
  set_insert-IsOrdered, set_erase-IsOrdered, contains-set_insert, contains-set_erase, StringMap,
  map_put, map_find, map_find-map_put,
}
use dill.Viewer.Events.{DlvEvtDataLog, DlvEvtDataRegister}
use dill.Viewer.Widgets.{ListCtrl, TextColour, black, blue, forest_green, gold, red}

-- `DLVCHTYPE`.
pub data DlvChannelType : Type 0 where
  live file : DlvChannelType

pub record DlvChannelPage (L : ListCtrl) : Type 0 where
  pub channel_type : DlvChannelType
  pub recording : Bool
  pub record_shown : Bool
  pub log_list : L.Ctrl
  pub reg_list : L.Ctrl
  pub reg_shown : Bool
  -- The selection of the box of priorities.
  pub selection : ℕ
  pub logs : List DlvEvtDataLog
  pub registers : List (Bytes × ℕ)

-- The constructor, with two new list controls.
unfoldable pub new_page : (L : ListCtrl) → DlvChannelType → L.Ctrl → L.Ctrl → DlvChannelPage L
new_page L channel_type log_list reg_list = record {
  channel_type = channel_type;
  recording = false;
  record_shown = elim channel_type [ live ↦ true | file ↦ false ];
  log_list = log_list;
  reg_list = reg_list;
  reg_shown = false;
  selection = 0;
  logs = [];
  registers = [];
}

unfoldable pub get_type : {L : ListCtrl} → DlvChannelPage L → DlvChannelType
get_type p = p.channel_type

unfoldable pub get_current_priority_filter_level : {L : ListCtrl} → DlvChannelPage L → ℕ
get_current_priority_filter_level p = p.selection % 256

-- "V", "D", "I", "W" and "E".
abbrev pub priority_labels : List Bytes
priority_labels = (b'V' ∷ []) ∷ (b'D' ∷ []) ∷ (b'I' ∷ []) ∷ (b'W' ∷ []) ∷ (b'E' ∷ []) ∷ []

abbrev pub text_colours : List TextColour
text_colours = black ∷ blue ∷ forest_green ∷ gold ∷ red ∷ []

-- A log of another priority reads both tables out of their bounds.
unfoldable pub render_log :
    (L : ListCtrl) → (ℕ → ℕ → Bytes) → DlvEvtDataLog → DlvChannelPage L → Result (DlvChannelPage L)
render_log L date d p = do
  label ← or_fault (get_elem? priority_labels d.priority) out_of_bounds
  colour ← or_fault (get_elem? text_colours d.priority) out_of_bounds
  let pos = L.get_item_count p.log_list
  let c₀ = L.insert_item pos (date d.timestamp_sec d.timestamp_ms) p.log_list
  let c₁ = L.set_item pos 1 label c₀
  let c₂ = L.set_item pos 2 d.tag c₁
  let c₃ = L.set_item pos 3 d.message c₂
  ok (record p { log_list = L.set_item_text_colour pos colour c₃ })

-- A log is rendered if it passes the filter.
unfoldable pub render_filtered :
    (L : ListCtrl) → (ℕ → ℕ → Bytes) → DlvEvtDataLog → DlvChannelPage L → Result (DlvChannelPage L)
render_filtered L date d p =
    if leb (get_current_priority_filter_level p) d.priority then render_log L date d p else ok p

-- `OnAppenLog`.
unfoldable pub on_append_log :
    (L : ListCtrl) → (ℕ → ℕ → Bytes) → DlvEvtDataLog → DlvChannelPage L → Result (DlvChannelPage L)
on_append_log L date d p = render_filtered L date d (record p { logs = p.logs ++ (d ∷ []) })

unfoldable pub find_register : Bytes → List (Bytes × ℕ) → Option ℕ
find_register name [] = none
find_register name ((key, pos) ∷ m) = if bytes_eq key name then some pos else find_register name m

unfoldable pub on_update_register :
    (L : ListCtrl) → DlvEvtDataRegister → DlvChannelPage L → DlvChannelPage L
on_update_register L d p = elim (find_register d.register p.registers) [
  | some pos ↦ record p { reg_list = L.set_item pos 1 d.content p.reg_list }
  | none ↦
      let pos = L.get_item_count p.reg_list in
      record p {
        registers = p.registers ++ ((d.register, pos) ∷ []);
        reg_list = L.set_item pos 1 d.content (L.insert_item pos d.register p.reg_list);
      }
]

unfoldable pub on_show_reg_view_button_clicked :
    {L : ListCtrl} → DlvChannelPage L → DlvChannelPage L
on_show_reg_view_button_clicked p = record p { reg_shown = not p.reg_shown }

unfoldable pub reset_log_content : (L : ListCtrl) → Bool → DlvChannelPage L → DlvChannelPage L
reset_log_content L delete_raw p = record p {
  log_list = L.clear_all p.log_list;
  logs = if delete_raw then [] else p.logs;
}

unfoldable pub reset_register_content : (L : ListCtrl) → DlvChannelPage L → DlvChannelPage L
reset_register_content L p = record p { reg_list = L.clear_all p.reg_list; registers = [] }

unfoldable pub reset_content : (L : ListCtrl) → DlvChannelPage L → DlvChannelPage L
reset_content L p = reset_register_content L (reset_log_content L true p)

unfoldable pub on_log_clear : (L : ListCtrl) → DlvChannelPage L → DlvChannelPage L
on_log_clear L p = reset_content L p

-- The loop of `OnPriorityFilterChanged`.
unfoldable pub render_all :
    (L : ListCtrl)
    → (ℕ → ℕ → Bytes)
    → List DlvEvtDataLog
    → DlvChannelPage L
    → Result (DlvChannelPage L)
render_all L date [] p = ok p
render_all L date (d ∷ ds) p = render_filtered L date d p >>= λ p. render_all L date ds p

unfoldable pub on_priority_filter_changed :
    (L : ListCtrl) → (ℕ → ℕ → Bytes) → DlvChannelPage L → Result (DlvChannelPage L)
on_priority_filter_changed L date p = render_all L date p.logs (reset_log_content L false p)

unfoldable pub on_record_button_clicked : {L : ListCtrl} → DlvChannelPage L → DlvChannelPage L
on_record_button_clicked p = record p { recording = not p.recording }

-- What happens to a page: the frame hands it data, or the user acts on it. The selection of a
-- priority changes the box and then calls the handler.
pub data PageEvent : Type 0 where
  log_appended : DlvEvtDataLog → PageEvent
  register_updated : DlvEvtDataRegister → PageEvent
  priority_selected : ℕ → PageEvent
  clear_clicked show_registers_clicked record_clicked : PageEvent

unfoldable pub on_page_event :
    (L : ListCtrl) → (ℕ → ℕ → Bytes) → PageEvent → DlvChannelPage L → Result (DlvChannelPage L)
on_page_event L date (log_appended d) p = on_append_log L date d p
on_page_event L date (register_updated d) p = ok (on_update_register L d p)
on_page_event L date (priority_selected n) p =
    on_priority_filter_changed L date (record p { selection = n })
on_page_event L date clear_clicked p = ok (on_log_clear L p)
on_page_event L date show_registers_clicked p = ok (on_show_reg_view_button_clicked p)
on_page_event L date record_clicked p = ok (on_record_button_clicked p)

unfoldable pub on_page_events :
    (L : ListCtrl) → (ℕ → ℕ → Bytes) → List PageEvent → DlvChannelPage L → Result (DlvChannelPage L)
on_page_events L date [] p = ok p
on_page_events L date (e ∷ es) p = on_page_event L date e p >>= λ p. on_page_events L date es p
