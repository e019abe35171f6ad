-- ===== src/Viewer/Page/Rendering.antt =====
-- Rendering logs on a page (dlv/dlv_channelpage.cpp) adds a row for each log that passes the filter.
use dill.Base.{
  ℕ, zero, suc, ◌<◌, ◌≡◌, refl, sym, ap, ◌∙◌, inl, inr, none, some, List, [], ◌∷◌, ◌++◌, map,
  append-nil, append_assoc, arith, Bytes, Result, ok, leb, if◌then◌else◌, Bool-cases, length,
  get_elem?, All,
}
use mathlib.Core.List.{map-append}
use dill.Viewer.Events.{DlvEvtDataLog}
use dill.Viewer.Widgets.{
  ListCtrl, Row, TextColour, black, new_row, put_cell, put_colour, change_row_last,
}
use dill.Viewer.Page.{
  DlvChannelPage, priority_labels, text_colours, render_log, render_filtered, render_all,
  get_current_priority_filter_level,
}

-- The entry of a table, and a value for a number that has none.
entry : {A : Type 0} → A → List A → ℕ → A
entry a xs n = elim (get_elem? xs n) [ none ↦ a | some x ↦ x ]

entry_lem :
    {A : Type 0} (a : A) (xs : List A) (n : ℕ)
    → n < length xs
    → get_elem? xs n ≡ some (entry a xs n)
unfolding entry
entry_lem a [] n h = absurd (omega arith)
entry_lem a (x ∷ xs) zero h = refl
entry_lem a (x ∷ xs) (suc n) h = entry_lem a xs n (omega arith)

-- The row of a log.
unfoldable pub log_row : (ℕ → ℕ → Bytes) → DlvEvtDataLog → Row
unfolding entry
log_row date d = put_colour (entry black text_colours d.priority) (
    put_cell 3 d.message (
      put_cell 2 d.tag (
        put_cell 1 (entry [] priority_labels d.priority)
          (new_row (date d.timestamp_sec d.timestamp_ms)))))

-- The logs that pass a filter.
unfoldable pub visible : ℕ → List DlvEvtDataLog → List DlvEvtDataLog
visible level [] = []
visible level (d ∷ ds) = if leb level d.priority then d ∷ visible level ds else visible level ds

pub visible-append :
    (level : ℕ) (xs ys : List DlvEvtDataLog)
    → visible level (xs ++ ys) ≡ visible level xs ++ visible level ys
unfolding visible
visible-append level [] ys = refl
visible-append level (d ∷ ds) ys = ground (arith, visible-append level ds ys)

-- The priorities that the tables have.
abbrev pub HasPriority : DlvEvtDataLog → Type 0
HasPriority d = d.priority < 5

module _ (L : ListCtrl) (date : ℕ → ℕ → Bytes) where
  -- What rendering changes: rows are added.
  pub record Added (p : DlvChannelPage L) (ds : List DlvEvtDataLog) (r : Result (DlvChannelPage L))
      : Type 0 where
    pub list : L.Ctrl
    pub returned : r ≡ ok (record p { log_list = list })
    pub shown : L.rows list ≡ L.rows p.log_list ++ map (log_row date) ds

  -- The calls that put a row behind the others.
  with_row : Bytes → Bytes → Bytes → Bytes → TextColour → L.Ctrl → L.Ctrl
  with_row time label tag message colour c =
      let pos = L.get_item_count c in
      L.set_item_text_colour pos colour (
        L.set_item pos 3 message
          (L.set_item pos 2 tag (L.set_item pos 1 label (L.insert_item pos time c))))

  rows-with_row :
      (time label tag message : Bytes) (colour : TextColour) (c : L.Ctrl)
      → L.rows (with_row time label tag message colour c)
        ≡ L.rows c
          ++ (put_colour colour
                (put_cell 3 message (put_cell 2 tag (put_cell 1 label (new_row time))))
              ∷ [])
  unfolding with_row
  rows-with_row time label tag message colour c =
      let pos = L.get_item_count c in
      let end : pos ≡ length (L.rows c) = L.get_item_count_lem c in
      let r₁ = put_cell 1 label (new_row time) in
      let r₂ = put_cell 2 tag r₁ in
      simp (L.rows-set_item_text_colour, L.rows-set_item, L.rows-insert_item pos time c end)
        (rw
          (
            change_row_last (L.rows c) (new_row time) pos (put_cell 1 label) end,
            change_row_last (L.rows c) r₁ pos (put_cell 2 tag) end,
            change_row_last (L.rows c) r₂ pos (put_cell 3 message) end,
            change_row_last (L.rows c) (put_cell 3 message r₂) pos (put_colour colour) end,
          )
          refl)

  render_log-Added :
      (d : DlvEvtDataLog) (p : DlvChannelPage L)
      → HasPriority d
      → Added p (d ∷ []) (render_log L date d p)
  unfolding render_log log_row with_row
  render_log-Added d p h =
      let label = entry [] priority_labels d.priority in
      let colour = entry black text_colours d.priority in
      record {
        list =
            with_row (date d.timestamp_sec d.timestamp_ms) label d.tag d.message colour p.log_list;
        returned =
            rw
              (entry_lem [] priority_labels d.priority h, entry_lem black text_colours d.priority h)
              refl;
        shown =
            rows-with_row (date d.timestamp_sec d.timestamp_ms) label d.tag d.message colour
              p.log_list;
      }

  pub render_filtered-Added :
      (d : DlvEvtDataLog) (p : DlvChannelPage L)
      → HasPriority d
      → Added p
          (visible (get_current_priority_filter_level p) (d ∷ []))
          (render_filtered L date d p)
  unfolding render_filtered visible
  render_filtered-Added d p h =
      elim (Bool-cases (leb (get_current_priority_filter_level p) d.priority)) [
        | inl e ↦ rw e (render_log-Added d p h)
        | inr e ↦ rw e (record {
          list = p.log_list;
          returned = refl;
          shown = sym (append-nil (L.rows p.log_list));
        })
      ]

  pub render_all-Added :
      (ds : List DlvEvtDataLog) (p : DlvChannelPage L)
      → All HasPriority ds
      → Added p (visible (get_current_priority_filter_level p) ds) (render_all L date ds p)
  unfolding render_all visible get_current_priority_filter_level
  render_all-Added [] p h = record {
    list = p.log_list;
    returned = refl;
    shown = sym (append-nil (L.rows p.log_list));
  }
  render_all-Added (d ∷ ds) p h =
      let level = get_current_priority_filter_level p in
      let first = render_filtered-Added d p h.0 in
      let rest = render_all-Added ds (record p { log_list = first.list }) h.1 in
      record {
        list = rest.list;
        returned = rw first.returned rest.returned;
        shown =
            rest.shown
            ∙ ap (λ shown. shown ++ map (log_row date) (visible level ds)) first.shown
            ∙ append_assoc (L.rows p.log_list) _ _
            ∙ ap (L.rows p.log_list ++◌) (
                sym (map-append (log_row date) (visible level (d ∷ [])) (visible level ds))
                ∙ ap (map (log_row date)) (sym (visible-append level (d ∷ []) ds)));
      }
