-- ===== src/Viewer/Page/Rows.antt =====
-- The list of logs of a page (dlv/dlv_channelpage.cpp) shows the logs that pass the filter.
use dill.Base.{
  ℕ, ◌≡◌, refl, sym, ap, ◌∙◌, inl, inr, List, [], ◌∷◌, ◌++◌, map, Bytes, ok, Option-cases, All,
  All-append,
}
use mathlib.Core.List.{map-append}
use dill.Viewer.Events.{DlvEvtDataLog, DlvEvtDataRegister}
use dill.Viewer.Widgets.{ListCtrl}
use dill.Viewer.Page.{
  DlvChannelPage, PageEvent, log_appended, register_updated, priority_selected, clear_clicked,
  show_registers_clicked, record_clicked, get_current_priority_filter_level, on_page_event,
  reset_log_content, on_append_log, on_update_register, on_priority_filter_changed, on_log_clear,
  on_show_reg_view_button_clicked, on_record_button_clicked, reset_content, reset_register_content,
  find_register,
}
use dill.Viewer.Page.Rendering.{
  log_row, visible, visible-append, HasPriority, render_filtered-Added, render_all-Added,
}

module _ (L : ListCtrl) (date : ℕ → ℕ → Bytes) where
  -- The list shows the logs that pass the filter, in their order.
  pub record Shows (p : DlvChannelPage L) : Type 0 where
    pub shown :
        L.rows p.log_list
        ≡ map (log_row date) (visible (get_current_priority_filter_level p) p.logs)
    pub priorities : All HasPriority p.logs

  -- The registers and their list are as they were.
  abbrev pub SameRegisters : DlvChannelPage L → DlvChannelPage L → Type 0
  SameRegisters p p' = (p'.registers ≡ p.registers) × (p'.reg_list ≡ p.reg_list)

  pub append-Shows :
      (d : DlvEvtDataLog) (p : DlvChannelPage L)
      → HasPriority d
      → Shows p
      → (p' : DlvChannelPage L) × (on_append_log L date d p ≡ ok p') × Shows p' × SameRegisters p p'
  unfolding on_append_log get_current_priority_filter_level
  append-Shows d p h v =
      let level = get_current_priority_filter_level p in
      let added = render_filtered-Added L date d (record p { logs = p.logs ++ (d ∷ []) }) h in
      (
        record p { logs = p.logs ++ (d ∷ []); log_list = added.list },
        added.returned,
        record {
          shown =
              added.shown
              ∙ ap (λ shown. shown ++ map (log_row date) (visible level (d ∷ []))) v.shown
              ∙ sym (map-append (log_row date) (visible level p.logs) (visible level (d ∷ [])))
              ∙ ap (map (log_row date)) (sym (visible-append level p.logs (d ∷ [])));
          priorities = All-append HasPriority p.logs (d ∷ []) v.priorities (h, tt);
        },
        (refl, refl),
      )

  pub filter-Shows :
      (p : DlvChannelPage L)
      → All HasPriority p.logs
      → (p' : DlvChannelPage L) × (on_priority_filter_changed L date p ≡ ok p')
        × Shows p'
        × SameRegisters p p'
  unfolding on_priority_filter_changed reset_log_content get_current_priority_filter_level
  filter-Shows p h =
      let added =
        render_all-Added L date p.logs (record p { log_list = L.clear_all p.log_list }) h in
      (
        record p { log_list = added.list },
        added.returned,
        record {
          shown =
              added.shown
              ∙ ap
                  (λ before.
                    before
                    ++ map (log_row date) (visible (get_current_priority_filter_level p) p.logs))
                  (L.rows-clear_all p.log_list);
          priorities = h;
        },
        (refl, refl),
      )

  pub register-Shows :
      (d : DlvEvtDataRegister) (p : DlvChannelPage L) → Shows p → Shows (on_update_register L d p)
  unfolding on_update_register get_current_priority_filter_level
  register-Shows d p v = elim (Option-cases (find_register d.register p.registers)) [
    | inl e ↦ rw (e, on_update_register) (record { shown = v.shown; priorities = v.priorities })
    | inr (pos, e) ↦
        rw (e, on_update_register) (record { shown = v.shown; priorities = v.priorities })
  ]

  -- Appended logs have one of the five priorities.
  abbrev pub EventOk : PageEvent → Type 0
  EventOk (log_appended d) = HasPriority d
  EventOk _ = Unit {0}

  -- No other handler touches the list of logs, and the first clears it.
  pub event-Shows :
      (e : PageEvent) (p : DlvChannelPage L)
      → EventOk e
      → Shows p
      → (p' : DlvChannelPage L) × (on_page_event L date e p ≡ ok p') × Shows p'
  unfolding on_page_event on_log_clear reset_content reset_register_content reset_log_content
      visible on_show_reg_view_button_clicked on_record_button_clicked
      get_current_priority_filter_level
  event-Shows (log_appended d) p h v =
      let (p', returned, w, _) = append-Shows d p h v in (p', returned, w)
  event-Shows (register_updated d) p h v = (on_update_register L d p, refl, register-Shows d p v)
  event-Shows (priority_selected n) p h v =
      let (p', returned, w, _) = filter-Shows (record p { selection = n }) v.priorities in
      (p', returned, w)
  event-Shows clear_clicked p h v =
      (on_log_clear L p, refl, record { shown = L.rows-clear_all p.log_list; priorities = tt })
  event-Shows show_registers_clicked p h v = (
    on_show_reg_view_button_clicked p,
    refl,
    record { shown = v.shown; priorities = v.priorities },
  )
  event-Shows record_clicked p h v =
      (on_record_button_clicked p, refl, record { shown = v.shown; priorities = v.priorities })
