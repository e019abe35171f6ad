-- ===== src/Viewer/Page/Latest.antt =====
-- What a page (dlv/dlv_channelpage.cpp) shows for a register after any sequence of events.
use dill.Base.{
  ℕ, ◌≡◌, refl, ap, ◌∙◌, Option, none, some, List, [], ◌∷◌, Bytes, ok, if◌then◌else◌, bytes_eq, All,
}
use dill.Viewer.Widgets.{ListCtrl}
use dill.Viewer.Page.{
  find_register, DlvChannelPage, DlvChannelType, PageEvent, log_appended, register_updated,
  priority_selected, clear_clicked, show_registers_clicked, record_clicked, on_page_event,
  on_page_events, new_page, reset_log_content, on_update_register, on_log_clear,
  on_show_reg_view_button_clicked, on_record_button_clicked, reset_content, reset_register_content,
  get_current_priority_filter_level,
}
use dill.Viewer.Page.Rendering.{visible}
use dill.Viewer.Page.Rows.{
  Shows, SameRegisters, EventOk, append-Shows, filter-Shows, register-Shows,
}
use dill.Viewer.Page.Registers.{content, IsIndexed, shown_content, register_updates}

-- The content of a register after an event.
unfoldable pub after_event : Bytes → PageEvent → Option Bytes → Option Bytes
after_event name (register_updated d) before =
    if bytes_eq d.register name then some d.content else before
after_event name clear_clicked before = none
after_event name _ before = before

-- The content that the last of the events gives a register.
unfoldable pub latest : Bytes → List PageEvent → Option Bytes → Option Bytes
latest name [] before = before
latest name (e ∷ es) before = latest name es (after_event name e before)

module _ (L : ListCtrl) (date : ℕ → ℕ → Bytes) where
  -- A page that shows what it should, and what it shows for each register.
  record Follows (p : DlvChannelPage L) (known : Bytes → Option Bytes) : Type 0 where
    shows : Shows L date p
    indexed : IsIndexed L p
    contents : (name : Bytes) → shown_content L name p ≡ known name

  same-Follows :
      (p p' : DlvChannelPage L) (known : Bytes → Option Bytes)
      → Follows p known
      → Shows L date p'
      → SameRegisters L date p p'
      → Follows p' known
  same-Follows p p' known v w (keys, list) = record {
    shows = w;
    indexed = record {
      numbered = rw keys v.indexed.numbered;
      named = rw (keys, list) v.indexed.named;
    };
    contents = λ name. rw (keys, list) (v.contents name);
  }

  event-Follows :
      (e : PageEvent) (p : DlvChannelPage L) (known : Bytes → Option Bytes)
      → EventOk L date e
      → Follows p known
      → (p' : DlvChannelPage L) × (on_page_event L date e p ≡ ok p')
        × Follows p' (λ name. after_event name e (known name))
  unfolding find_register on_page_event on_log_clear reset_content reset_register_content
      reset_log_content on_show_reg_view_button_clicked on_record_button_clicked after_event content
      get_current_priority_filter_level visible
  event-Follows (log_appended d) p known h v =
      let (p', returned, w, same) = append-Shows L date d p h v.shows in
      (p', returned, same-Follows p p' known v w same)
  event-Follows (register_updated d) p known h v =
      let (indexed, shown) = register_updates L d p v.indexed in
      (
        on_update_register L d p,
        refl,
        record {
          shows = register-Shows L date d p v.shows;
          indexed = indexed;
          contents = λ name.
              shown name
              ∙ ap (λ before. if bytes_eq d.register name then some d.content else before)
                  (v.contents name);
        },
      )
  event-Follows (priority_selected n) p known h v =
      let (p', returned, w, same) =
        filter-Shows L date (record p { selection = n }) v.shows.priorities in
      (p', returned, same-Follows p p' known v w same)
  event-Follows clear_clicked p known h v = (
    on_log_clear L p,
    refl,
    record {
      shows = record { shown = L.rows-clear_all p.log_list; priorities = tt };
      indexed = record { numbered = tt; named = rw (L.rows-clear_all p.reg_list) refl };
      contents = λ name. refl;
    },
  )
  event-Follows show_registers_clicked p known h v = (
    on_show_reg_view_button_clicked p,
    refl,
    same-Follows p _ known v (record { shown = v.shows.shown; priorities = v.shows.priorities })
        (refl, refl),
  )
  event-Follows record_clicked p known h v = (
    on_record_button_clicked p,
    refl,
    same-Follows p _ known v (record { shown = v.shows.shown; priorities = v.shows.priorities })
        (refl, refl),
  )

  events-Follows :
      (es : List PageEvent) (p : DlvChannelPage L) (known : Bytes → Option Bytes)
      → All (EventOk L date) es
      → Follows p known
      → (p' : DlvChannelPage L) × (on_page_events L date es p ≡ ok p')
        × Follows p' (λ name. latest name es (known name))
  unfolding on_page_events latest
  events-Follows [] p known h v = (p, refl, v)
  events-Follows (e ∷ es) p known h v =
      let (p₁, first, v₁) = event-Follows e p known h.0 v in
      let (p₂, rest, v₂) = events-Follows es p₁ (λ name. after_event name e (known name)) h.1 v₁ in
      (p₂, rw first rest, v₂)

  -- However logs, registers and clicks follow one another on a new page with empty lists, as long as
  -- every log has one of the five priorities, no handler faults, and the page then shows for each
  -- register the content of its last update since the page was last cleared, and nothing for a
  -- register that has had none.
  pub latest_lem :
      (es : List PageEvent) (channel_type : DlvChannelType) (log_list reg_list : L.Ctrl)
      → L.rows log_list ≡ []
      → L.rows reg_list ≡ []
      → All (EventOk L date) es
      → (p : DlvChannelPage L) × (on_page_events L date es
            (new_page L channel_type log_list reg_list)
          ≡ ok p)
        × ((name : Bytes) → shown_content L name p ≡ latest name es none)
  unfolding find_register new_page visible content get_current_priority_filter_level
  latest_lem es channel_type log_list reg_list no_logs no_registers h =
      let (p, returned, v) =
        events-Follows es (new_page L channel_type log_list reg_list) (λ name. none) h
          (record {
            shows = record { shown = no_logs; priorities = tt };
            indexed = record { numbered = tt; named = rw no_registers refl };
            contents = λ name. refl;
          }) in
      (p, returned, v.contents)
