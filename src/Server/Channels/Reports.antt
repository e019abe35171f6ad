-- ===== src/Server/Channels/Reports.antt =====
-- The events that `callback` of libdill/src/server_netio.cpp is called for.
use dill.Base.{
  ℕ, ◌≡◌, refl, subst, ◌⊎◌, inl, inr, true, ◌||◌, Option, none, some, Bytes, ◌==◌, Bool-cases,
}
use dill.Protocol.Ops.{
  is_log, priority_register, priority_publish, priority_subscribe, priority_unsubscribe,
  priority_connected, priority_disconnected, event_log, event_reg, event_publisher,
  event_subscriber, event_connected, event_disconnected,
}
use dill.Server.Event.{DillEvent, make_event}

abbrev pub IsGiven : Option Bytes → Type 0
IsGiven s = (text : Bytes) × (s ≡ some text)

-- What is given for each type of event.
abbrev pub IsEvent : DillEvent → Type 0
IsEvent ev =
    ((ev.type ≡ event_log) × (is_log ev.priority ≡ true) × IsGiven ev.tag × IsGiven ev.content)
    ⊎ (((ev.type ≡ event_reg) × IsGiven ev.tag × IsGiven ev.content)
        ⊎ (((ev.type ≡ event_publisher) × IsGiven ev.tag)
            ⊎ (((ev.type ≡ event_subscriber) × IsGiven ev.tag)
                ⊎ ((ev.type ≡ event_connected)
                    ⊎ ((ev.type ≡ event_disconnected) × IsGiven ev.tag)))))

-- The callback gets an event of one of these types, with each field set.
abbrev pub IsReport : Option DillEvent → Type 0
IsReport e = (ev : DillEvent) × (e ≡ some ev) × IsEvent ev

pub update-IsReport :
    (op id t1 t2 : ℕ) (a b : Bytes)
    → (is_log op || op == priority_register) ≡ true
    → IsReport (make_event op id t1 t2 (some a) (some b))
unfolding make_event
update-IsReport op id t1 t2 a b h = elim (Bool-cases (is_log op)) [
  | inl e ↦ rw (make_event, e) (_, refl, inl (refl, e, (a, refl), (b, refl)))
  | inr e ↦
      let r : (op == priority_register) ≡ true =
        subst (λ c. (c || op == priority_register) ≡ true) e h in
      rw (make_event, e, r) (_, refl, inr (inl (refl, (a, refl), (b, refl))))
]

pub publish-IsReport :
    (id : ℕ) (a : Bytes) → IsReport (make_event priority_publish id 0 0 (some a) none)
unfolding make_event is_log
publish-IsReport id a = (_, refl, inr (inr (inl (refl, (a, refl)))))

pub subscribe-IsReport :
    (id : ℕ) (a : Bytes) → IsReport (make_event priority_subscribe id 0 0 (some a) none)
unfolding make_event is_log
subscribe-IsReport id a = (_, refl, inr (inr (inr (inl (refl, (a, refl))))))

pub unsubscribe-IsReport :
    (id : ℕ) (a : Bytes) → IsReport (make_event priority_unsubscribe id 0 0 (some a) none)
unfolding make_event is_log
unsubscribe-IsReport id a = (_, refl, inr (inr (inr (inl (refl, (a, refl))))))

pub connected-IsReport : (id : ℕ) → IsReport (make_event priority_connected id 0 0 none none)
unfolding make_event is_log
connected-IsReport id = (_, refl, inr (inr (inr (inr (inl refl)))))

pub disconnected-IsReport :
    (id t1 : ℕ) (a : Bytes) → IsReport (make_event priority_disconnected id t1 0 (some a) none)
unfolding make_event is_log
disconnected-IsReport id t1 a = (_, refl, inr (inr (inr (inr (inr (refl, (a, refl)))))))
