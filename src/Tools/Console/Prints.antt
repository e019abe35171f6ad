-- ===== src/Tools/Console/Prints.antt =====
-- The callback of tools/subscriber/subscriber.cpp, on what libdill/src/subscribe.cpp hands it.
use dill.Base.{
  ℕ, zero, suc, ◌/◌, ◌≡◌, refl, ◌⊎◌, inl, inr, true, false, [], ◌∷◌, arith, c_str, ok, ◌==◌,
  Bool-cases, All, All-append,
}
use dill.Protocol.{DillParcel}
use dill.Protocol.Ops.{is_log, event_log, event_reg, priority_register, priority_availch}
use dill.Server.Event.{DillEvent}
use dill.Client.{Upcall, on_connected, on_parcel_read, on_parcel_sent, on_io_error}
use dill.Subscriber.{
  DillSubscriber, dispatch, emit, upcall, parcel_read, parcel_sent, on_error, connected, notify_one,
}
use dill.Tools.Console.{
  log_line, register_line, Printed, pri, print_log, print_register, subscriber_event_callback,
}

-- The callback prints an event without a fault, and knows its type.
abbrev pub Prints : DillEvent → Type 0
Prints ev =
    (out : Printed) × (subscriber_event_callback ev ≡ ok out)
    × ((ev.type ≡ event_log) ⊎ (ev.type ≡ event_reg))

-- The five priorities of logs have a letter.
pub pri-is_log : (op : ℕ) → is_log op ≡ true → (c : ℕ) × (pri op ≡ ok c)
unfolding is_log pri
pri-is_log zero h = (b'V', refl)
pri-is_log (suc zero) h = (b'D', refl)
pri-is_log (suc (suc zero)) h = (b'I', refl)
pri-is_log (suc (suc (suc zero))) h = (b'W', refl)
pri-is_log (suc (suc (suc (suc zero)))) h = (b'E', refl)
pri-is_log (suc (suc (suc (suc (suc op))))) h = absurd (ground arith)

emit-Prints :
    (ev : DillEvent) (s : DillSubscriber)
    → Prints ev
    → All Prints s.events
    → All Prints (emit ev s).events
unfolding emit
emit-Prints ev s h hs = elim (Bool-cases s.evcb) [
  | inl e ↦ rw (emit, e) (All-append Prints s.events (ev ∷ []) hs (h, tt))
  | inr e ↦ rw (emit, e) hs
]

dispatch-Prints :
    (p : DillParcel) (s : DillSubscriber) → All Prints s.events → All Prints (dispatch p s).events
unfolding dispatch subscriber_event_callback print_log print_register notify_one
dispatch-Prints p s hs = elim (Bool-cases (is_log p.op)) [
  | inl e ↦
      let (c, label) = pri-is_log p.op e in
      rw (dispatch, e)
        (emit-Prints _ s
          (
            log_line p.id p.timestamp1 (p.timestamp2 / 1000) c (c_str p.str1) (c_str p.str2),
            rw (print_log, label) refl,
            inl refl,
          )
          hs)
  | inr e ↦ elim (Bool-cases (p.op == priority_register)) [
    | inl e' ↦
        rw (dispatch, e, e')
          (emit-Prints _ s (register_line p.id (c_str p.str1) (c_str p.str2), refl, inr refl) hs)
    | inr e' ↦ elim (Bool-cases (p.op == priority_availch)) [
      | inl e'' ↦ rw (dispatch, e, e', e'') hs
      | inr e'' ↦ rw (dispatch, e, e', e'') hs
    ]
  ]
]

on_error-Prints : (s : DillSubscriber) → All Prints s.events → All Prints (on_error s).events
unfolding on_error notify_one
on_error-Prints s hs = elim (Bool-cases s.on_rpc) [
  | inl e ↦ rw (on_error, e) hs
  | inr e ↦ rw (on_error, e) hs
]

-- Whatever call the subscriber's connection makes, the events of the subscriber stay such that the
-- program prints each as a log or a register, without a fault.
pub upcall-Prints :
    (u : Upcall) (s : DillSubscriber) → All Prints s.events → All Prints (upcall u s).events
unfolding upcall connected parcel_read parcel_sent
upcall-Prints (on_connected true) s hs = hs
upcall-Prints (on_connected false) s hs = on_error-Prints s hs
upcall-Prints (on_parcel_read p) s hs = dispatch-Prints p s hs
upcall-Prints (on_parcel_sent true) s hs = hs
upcall-Prints (on_parcel_sent false) s hs = on_error-Prints s hs
upcall-Prints on_io_error s hs = on_error-Prints s hs
