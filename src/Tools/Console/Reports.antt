-- ===== src/Tools/Console/Reports.antt =====
-- The callback of tools/server/server.cpp, on what libdill/src/server_netio.cpp hands it.
use dill.Base.{
  ℕ, ◌/◌, ◌≡◌, refl, ◌≢◌, inl, inr, Bool, true, false, Option, some, [], ok, ◌==◌, Bool-cases, All,
  All-map,
}
use dill.Server.Event.{DillEvent}
use dill.Server.State.{DillServer, Pending}
use dill.Server.Loop.{Outcome, Reach, new_server, enter_loop}
use dill.Server.Channels.Closed.{Closed}
use dill.Server.Channels.Loop.{Reach-events}
use dill.Server.Channels.Reports.{IsReport}
use dill.Tools.Console.{
  Printed, log_line, register_line, publish_line, subscribe_line, connected_line, disconnected_line,
  fatal_event, print_log, print_register, server_event_callback,
}
use dill.Tools.Console.Prints.{pri-is_log}

-- An event with all fields set, which the callback prints without a fault, and not as one of an
-- unknown type.
abbrev pub IsPrinted : Option DillEvent → Type 0
IsPrinted e =
    (ev : DillEvent) × (out : Printed) × (e ≡ some ev)
    × (server_event_callback ev ≡ ok out)
    × (out ≢ fatal_event)

IsReport-IsPrinted : (e : Option DillEvent) → IsReport e → IsPrinted e
unfolding server_event_callback print_log print_register
IsReport-IsPrinted e (ev, same, inl (kind, priority, (tag, has_tag), (content, has_content))) =
    let (c, label) = pri-is_log ev.priority priority in
    (
      ev,
      log_line ev.id ev.timestamp1 (ev.timestamp2 / 1000) c tag content,
      same,
      rw (server_event_callback, kind, print_log, label, has_tag, has_content) refl,
      λ p. cc,
    )
IsReport-IsPrinted e (ev, same, inr (inl (kind, (tag, has_tag), (content, has_content)))) = (
  ev,
  register_line ev.id tag content,
  same,
  rw (server_event_callback, kind, print_register, has_tag, has_content) refl,
  λ p. cc,
)
IsReport-IsPrinted e (ev, same, inr (inr (inl (kind, (tag, has_tag))))) =
    (ev, publish_line ev.id tag, same, rw (server_event_callback, kind, has_tag) refl, λ p. cc)
IsReport-IsPrinted e (ev, same, inr (inr (inr (inl (kind, (tag, has_tag)))))) = (
  ev,
  subscribe_line (ev.priority == 1) ev.id tag,
  same,
  rw (server_event_callback, kind, has_tag) refl,
  λ p. cc,
)
IsReport-IsPrinted e (ev, same, inr (inr (inr (inr (inl kind))))) =
    (ev, connected_line ev.id, same, rw (server_event_callback, kind) refl, λ p. cc)
IsReport-IsPrinted e' (ev, same, inr (inr (inr (inr (inr (kind, (tag, has_tag))))))) =
    elim (Bool-cases (ev.timestamp1 == 1)) [
      | inl e ↦ (
        ev,
        disconnected_line true ev.id tag,
        same,
        rw (server_event_callback, kind, e, has_tag) refl,
        λ p. cc,
      )
      | inr e ↦ (
        ev,
        disconnected_line false ev.id [],
        same,
        rw (server_event_callback, kind, e) refl,
        λ p. cc,
      )
    ]

-- Whatever completes and however, each event that the server has handed its callback has all fields
-- set, and the program prints it, without a fault, as one of the six types that it knows.
pub printed_lem :
    (bound : Bool) (bufsize maxchannels : ℕ) {Q : Pending → Outcome → Type 0} {s : DillServer}
    → Reach Q (enter_loop (new_server bound bufsize maxchannels)) s
    → All IsPrinted s.events
printed_lem bound bufsize maxchannels {s = s} r =
    let any : Closed bufsize maxchannels (λ chs. Unit {0}) = record {
      updates = λ chs i c p e h. tt;
      attaches = λ chs i c conn e h. tt;
      detaches = λ chs i c conn e h. tt;
      detaches_all = λ chs conn h. tt;
      creates = λ chs name free room h. tt;
    } in
    All-map IsReport-IsPrinted s.events
      (Reach-events bufsize maxchannels (λ chs. Unit {0}) any bound tt r)
