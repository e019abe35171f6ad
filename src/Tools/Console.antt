-- ===== src/Tools/Console.antt =====
-- tools/subscriber/subscriber.cpp and tools/server/server.cpp: what they print of an event, and the
-- commands that they read. The layout of what is printed is left out: `Printed` has what is in it.
pub mod Prints
pub mod Reports
pub mod Commands
use dill.Base.{
  ℕ, zero, suc, ◌+◌, ◌-◌, ◌*◌, ◌/◌, ◌%◌, ◌^◌, ◌≤◌, ◌<◌, min, ◌≡◌, refl, sym, ap, ◌∙◌, subst, ◌≢◌,
  ◌↔◌, ◌⊎◌, inl, inr, Bool, true, false, not, ◌&&◌, ◌||◌, Option, none, some, List, [], ◌∷◌, ◌++◌,
  map, append-nil, append_assoc, arith, Bytes, u16, u32, c_str, overwrite, Fault, use_after_free,
  null_string, out_of_bounds, Result, ok, err, ◌>>=◌, or_fault, invert, length-overwrite,
  take-overwrite, ltb, leb, ◌==◌, if◌then◌else◌, ==_iff, ==_refl, Bool-cases, Option-cases, dec_le,
  dec_lt, ℕ_discrete, not-==, bytes_eq, bytes_eq→eq, bytes_eq_refl, bytes_eq_sym, length, get_elem?,
  set, take, drop, replicate, length-replicate, length-append, length-take, length-drop, take_all,
  length-set, get_elem?-lt, get_elem?-ge, get_elem?-none, get_elem?-append_left,
  get_elem?-append_last, get_elem?-some, length-map, All, All-append, All-set, All-get_elem?,
  All-map, set_insert, set_erase, contains, All-set_insert, All-set_erase, IsOrdered,
  set_insert-IsOrdered, set_erase-IsOrdered, contains-set_insert, contains-set_erase, StringMap,
  map_put, map_find, map_find-map_put,
}
use dill.Protocol.Ops.{
  priority_verbose, event_log, event_reg, event_publisher, event_subscriber, event_connected,
  event_disconnected, ec_succeed,
}
use dill.Server.Event.{DillEvent}
use dill.Viewer.App.{Dill}

pub data Printed : Type 0 where
  log_line : ℕ → ℕ → ℕ → ℕ → Bytes → Bytes → Printed
  register_line : ℕ → Bytes → Bytes → Printed
  publish_line : ℕ → Bytes → Printed
  subscribe_line : Bool → ℕ → Bytes → Printed
  connected_line : ℕ → Printed
  disconnected_line : Bool → ℕ → Bytes → Printed
  fatal_event : Printed

-- A string is written to `std::cout`.
abbrev pub text : Option Bytes → Result Bytes
text s = or_fault s null_string

-- `pri`, indexed without a test.
unfoldable pub pri : ℕ → Result ℕ
pri priority =
    or_fault (get_elem? (b'V' ∷ b'D' ∷ b'I' ∷ b'W' ∷ b'E' ∷ []) (priority - priority_verbose))
      out_of_bounds

-- The cases of a log and a register, which both programs have.
unfoldable pub print_log : DillEvent → Result Printed
print_log ev = do
  label ← pri ev.priority
  tag ← text ev.tag
  content ← text ev.content
  ok (log_line ev.id ev.timestamp1 (ev.timestamp2 / 1000) label tag content)

unfoldable pub print_register : DillEvent → Result Printed
print_register ev = do
  tag ← text ev.tag
  content ← text ev.content
  ok (register_line ev.id tag content)

unfoldable pub subscriber_event_callback : DillEvent → Result Printed
subscriber_event_callback ev =
    if ev.type == event_log
    then print_log ev
    else (if ev.type == event_reg then print_register ev else ok fatal_event)

unfoldable pub server_event_callback : DillEvent → Result Printed
server_event_callback ev =
    if ev.type == event_log
    then print_log ev
    else (if ev.type == event_reg
        then print_register ev
        else (if ev.type == event_publisher
            then (text ev.tag >>= λ tag. ok (publish_line ev.id tag))
            else (if ev.type == event_subscriber
                then (text ev.tag >>= λ tag. ok (subscribe_line (ev.priority == 1) ev.id tag))
                else (if ev.type == event_connected
                    then ok (connected_line ev.id)
                    else (if ev.type == event_disconnected
                        then ((if ev.timestamp1 == 1 then text ev.tag else ok []) >>= λ tag.
                            ok (disconnected_line (ev.timestamp1 == 1) ev.id tag))
                        else ok fatal_event)))))

-- What a command of the subscriber does: it lists the channels with their names, or makes a call that
-- subscribes.
pub data Done : Type 0 where
  listed : List (ℕ × Bytes) → Done
  subscribing : ℕ → Bool → Done
  nothing : Done

-- The loop over the channels; the first number counts the calls of libdill before.
unfoldable pub list_channels : Dill → ℕ → ℕ → ℕ → List (ℕ × Bytes)
list_channels dill t i zero = []
list_channels dill t i (suc n) =
    (i, dill.get_channel_name t i) ∷ list_channels dill (t + 1) (i + 1) n

-- The channel of a command; `sscanf` is what `std::sscanf` reads with "%u", and `junk` what `id` holds
-- where it reads nothing.
unfoldable pub subscribe_command : (Bytes → Option ℕ) → ℕ → Bool → Bytes → Done
subscribe_command sscanf junk on [] = nothing
subscribe_command sscanf junk on (c ∷ chstr) = elim (sscanf (c_str (c ∷ chstr))) [
  | none ↦ subscribing junk on
  | some id ↦ subscribing id on
]

abbrev pub quit_line : Bytes
quit_line = b'q' ∷ b'u' ∷ b'i' ∷ b't' ∷ []

-- One round of the loop of the subscriber's `main`; `none` if the loop ends.
unfoldable pub on_command : (Bytes → Option ℕ) → Dill → ℕ → ℕ → Bytes → Option Done
on_command sscanf dill junk t line =
    if bytes_eq line quit_line
    then none
    else (if bytes_eq line (b'c' ∷ b'h' ∷ [])
        then some (listed (list_channels dill (t + 1) 0 (dill.available_channels t)))
        else (if bytes_eq (take 2 line) (b's' ∷ b' ' ∷ [])
            then some (subscribe_command sscanf junk true (drop 2 line))
            else (if bytes_eq (take 2 line) (b'u' ∷ b' ' ∷ [])
                then some (subscribe_command sscanf junk false (drop 2 line))
                else some nothing)))

-- The loop of the server's `main`, on the lines of its input: whether a line ends it.
unfoldable pub has_quit : List Bytes → Bool
has_quit [] = false
has_quit (line ∷ lines) = bytes_eq line quit_line || has_quit lines

-- The server's `main`: the result of the program, or `none` if it goes on for ever.
unfoldable pub server_main : ℕ → List Bytes → Option ℕ
server_main error_code lines =
    if error_code == ec_succeed
    then (if has_quit lines then some error_code else none)
    else some error_code
