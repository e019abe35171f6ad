-- ===== src/Protocol/Ops.antt =====
-- The constants of libdill/inc/dill_afx.h and libdill/src/protocol.h.
use dill.Base.{ℕ, ◌≡◌, refl, Bool, true, ◌||◌, ◌==◌}

abbrev pub priority_verbose : ℕ
priority_verbose = 0

abbrev pub priority_debug : ℕ
priority_debug = 1

abbrev pub priority_info : ℕ
priority_info = 2

abbrev pub priority_warn : ℕ
priority_warn = 3

abbrev pub priority_error : ℕ
priority_error = 4

abbrev pub priority_connected : ℕ
priority_connected = 247

abbrev pub priority_disconnected : ℕ
priority_disconnected = 248

abbrev pub priority_reply_ok : ℕ
priority_reply_ok = 249

abbrev pub priority_reply_full : ℕ
priority_reply_full = 250

abbrev pub priority_availch : ℕ
priority_availch = 251

abbrev pub priority_subscribe : ℕ
priority_subscribe = 252

abbrev pub priority_unsubscribe : ℕ
priority_unsubscribe = 253

abbrev pub priority_publish : ℕ
priority_publish = 254

abbrev pub priority_register : ℕ
priority_register = 255

abbrev pub event_log : ℕ
event_log = 0

abbrev pub event_reg : ℕ
event_reg = 1

abbrev pub event_publisher : ℕ
event_publisher = 3

abbrev pub event_subscriber : ℕ
event_subscriber = 4

abbrev pub event_connected : ℕ
event_connected = 5

abbrev pub event_disconnected : ℕ
event_disconnected = 6

abbrev pub ec_succeed : ℕ
ec_succeed = 0

abbrev pub ec_unknown : ℕ
ec_unknown = 1

abbrev pub ec_bind : ℕ
ec_bind = 2

-- The five `case` labels of the log priorities.
unfoldable pub is_log : ℕ → Bool
is_log op =
    op == priority_verbose
    || (op == priority_debug
        || (op == priority_info || (op == priority_warn || op == priority_error)))

-- `enum PRIORITY` of libdill/inc/dill_log.h.
pub data Priority : Type 0 where
  verbose debug info warn error : Priority

unfoldable pub priority_of : Priority → ℕ
priority_of verbose = priority_verbose
priority_of debug = priority_debug
priority_of info = priority_info
priority_of warn = priority_warn
priority_of error = priority_error

-- What the enumeration lists are the priorities of logs.
priority_of-is_log : (p : Priority) → is_log (priority_of p) ≡ true
unfolding priority_of is_log
priority_of-is_log verbose = refl
priority_of-is_log debug = refl
priority_of-is_log info = refl
priority_of-is_log warn = refl
priority_of-is_log error = refl
