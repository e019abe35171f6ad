-- ===== src/Api/Log.antt =====
-- The exported functions of libdill/src/log.cpp. Each takes the global `_g_agent` and returns what it
-- becomes; `none` is the null pointer. `seconds` and `fraction` are the time at the call, and
-- `lexical_cast` is `boost::lexical_cast` to a string.
use dill.Base.{
  ℕ, ◌≡◌, refl, Bool, true, false, Option, none, some, Bytes, c_str, Result, ok, err, ◌>>=◌, ◌==◌,
  if◌then◌else◌,
}
use dill.Agent.{DillLogAgent, new_agent, on_started, post}
use dill.Client.{new_client, start}
use dill.Protocol.Ops.{
  priority_warn, priority_verbose, priority_register, priority_info, priority_error, priority_debug,
  ec_succeed, ec_unknown,
}

abbrev pub default_port : ℕ
default_port = 5299

abbrev Agent : Type 0
Agent = Option DillLogAgent

-- The thread that the constructor starts runs `onStarted` first. `rd_buf` and `wt_buf` are what the
-- buffers of the new object hold.
unfoldable pub dill_log_init_to : Bytes → ℕ → Bytes → Bytes → Bytes → Agent → ℕ × Agent
dill_log_init_to channel port addr rd_buf wt_buf none = (
  ec_succeed,
  some (on_started (new_agent channel (start (new_client port (c_str addr) rd_buf wt_buf)))),
)
dill_log_init_to channel port addr rd_buf wt_buf (some a) = (ec_succeed, some a)

-- `default_addr` is the text of `DILL_DEFAULT_ADDR`.
unfoldable pub dill_log_init : Bytes → Bytes → Bytes → Bytes → Agent → ℕ × Agent
dill_log_init channel default_addr rd_buf wt_buf g =
    dill_log_init_to channel default_port default_addr rd_buf wt_buf g

-- The destructor stops and joins the thread; nothing of the agent is left.
unfoldable pub dill_log_deinit : Agent → Agent
dill_log_deinit g = none

-- `ret` has no value until it is assigned: `junk` is what it happens to hold.
unfoldable pub dill_println : ℕ → ℕ → Bytes → Bytes → ℕ → ℕ → Agent → Result (ℕ × Agent)
dill_println junk pri tag msg seconds fraction none = ok (junk, none)
dill_println junk pri tag msg seconds fraction (some a) = do
  (posted, a') ← post pri tag msg seconds fraction a
  ok ((if posted then ec_succeed else ec_unknown), some a')

unfoldable pub dill_logv : ℕ → Bytes → Bytes → ℕ → ℕ → Agent → Result (ℕ × Agent)
dill_logv junk tag msg seconds fraction g =
    dill_println junk priority_verbose tag msg seconds fraction g

unfoldable pub dill_logd : ℕ → Bytes → Bytes → ℕ → ℕ → Agent → Result (ℕ × Agent)
dill_logd junk tag msg seconds fraction g =
    dill_println junk priority_debug tag msg seconds fraction g

unfoldable pub dill_logi : ℕ → Bytes → Bytes → ℕ → ℕ → Agent → Result (ℕ × Agent)
dill_logi junk tag msg seconds fraction g =
    dill_println junk priority_info tag msg seconds fraction g

unfoldable pub dill_logw : ℕ → Bytes → Bytes → ℕ → ℕ → Agent → Result (ℕ × Agent)
dill_logw junk tag msg seconds fraction g =
    dill_println junk priority_warn tag msg seconds fraction g

unfoldable pub dill_loge : ℕ → Bytes → Bytes → ℕ → ℕ → Agent → Result (ℕ × Agent)
dill_loge junk tag msg seconds fraction g =
    dill_println junk priority_error tag msg seconds fraction g

unfoldable pub dill_reg : ℕ → Bytes → Bytes → ℕ → ℕ → Agent → Result (ℕ × Agent)
dill_reg junk name content seconds fraction g =
    dill_println junk priority_register name content seconds fraction g

-- `dill_regi` and `dill_regd`.
unfoldable pub dill_regi :
    {A : Type 0} → (A → Bytes) → ℕ → Bytes → A → ℕ → ℕ → Agent → Result (ℕ × Agent)
dill_regi lexical_cast junk name content seconds fraction g =
    dill_reg junk name (c_str (lexical_cast content)) seconds fraction g

-- `logPrintln` of the namespace `dill`, which compares the result with `DILL_EC_SUCCEED`.
unfoldable pub log_println : ℕ → ℕ → Bytes → Bytes → ℕ → ℕ → Agent → Result (Bool × Agent)
log_println junk pri tag msg seconds fraction g = do
  (ret, g') ← dill_println junk pri tag msg seconds fraction g
  ok (ec_succeed == ret, g')

result : Bool → Agent → Result (ℕ × Agent)
result posted g = ok ((if posted then ec_succeed else ec_unknown), g)

compared : ℕ → Agent → Result (Bool × Agent)
compared ret g = ok (ec_succeed == ret, g)

kept : Bool → Agent → Result (Bool × Agent)
kept posted g = ok (posted, g)

-- With an agent, `logPrintln` does what `post` does and returns what `post` returns, whatever `ret`
-- held; without one it returns true exactly when `ret` happens to hold 0, and nothing is logged.
log_println_lem :
    (junk pri : ℕ) (tag msg : Bytes) (seconds fraction : ℕ) (a : DillLogAgent)
    → (log_println junk pri tag msg seconds fraction (some a)
        ≡ (post pri tag msg seconds fraction a >>= λ (posted, a'). ok (posted, some a')))
      × (log_println junk pri tag msg seconds fraction none ≡ ok (ec_succeed == junk, none))
unfolding log_println dill_println result compared kept
log_println_lem junk pri tag msg seconds fraction a =
    (go (post pri tag msg seconds fraction a), refl)
  where
    go :
        (r : Result (Bool × DillLogAgent))
        → ((r >>= λ (posted, a'). result posted (some a')) >>= λ (ret, g'). compared ret g')
          ≡ (r >>= λ (posted, a'). kept posted (some a'))
    go (ok (true, a')) = refl
    go (ok (false, a')) = refl
    go (err e) = refl
