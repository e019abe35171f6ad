-- ===== src/Api/Namespace.antt =====
-- The functions of the namespace `dill` in libdill/src/log.cpp, subscribe.cpp and server.cpp, over the
-- same global pointers.
use dill.Base.{ℕ, Bool, Option, Bytes, c_str, Result, ◌==◌, if◌then◌else◌}
use dill.Protocol.Ops.{
  ec_succeed, priority_verbose, priority_debug, priority_info, priority_warn, priority_error,
  priority_register,
}
use dill.Agent.{DillLogAgent}
use dill.Subscriber.{DillSubscriber}
use dill.Server.State.{DillServer}
use dill.Api.Log.{dill_log_init_to, dill_log_deinit, log_println, default_port}
use dill.Api.Subscribe.{
  dill_subscribe_init_to, dill_subscribe_deinit, dill_subscribe_evcb, dill_subscribe_channel,
  dill_ask,
}
use dill.Api.Server.{dill_server_init, dill_server_deinit, dill_server_evcb}

abbrev Agent : Type 0
Agent = Option DillLogAgent

unfoldable pub log_init : Bytes → ℕ → Bytes → Bytes → Bytes → Agent → ℕ × Agent
log_init channel port addr rd_buf wt_buf g = dill_log_init_to channel port addr rd_buf wt_buf g

unfoldable pub log_deinit : Agent → Agent
log_deinit g = dill_log_deinit g

unfoldable pub logv : ℕ → Bytes → Bytes → ℕ → ℕ → Agent → Result (Bool × Agent)
logv junk tag msg seconds fraction g = log_println junk priority_verbose tag msg seconds fraction g

unfoldable pub logd : ℕ → Bytes → Bytes → ℕ → ℕ → Agent → Result (Bool × Agent)
logd junk tag msg seconds fraction g = log_println junk priority_debug tag msg seconds fraction g

unfoldable pub logi : ℕ → Bytes → Bytes → ℕ → ℕ → Agent → Result (Bool × Agent)
logi junk tag msg seconds fraction g = log_println junk priority_info tag msg seconds fraction g

unfoldable pub logw : ℕ → Bytes → Bytes → ℕ → ℕ → Agent → Result (Bool × Agent)
logw junk tag msg seconds fraction g = log_println junk priority_warn tag msg seconds fraction g

unfoldable pub loge : ℕ → Bytes → Bytes → ℕ → ℕ → Agent → Result (Bool × Agent)
loge junk tag msg seconds fraction g = log_println junk priority_error tag msg seconds fraction g

unfoldable pub reg_str : ℕ → Bytes → Bytes → ℕ → ℕ → Agent → Result (Bool × Agent)
reg_str junk name content seconds fraction g =
    log_println junk priority_register name content seconds fraction g

-- `regInt` and `regReal`; `lexical_cast` is `boost::lexical_cast` to a string.
unfoldable pub reg_int :
    {A : Type 0} → (A → Bytes) → ℕ → Bytes → A → ℕ → ℕ → Agent → Result (Bool × Agent)
reg_int lexical_cast junk name content seconds fraction g =
    log_println junk priority_register name (c_str (lexical_cast content)) seconds fraction g

abbrev Subscriber : Type 0
Subscriber = Option DillSubscriber

unfoldable pub subscribe_init : ℕ → Bytes → Bytes → Bytes → Subscriber → ℕ × Subscriber
subscribe_init port addr rd_buf wt_buf g = dill_subscribe_init_to port addr rd_buf wt_buf g

unfoldable pub subscribe_deinit : Subscriber → Subscriber
subscribe_deinit g = dill_subscribe_deinit g

-- `availableChannels`, then `getChannelName`, up to the wait.
unfoldable pub available_channels : Subscriber → Option DillSubscriber
available_channels g = dill_ask 0 g

unfoldable pub get_channel_name : ℕ → Subscriber → Option DillSubscriber
get_channel_name index g = dill_ask index g

-- `DILL_SUBSCRIBE` is 0 and `DILL_UNSUBSCRIBE` is 1.
unfoldable pub subscribe_channel : ℕ → Bool → Subscriber → Bool × Subscriber
subscribe_channel index on g =
    let (ec, g') = dill_subscribe_channel index (if on then 0 else 1) g in (ec == ec_succeed, g')

unfoldable pub subscribe_event_callback : Bool → Subscriber → Subscriber
subscribe_event_callback fn g = dill_subscribe_evcb fn g

abbrev Server : Type 0
Server = Option DillServer

unfoldable pub server_init : Bool → ℕ → ℕ → Server → ℕ × Server
server_init bound bufsize channels g = dill_server_init bound bufsize channels g

unfoldable pub server_deinit : Server → Server
server_deinit g = dill_server_deinit g

unfoldable pub server_event_callback : Bool → Server → Server
server_event_callback fn g = dill_server_evcb fn g

-- The default arguments of `serverInit` (libdill/inc/dill_server.h), `logInit` (libdill/inc/dill_log.h)
-- and `subscribeInit` (libdill/inc/dill_subscriber.h).
abbrev default_channel_buffer : ℕ
default_channel_buffer = 1048576

abbrev default_max_channels : ℕ
default_max_channels = 10

unfoldable pub server_init_default : Bool → Server → ℕ × Server
server_init_default bound g = server_init bound default_channel_buffer default_max_channels g

unfoldable pub log_init_default : Bytes → Bytes → Bytes → Bytes → Agent → ℕ × Agent
log_init_default channel default_addr rd_buf wt_buf g =
    log_init channel default_port default_addr rd_buf wt_buf g

unfoldable pub subscribe_init_default : Bytes → Bytes → Bytes → Subscriber → ℕ × Subscriber
subscribe_init_default default_addr rd_buf wt_buf g =
    subscribe_init default_port default_addr rd_buf wt_buf g
