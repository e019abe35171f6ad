-- ===== src/Api/Subscribe.antt =====
-- The exported functions of libdill/src/subscribe.cpp. Each takes the global `_g_subscriber` and
-- returns what it becomes; `none` is the null pointer.
use dill.Base.{ℕ, Bool, Option, none, some, Bytes, c_str, ◌==◌}
use dill.Subscriber.{
  DillSubscriber, new_subscriber, on_started, register_event_callback, ask, subscribe,
}
use dill.Client.{new_client, start}
use dill.Api.Log.{default_port}
use dill.Protocol.Ops.{ec_unknown, ec_succeed}

abbrev Subscriber : Type 0
Subscriber = Option DillSubscriber

unfoldable pub dill_subscribe_init_to : ℕ → Bytes → Bytes → Bytes → Subscriber → ℕ × Subscriber
dill_subscribe_init_to port addr rd_buf wt_buf none = (
  ec_succeed,
  some (on_started (new_subscriber (start (new_client port (c_str addr) rd_buf wt_buf)))),
)
dill_subscribe_init_to port addr rd_buf wt_buf (some s) = (ec_succeed, some s)

-- `default_addr` is the text of `DILL_DEFAULT_ADDR`.
unfoldable pub dill_subscribe_init : Bytes → Bytes → Bytes → Subscriber → ℕ × Subscriber
dill_subscribe_init default_addr rd_buf wt_buf g =
    dill_subscribe_init_to default_port default_addr rd_buf wt_buf g

unfoldable pub dill_subscribe_deinit : Subscriber → Subscriber
dill_subscribe_deinit g = none

unfoldable pub dill_subscribe_evcb : Bool → Subscriber → Subscriber
dill_subscribe_evcb fn none = none
dill_subscribe_evcb fn (some s) = some (register_event_callback fn s)

-- `dill_available_channels` and `dill_channel_name` up to the wait: `none` when the function returns
-- at once, with 0 or the empty name.
unfoldable pub dill_ask : ℕ → Subscriber → Option DillSubscriber
dill_ask index none = none
dill_ask index (some s) = ask index s

-- `subscribe` is compared with `DILL_SUBSCRIBE`, which is 0.
unfoldable pub dill_subscribe_channel : ℕ → ℕ → Subscriber → ℕ × Subscriber
dill_subscribe_channel index on none = (ec_unknown, none)
dill_subscribe_channel index on (some s) =
    let (ec, s') = subscribe index (on == 0) s in (ec, some s')
