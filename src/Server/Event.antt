-- ===== src/Server/Event.antt =====
-- `DillEvent` of libdill/inc/dill_afx.h, and what `DillServerNetIoCallable::callback` of
-- libdill/src/server_netio.cpp puts into one.
use dill.Base.{ℕ, Option, none, some, Bytes, ◌==◌, if◌then◌else◌}
use dill.Protocol.Ops.{
  is_log, priority_register, priority_publish, priority_subscribe, priority_unsubscribe,
  priority_connected, priority_disconnected, event_log, event_reg, event_publisher,
  event_subscriber, event_connected, event_disconnected,
}

-- A null pointer is `none`, and a string is what its pointer reads as.
pub record DillEvent : Type 0 where
  pub type : ℕ
  pub priority : ℕ
  pub id : ℕ
  pub tag : Option Bytes
  pub content : Option Bytes
  pub timestamp1 : ℕ
  pub timestamp2 : ℕ

-- The event of `callback`; `none` for the `default` case, which leaves fields without a value.
unfoldable pub make_event : ℕ → ℕ → ℕ → ℕ → Option Bytes → Option Bytes → Option DillEvent
make_event op id ts_sec ts_frac str1 str2 =
    if is_log op
    then some (fill event_log op str1 str2)
    else (if op == priority_register
        then some (fill event_reg 0 str1 str2)
        else (if op == priority_publish
            then some (fill event_publisher 0 str1 none)
            else (if op == priority_subscribe
                then some (fill event_subscriber 1 str1 none)
                else (if op == priority_unsubscribe
                    then some (fill event_subscriber 0 str1 none)
                    else (if op == priority_connected
                        then some (fill event_connected 0 none none)
                        else (if op == priority_disconnected
                            then some (fill event_disconnected 0 str1 none)
                            else none))))))
  where
    fill : ℕ → ℕ → Option Bytes → Option Bytes → DillEvent
    fill type priority tag content = record {
      type = type;
      priority = priority;
      id = id;
      tag = tag;
      content = content;
      timestamp1 = ts_sec;
      timestamp2 = ts_frac;
    }
