-- ===== src/Api/Server.antt =====
-- The exported functions of libdill/src/server.cpp. Each takes the global `_g_server` and returns what
-- it becomes; `none` is the null pointer.
use dill.Base.{ℕ, Bool, Option, none, some}
use dill.Server.State.{DillServer, register_event_callback}
use dill.Server.Loop.{new_server, enter_loop}

abbrev Server : Type 0
Server = Option DillServer

-- `bound` tells whether the port could be bound; `getStatus` is the result. The thread that the
-- constructor starts enters its loop.
unfoldable pub dill_server_init : Bool → ℕ → ℕ → Server → ℕ × Server
dill_server_init bound bufsize channels none =
    let s = new_server bound bufsize channels in (s.status, some (enter_loop s))
dill_server_init bound bufsize channels (some s) = (s.status, some s)

unfoldable pub dill_server_deinit : Server → Server
dill_server_deinit g = none

unfoldable pub dill_server_evcb : Bool → Server → Server
dill_server_evcb fn none = none
dill_server_evcb fn (some s) = some (register_event_callback fn s)
