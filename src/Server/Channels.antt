-- ===== src/Server/Channels.antt =====
-- What the handlers of libdill/src/server_conn.cpp and server_netio.cpp may do to the channels, and
-- what they keep of them.
pub mod Reports
pub mod Closed
pub mod Kept
pub mod Loop
pub mod Registry
pub mod Valid
