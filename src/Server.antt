-- ===== src/Server.antt =====
-- The server: libdill/src/server_netio.h, server_netio.cpp, server_conn.h and server_conn.cpp.
pub mod Event
pub mod State
pub mod Registry
pub mod Connection
pub mod Loop
pub mod Safety
pub mod Channels
pub mod Frames
pub mod Replies
