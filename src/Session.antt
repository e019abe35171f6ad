-- ===== src/Session.antt =====
-- A subscriber (libdill/src/subscribe.cpp) and a server (libdill/src/server_conn.cpp) at the two ends of a
-- connection, the viewer (dlv/dlv_app.cpp) that asks the server, and a log on its way from a publisher
-- (libdill/src/log.cpp) to a subscriber.
pub mod Question
pub mod Status
pub mod Forward
pub mod Journey
