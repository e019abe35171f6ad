-- ===== src/Api.antt =====
-- The exported functions of libdill/src/log.cpp, subscribe.cpp and server.cpp, each over its global
-- pointer.
pub mod Log
pub mod Subscribe
pub mod Server
pub mod Namespace
