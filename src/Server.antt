-- ===== src/Server.antt =====
-- The server (src/server/server.h, src/server/server.cpp): what it keeps for its clients and users.
pub mod Names
pub mod Pending
pub mod Vhost
pub mod Registry
pub mod Control
pub mod Work
mod Tests
