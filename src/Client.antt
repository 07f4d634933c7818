-- ===== src/Client.antt =====
-- The client (src/client/client.h, src/client/client.cpp): its connection to the server and its proxies.
pub mod Connection
pub mod Proxies
pub mod Work
mod Tests
