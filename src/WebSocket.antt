-- ===== src/WebSocket.antt =====
-- WebSocket frames over a stream (src/common/websocket_stream.h, src/common/websocket_stream.cpp).
pub mod Frame
pub mod Write
pub mod Read
pub mod Exchange
pub mod Handshake
mod Tests
