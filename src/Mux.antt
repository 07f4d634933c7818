-- ===== src/Mux.antt =====
-- src/common/mux.h and src/common/mux.cpp: many streams over one connection.
pub mod Header
pub mod Stream
pub mod Write
pub mod Read
pub mod Ops
pub mod Link
pub mod Session
mod Tests
