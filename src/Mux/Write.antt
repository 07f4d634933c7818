-- ===== src/Mux/Write.antt =====
-- The writing half of `MuxStream`: `async_write`, `do_write`, `handle_window_update`.
pub mod Buffers
pub mod Loop
pub mod Order
