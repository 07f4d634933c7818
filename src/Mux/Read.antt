-- ===== src/Mux/Read.antt =====
-- The reading half of `MuxStream`: `do_read_from_buffer`, `check_cleanup`.
pub mod Copy
pub mod Loop
pub mod Order
pub mod Serve
