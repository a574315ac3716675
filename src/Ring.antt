-- ===== src/Ring.antt =====
-- container/ring: byte rings of fixed size.
pub mod Fixed
pub mod Bounded
