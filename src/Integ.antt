-- ===== src/Integ.antt =====
-- scripts/integ_http11.c: one end sends a request, the other reads it and answers, and both use the C
-- parser.
pub mod Socket
pub mod Head
pub mod Body
pub mod Carry
mod Tests
