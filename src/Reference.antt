-- ===== src/Reference.antt =====
-- reference/picohttpparser.c, as the pinned build compiles it (without SSE4.2).
pub mod Chars
pub mod Scan
pub mod Output
pub mod Ensures
pub mod Agrees
pub mod Ate
pub mod Waits
pub mod Headers
pub mod Request
pub mod Response
pub mod Decoder
pub mod Chunked
mod Tests
mod ResumeTests
