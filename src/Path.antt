-- ===== src/Path.antt =====
-- internal/tools/pathparsing
pub mod Parse
pub mod Segments
pub mod RoundTrip
pub mod Outcomes
pub mod Nested
