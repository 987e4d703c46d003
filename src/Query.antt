-- ===== src/Query.antt =====
-- rust/rubydex/src/query.rs: questions about a resolved graph.
pub mod Ancestors
pub mod MethodAlias
pub mod Search
pub mod Score
