-- ===== src/Model.antt =====
-- The data model of the index: rust/rubydex/src/model/ and rust/rubydex/src/offset.rs.
pub mod Ids
pub mod Source
pub mod Visibility
pub mod StringRef
pub mod Name
pub mod Reference
pub mod Definition
pub mod Declaration
pub mod Document
pub mod Dependent
