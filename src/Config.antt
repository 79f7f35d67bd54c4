-- ===== src/Config.antt =====
-- The configuration documents and the changes made to them.
pub mod Service
pub mod Routes
pub mod Api
pub mod Save
pub mod Changes
pub mod Secrets
pub mod Store
pub mod Document
pub mod Json
pub mod Pointer
pub mod Patch
pub mod Sip
mod Tests
