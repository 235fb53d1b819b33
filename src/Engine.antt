-- ===== src/Engine.antt =====
-- internal/engine: what runs, what is recorded, and what is allowed.
pub mod Apply
pub mod Approve
pub mod Begin
pub mod Journal
pub mod Recovery
pub mod Retention
pub mod SavedNode
pub mod Saved
pub mod Run
pub mod Store
pub mod StoreS3
