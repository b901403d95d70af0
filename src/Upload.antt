-- ===== src/Upload.antt =====
-- The upload of a Nano's content (app/modules/upload).
pub mod Validation
pub mod Chunks
pub mod Storage
pub mod Retries
pub mod Draft
pub mod Held
pub mod Accepted
pub mod Private
