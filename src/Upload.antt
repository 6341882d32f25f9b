-- ===== src/Upload.antt =====
-- Uploading (crates/autopiercam/src/upload.rs, crates/autopiercam/src/upload_store.rs): what is made of an
-- attempt, the ledger of uploads, one upload, and the worker.
pub mod Retry
pub mod Store
pub mod Transport
pub mod Worker
