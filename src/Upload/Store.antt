-- ===== src/Upload/Store.antt =====
-- The durable ledger of uploads (crates/autopiercam/src/upload_store.rs): its tables and triggers
-- (Ledger), the operations of UploadStore, and what they keep.
pub mod Errors
pub mod States
pub mod Platform
pub mod FrameNames
pub mod Ledger
pub mod Identity
pub mod Claims
pub mod Artifacts
pub mod Recording
pub mod Operator
pub mod Cursor
pub mod Listing
pub mod Retained
pub mod History
pub mod Operations
