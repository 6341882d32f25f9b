-- ===== src/Tests.antt =====
-- Runs of the model on concrete inputs, and the theorems applied to them.
mod Exposure
mod Files
mod Retention
mod Sweep
mod Triggers
mod Upload
mod Worker
mod Store
mod Uploads
