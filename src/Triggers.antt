-- ===== src/Triggers.antt =====
-- Automatic pier-camera images (crates/autopiercam-chatstronomy/src/triggers.rs): which completed
-- frames are offered to the Hub, and when.
pub mod Rules
pub mod Events
pub mod Periodic
pub mod Scheduler
pub mod Delivery
pub mod Invariant
pub mod Freshness
pub mod Slew
pub mod Polls
