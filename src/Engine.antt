-- ===== src/Engine.antt =====
-- The orchestration layer (engine/), one module for each part.
pub mod DataBus
pub mod Derived
pub mod Processing
pub mod Writes
pub mod Commands
pub mod Cache
pub mod Alerts
pub mod OfflineBuffer
pub mod Batcher
