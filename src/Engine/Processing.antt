-- ===== src/Engine/Processing.antt =====
-- engine/processing.go and `tryFallback` of engine/transport_manager.go: from a point to its rules'
-- targets. `publishToTargets` is in the child Targets, `processPoint` in the child Pipeline.
pub mod Targets
pub mod Chains
pub mod Attempts
pub mod Pipeline
pub mod Actions
pub mod Loop
pub mod Points
mod Tests
