-- ===== src/Feature.antt =====
-- internal/feature: a feature, its status and the phase that its stage stands in.
pub mod Types
pub mod Phase
pub mod Lifecycle
pub mod Artifacts
pub mod Questions
pub mod Asked
pub mod Answered
