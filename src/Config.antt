-- ===== src/Config.antt =====
-- internal/config: the configured providers of language models.
pub mod Types
pub mod Names
pub mod Merge
pub mod Sorted
pub mod Tiers
pub mod Tiered
pub mod Resolve
pub mod Resolved
pub mod Keys
pub mod Merged
pub mod Tables
pub mod Closed
pub mod Known
