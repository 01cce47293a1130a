-- ===== src/Stage.antt =====
-- internal/stage: the statuses, scopes and definitions of the stages.
pub mod Status
pub mod Ids
pub mod Scope
pub mod Definitions
