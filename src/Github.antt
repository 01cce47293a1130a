-- ===== src/Github.antt =====
-- internal/github: the client of GitHub, its credentials and its polling.
pub mod Credentials
pub mod Tokens
pub mod Unstored
pub mod Mergeable
pub mod Polling
pub mod Verdicts
