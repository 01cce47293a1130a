-- ===== src/Api.antt =====
-- internal/api: the handlers that the agents call.
pub mod Signal
pub mod Server
pub mod Running
pub mod Gates
pub mod Settings
pub mod Requests
pub mod Workers
pub mod Starts
pub mod Exclusive
pub mod Doubled
pub mod Refused
pub mod Atomic
pub mod Raced
