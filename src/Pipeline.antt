-- ===== src/Pipeline.antt =====
-- internal/pipeline: how a feature moves through its stages.
pub mod System
pub mod Advance
pub mod Review
pub mod Verdict
pub mod Decide
pub mod Rows
pub mod Choice
pub mod Reasons
pub mod Failed
pub mod Outcomes
pub mod Rejection
pub mod Approval
pub mod Following
pub mod Jump
pub mod Jumped
pub mod Units
pub mod Prepare
pub mod Dependencies
pub mod Prepared
pub mod Partial
pub mod Unplanned
pub mod Agent
pub mod Checks
pub mod Close
pub mod Run
pub mod Attempts
pub mod Kept
pub mod Left
pub mod Signals
pub mod Judged
pub mod Unheard
pub mod Counted
pub mod Dispatches
pub mod BoltRun
pub mod Batches
pub mod Batched
pub mod Ladder
pub mod AllBolts
pub mod Returning
pub mod Approved
pub mod Loop
pub mod Stuck
