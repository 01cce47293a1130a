-- ===== src/Examples.antt =====
-- One feature on a small board, and the theorems applied to it.
pub mod Data
mod Board
mod Moves
mod Parts
mod Bolts
mod Asking
mod Runs
mod Bolting
mod Polls
mod Serving
mod Configuring
