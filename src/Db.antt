-- ===== src/Db.antt =====
-- internal/db: the tables, and the queries that the pipeline makes on them.
pub mod Types
pub mod Order
pub mod Stages
pub mod Bolts
pub mod Events
pub mod Features
pub mod Rows
pub mod Keys
pub mod Init
pub mod Saved
