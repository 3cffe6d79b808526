-- ===== src/Db.antt =====
-- db/db.c: the database library. State and monad, then the file formats, the chains and the calls.
pub mod State
pub mod Fields
pub mod Layout
pub mod Index
pub mod Chain
pub mod Calls
pub mod Whole
pub mod Returns
