-- ===== src/Db.antt =====
-- apue.3e/db/db.c: a database of keyed records in two files, an index file of hash chains and a
-- data file.
pub mod State
pub mod Io
pub mod Layout
pub mod Calls
pub mod Open
pub mod Chain
pub mod Find
pub mod Append
pub mod Insert
pub mod Image
pub mod Whole
pub mod Empty
pub mod Tests
