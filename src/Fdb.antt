-- ===== src/Fdb.antt =====
-- src/fdb/fdbfile.c: records as text files, one `name = value` line to a field.
pub mod Directory
pub mod Read
pub mod Record
pub mod Text
pub mod Write
mod Tests
