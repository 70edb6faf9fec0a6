-- ===== src/Interbase.antt =====
-- The reader of the InterBase file of the old program: tools/interbase/gdb_reader.py.
pub mod Bytes
pub mod Rle
pub mod Tables
pub mod Pages
pub mod Blobs
pub mod Values
pub mod Opening
pub mod Rows
