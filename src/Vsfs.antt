-- ===== src/Vsfs.antt =====
-- vsfs/src/lib.rs: the Very Simple File System.
mod Tests
pub mod Layout
pub mod Blocks
pub mod Bitmap
pub mod Inodes
pub mod Create
