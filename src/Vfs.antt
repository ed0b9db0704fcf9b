-- ===== src/Vfs.antt =====
-- vfs/src/lib.rs: the error type shared across the VFS boundary, the interface of a block device,
-- and open files.
mod Tests
pub mod Device
pub mod Memory
pub mod File
pub mod Mounts
