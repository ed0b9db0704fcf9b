-- ===== src/Mm.antt =====
-- kernel/src/mm: physical frames, their reference counts, and the regions of an address space.
mod Tests
pub mod Error
pub mod Frames
pub mod Pages
pub mod Regions
