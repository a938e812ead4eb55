-- ===== src/Wfs.antt =====
-- The log-structured file system of p7: wfs.h, mkfs.wfs.c and mount.wfs.c.
pub mod Log
pub mod Lookup
pub mod Path
pub mod Create
pub mod Rewrite
pub mod Readdir
pub mod Fsck
mod Tests
