-- ===== src/Casfs.antt =====
-- internal/casfs/casfs.go: directory trees between the content-addressable store and a file system. The
-- modules below have the way to the file system and the way back.
pub mod Materialize
pub mod Capture
pub mod Trees
