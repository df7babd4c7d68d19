-- ===== src/Files.antt =====
-- plugins/filesystem: the in-memory storage of files.
pub mod Path
pub mod Tree
pub mod Provider
mod Tests
