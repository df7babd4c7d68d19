-- ===== src/Commands.antt =====
-- The commands of the server: how a command line is split, found and run, and what is counted.
pub mod Words
pub mod Output
pub mod Registry
pub mod Executor
