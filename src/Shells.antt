-- ===== src/Shells.antt =====
-- The remote shells of the server: who may open one, and how open ones are limited and closed.
pub mod Access
pub mod Environment
pub mod Sessions
