-- ===== src/Users.antt =====
-- plugins/users: the users plugin's authentication.
pub mod Lockout
pub mod RateLimit
pub mod Stores
pub mod Validation
pub mod Auth
pub mod Service
mod Tests
