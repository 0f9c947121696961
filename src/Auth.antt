-- ===== src/Auth.antt =====
-- Accounts, their credentials and the tokens that are issued on them.
pub mod Accounts
pub mod Tokens
pub mod Credentials
pub mod Outcomes
pub mod Revocation
pub mod Single
mod Tests
