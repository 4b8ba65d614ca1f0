-- ===== src/Sessions.antt =====
-- Accounts and sessions: main.go's passwords, tokens, authenticate, and the sign-in routes of api.
pub mod Passwords
pub mod Tokens
pub mod Accounts
pub mod Presenting
pub mod Enrolling
pub mod Returning
