-- ===== src/Auth.antt =====
-- server/internal/modules/auth: accounts, one-time codes and sessions.
pub mod Otp
mod Tests
