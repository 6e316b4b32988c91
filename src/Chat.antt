-- ===== src/Chat.antt =====
-- server/internal/modules/chat: the chat between a passenger and a driver.
pub mod Limiter
mod Tests
