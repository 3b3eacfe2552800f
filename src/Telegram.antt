-- ===== src/Telegram.antt =====
-- The Telegram bot: aimos/telegram.
pub mod Security
pub mod Bot
pub mod Poller
pub mod Kept
pub mod Confirm
pub mod Safe
pub mod Nonces
pub mod Polling
mod Tests
