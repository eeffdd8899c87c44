-- ===== src/Whatsapp.antt =====
-- src/modules/whatsapp: sessions, the sending of messages and the handling of incoming ones.
pub mod Sessions
pub mod Accounts
pub mod Ack
pub mod Events
pub mod Sender
pub mod Incoming
pub mod Reconnection
