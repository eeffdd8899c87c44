-- ===== src/Whatsapp/Sender.antt =====
-- src/modules/whatsapp/services/message-sender.service.ts: sending text and files to a list of
-- recipients. What the outside world answers to a call (the WhatsApp client, the clock) is part of
-- the call's arguments, one `Attempt` for each recipient; what is asked of it is logged.
pub mod Single
pub mod Batch
pub mod Usage
pub mod Accounting
pub mod Confirmed
pub mod Send
pub mod Answers
pub mod Rows
pub mod Refusals
mod Tests
