-- ===== src/Wechat.antt =====
-- The WeChat side of the backend: the outbox of messages that could not be sent.
pub mod Outbox
pub mod Router
pub mod Intent
pub mod Inbox
pub mod Inbound
