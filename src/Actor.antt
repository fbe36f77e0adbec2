-- ===== src/Actor.antt =====
-- app/actor: message channels between threads, and actors with their mailboxes.
pub mod Channel
pub mod Ring
pub mod Mailbox
pub mod Rpc
