-- ===== src/Web.antt =====
-- apps/web: the web application's server and client logic.
pub mod Friends
pub mod Dm
pub mod OlmKeys
pub mod StepUp
pub mod AttachmentDecay
pub mod Blocking
pub mod Invites
pub mod RateLimit
pub mod MessageOutbox
pub mod Presence
pub mod Notifications
pub mod SearchIndex
pub mod OlmProtocol
pub mod OlmStore
