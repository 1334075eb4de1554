-- ===== src/Signal.antt =====
-- apps/signal/src: the real-time server.
pub mod RateLimiter
pub mod Revocation
pub mod ChannelAccess
pub mod Value
pub mod Gateway
pub mod EventBus
pub mod Sessions
pub mod Endpoints
