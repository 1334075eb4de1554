-- ===== src/Tests.antt =====
-- Runs of the model at concrete inputs.
pub mod Limits
pub mod Sockets
pub mod Friendships
pub mod Clients
pub mod Messages
pub mod Keys
pub mod Streams
pub mod Reauthentication
pub mod Sessions
pub mod Searches
pub mod Devices
