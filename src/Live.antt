-- ===== src/Live.antt =====
-- The C++ client: its events, how they are parsed, de-duplicated and delivered, its transports, and
-- the texts that it scans and builds.
pub mod Event
pub mod Parser
pub mod Seen
pub mod Dispatch
pub mod Socket
pub mod Session
pub mod Query
pub mod Json
pub mod Scan
pub mod Run
pub mod Http
pub mod Info
