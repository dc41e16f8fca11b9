-- ===== src/Stream.antt =====
-- internal/stream: the Server-Sent Events server.
pub mod Perl
pub mod Sse
pub mod Registry
pub mod Replay
pub mod Http
pub mod Serve
pub mod Deliver
pub mod Stats
