-- ===== src/Lctl.antt =====
-- internal/lctl: the admin commands that start, stop, move and delete connections.
pub mod Instance
pub mod Move
pub mod Delete
pub mod Batch
pub mod Running
pub mod Main
pub mod Encoding
pub mod Users
pub mod Check
pub mod Connections
pub mod Inactive
pub mod Prune
