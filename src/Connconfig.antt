-- ===== src/Connconfig.antt =====
-- internal/connconfig/connconfig.go: the rules for a connection's settings, and the check that
-- refuses hosts that point to private addresses.
pub mod Text
pub mod Host
pub mod Patterns
pub mod Clean
pub mod Address
