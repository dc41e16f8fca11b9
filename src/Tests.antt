-- ===== src/Tests.antt =====
-- Runs of the modelled functions on concrete inputs, and the theorems at inputs where their
-- hypotheses hold.
mod Storable
mod Ids
mod Registry
mod Sse
mod Lctl
mod Replay
mod Session
mod Serve
mod Batch
mod Main
mod Proxy
mod Connconfig
mod Encoding
mod Users
mod Commands
mod Deliver
