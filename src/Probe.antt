-- ===== src/Probe.antt =====
-- scripts/tcp-probe.py: the client that watches a DNS-over-TCP exchange.
pub mod Query
pub mod Frames
pub mod Verdict
pub mod Observe
mod Tests
