-- ===== src/Security/Examples.antt =====
-- A store of counters, printed numbers, and requests of a few callers.
pub mod Limits
mod Cursors
mod Callers
