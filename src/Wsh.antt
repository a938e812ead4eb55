-- ===== src/Wsh.antt =====
-- The shell of p3: wsh.c.
pub mod Outcome
pub mod Jobs
pub mod Run
pub mod Args
pub mod Pipes
mod Tests
