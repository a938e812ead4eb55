-- ===== src/Sched.antt =====
-- The scheduler of the xv6 kernel of p4: xv6-public/proc.c, with the calls of sysproc.c and trap.c
-- that go with it.
pub mod Table
pub mod Pick
pub mod Process
pub mod Clock
pub mod Pids
pub mod Killed
mod Tests
