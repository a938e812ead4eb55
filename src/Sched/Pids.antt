-- ===== src/Sched/Pids.antt =====
-- Process ids are unique: no two slots in use have the same pid, whatever the kernel is asked to do.
pub mod Sub
pub mod Alloc
pub mod Exit
pub mod Calls
pub mod Wait
pub mod Steps
pub mod Boot
use cs537_operating_system_u.Base.{
  ℕ, ◌≤◌, ◌<◌, ◌≡◌, Option, some, Bool, true, List, get_elem?, arith,
}
use cs537_operating_system_u.Sched.Table.{Proc, Kernel, is_used}

-- Slot `i` is in use and has the pid `n`.
abbrev pub Has : List Proc → ℕ → ℕ → Type 0
Has procs i n = (p : Proc) × (get_elem? procs i ≡ some p) × (is_used p.state ≡ true) × (p.pid ≡ n)

-- All pids are below the next one, and no two slots share one.
pub record IsValid (kernel : Kernel) : Type 0 where
  pub below : (i n : ℕ) → Has kernel.procs i n → n < kernel.nextpid
  pub distinct : (i j n : ℕ) → Has kernel.procs i n → Has kernel.procs j n → i ≡ j
