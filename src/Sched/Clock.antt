-- ===== src/Sched/Clock.antt =====
-- The timer interrupt of p4/xv6-public/trap.c, and the calls of sysproc.c that read or set what the
-- clock and the scheduler go by.
pub mod Decay
use cs537_operating_system_u.Base.{
  ℕ, zero, suc, ◌+◌, ◌%◌, List, [], ◌∷◌, Option, none, some, ◌==◌, if◌then◌else◌, ltb, leb, ◌||◌,
  Bool, true, false, map, get_elem?, set, ◌>>=◌,
}
use cs537_operating_system_u.Base.Int.{ℤ, pos, negsuc, ltb_ℤ}
use cs537_operating_system_u.Sched.Table.{
  Proc, Kernel, ticks_chan, is_used, update_priority, wakeup2,
}
use cs537_operating_system_u.Sched.Process.{sleep}

-- A timer interrupt on the first CPU. `ticks` is a `uint`; it is not taken to wrap.
unfoldable pub timer_tick : Kernel → Kernel
timer_tick kernel =
    let ticks = kernel.ticks + 1 in
    let procs = if ticks % 100 == 0 then update_priority kernel.procs else kernel.procs in
    record kernel { ticks = ticks; procs = wakeup2 ticks procs }

-- `sys_nice`: the old value, or -1.
unfoldable pub sys_nice : Kernel → ℕ → ℤ → Option (ℤ × Kernel)
sys_nice kernel current n = do
  curproc ← get_elem? kernel.procs current
  some (elim n [
    | negsuc k ↦ (negsuc 0, kernel)
    | pos nice ↦ if ltb 20 nice then (negsuc 0, kernel) else (
      pos curproc.nice_value,
      record kernel { procs = set kernel.procs current (record curproc { nice_value = nice }) },
    )
  ])

-- One round of the loop of `sys_sleep`: its value, or `none` where it sleeps on `&ticks`.
unfoldable pub sys_sleep_round : Kernel → ℕ → Option (Option ℤ × Kernel)
sys_sleep_round kernel current = do
  p ← get_elem? kernel.procs current
  asleep ← sleep kernel current ticks_chan
  some (
      if ltb kernel.ticks p.wakeuptime
      then if p.killed then (some (negsuc 0), kernel) else (none, asleep)
      else (some (pos 0), kernel))

-- `sys_sleep(n)` up to its first round.
unfoldable pub sys_sleep_start : Kernel → ℕ → ℕ → Option Kernel
sys_sleep_start kernel current n = do
  p ← get_elem? kernel.procs current
  some (record kernel {
    procs = set kernel.procs current (record p { wakeuptime = kernel.ticks + n });
  })

-- What `getschedstate` puts into the arrays of `struct pschedinfo` for one slot.
pub record SchedInfo : Type 0 where
  pub inuse : Bool
  pub priority : ℕ
  pub nice : ℕ
  pub pid : ℕ
  pub ticks : ℕ

unfoldable pub sched_info : Proc → SchedInfo
sched_info p = record {
  inuse = is_used p.state;
  priority = p.priority;
  nice = p.nice_value;
  pid = p.pid;
  ticks = p.cpu_ticks;
}

unfoldable pub getschedstate : Kernel → List SchedInfo
getschedstate kernel = map sched_info kernel.procs
