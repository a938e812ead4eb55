-- ===== src/Sched/Table.antt =====
-- The process table of p4/xv6-public/proc.c. A pointer into `ptable.proc` is the slot's index. Of a
-- process the model has what the functions of proc.c read and write for scheduling; its memory, its
-- files and its registers are left out. Each operation runs under `ptable.lock`.
use cs537_operating_system_u.Base.{
  ℕ, ◌+◌, ◌/◌, List, Option, none, some, ◌==◌, if◌then◌else◌, leb, ◌&&◌, Bool, true, false, map,
}

-- `enum procstate`
pub data ProcState : Type 0 where
  unused embryo sleeping runnable running zombie : ProcState

-- What a process sleeps on: a slot of the table (`wait`), `&ticks`, or another address.
pub data Chan : Type 0 where
  proc_chan : ℕ → Chan
  ticks_chan : Chan
  other_chan : ℕ → Chan

-- `struct proc`. The `int` counters start at 0 and only grow or are halved, so they are numbers.
pub record Proc : Type 0 where
  pub state : ProcState
  pub pid : ℕ
  pub parent : Option ℕ
  pub chan : Option Chan
  pub killed : Bool
  pub kstack : Option ℕ
  pub name : List ℕ
  pub cpu_ticks : ℕ
  pub priority : ℕ
  pub wakeuptime : ℕ
  pub nice_value : ℕ
  pub exec_ticks : ℕ

-- `ptable.proc`, `nextpid`, `initproc` and `ticks`.
pub record Kernel : Type 0 where
  pub procs : List Proc
  pub nextpid : ℕ
  pub initproc : ℕ
  pub ticks : ℕ

abbrev pub is_used : ProcState → Bool
is_used unused = false
is_used _ = true

abbrev pub is_runnable : ProcState → Bool
is_runnable runnable = true
is_runnable _ = false

abbrev pub is_sleeping : ProcState → Bool
is_sleeping sleeping = true
is_sleeping _ = false

abbrev pub is_zombie : ProcState → Bool
is_zombie zombie = true
is_zombie _ = false

abbrev pub same_slot : Option ℕ → ℕ → Bool
same_slot none i = false
same_slot (some j) i = j == i

abbrev pub same_chan : Option Chan → Chan → Bool
same_chan (some (proc_chan i)) (proc_chan j) = i == j
same_chan (some ticks_chan) ticks_chan = true
same_chan (some (other_chan i)) (other_chan j) = i == j
same_chan _ _ = false

-- The body of `wakeup1`'s loop, and `wakeup1`.
unfoldable pub wake : Chan → Proc → Proc
wake chan p =
    if is_sleeping p.state && same_chan p.chan chan then record p { state = runnable } else p

unfoldable pub wakeup1 : Chan → List Proc → List Proc
wakeup1 chan procs = map (wake chan) procs

unfoldable pub decay : ℕ → ℕ
decay cpu = cpu / 2

-- The body of `update_priority`'s loop.
unfoldable pub update_proc : Proc → Proc
unfolding decay
update_proc p =
    let cpu_ticks = decay p.cpu_ticks in
    if is_used p.state
    then record p { cpu_ticks = cpu_ticks; priority = cpu_ticks / 2 + p.nice_value }
    else p

unfoldable pub update_priority : List Proc → List Proc
update_priority procs = map update_proc procs

-- The body of `wakeup2`'s loop.
unfoldable pub wake_sleeper : ℕ → Proc → Proc
wake_sleeper ticks p =
    if is_sleeping p.state && leb p.wakeuptime ticks then record p { state = runnable } else p

unfoldable pub wakeup2 : ℕ → List Proc → List Proc
wakeup2 ticks procs = map (wake_sleeper ticks) procs
