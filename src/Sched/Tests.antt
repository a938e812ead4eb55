-- ===== src/Sched/Tests.antt =====
-- Runs of the scheduler's functions at a concrete process table.
use cs537_operating_system_u.Base.{
  ℕ, ◌+◌, ◌<◌, ◌/◌, ◌^◌, ◌≡◌, ◌≢◌, ◌⊎◌, refl, arith, List, [], ◌∷◌, none, some, true, false, All,
  get_elem?, replicate,
}
use cs537_operating_system_u.Base.Int.{pos, negsuc}
use cs537_operating_system_u.Sched.Table.{
  ProcState, unused, sleeping, runnable, proc_chan, Proc, Kernel, wakeup2,
}
use cs537_operating_system_u.Sched.Pick.{
  schedule, select_process, NoneBelow, IsChoice, select_process-IsChoice,
}
use cs537_operating_system_u.Sched.Process.{
  find_unused, init_proc, allocproc, fork, kill, userinit, zeroed, zeroed_kernel,
}
use cs537_operating_system_u.Sched.Killed.{Hit, FirstFree, kill_lem, kill_zero-fork}
use cs537_operating_system_u.Sched.Clock.Decay.{updates, update_priority-decays, wakeup2-leaves}
use cs537_operating_system_u.Sched.Pids.{IsValid}
use cs537_operating_system_u.Sched.Pids.Steps.{fork_count, is_fork, here, next, schedules, ticks_on}
use cs537_operating_system_u.Sched.Pids.Boot.{userinit-Reach-IsValid}
use cs537_operating_system_u.Sched.Clock.{timer_tick}
use cs537_operating_system_u.Base.CString.{chars}

abbrev proc : ProcState → ℕ → ℕ → ℕ → Proc
proc state pid cpu_ticks wakeuptime = record {
  state = state;
  pid = pid;
  parent = none;
  chan = some (proc_chan 0);
  killed = false;
  kstack = some 7;
  name = [];
  cpu_ticks = cpu_ticks;
  priority = cpu_ticks / 2;
  wakeuptime = wakeuptime;
  nice_value = 0;
  exec_ticks = 0;
}

-- A sleeper, a runnable process, a late sleeper and a free slot.
abbrev procs : List Proc
procs = proc sleeping 1 8 0 ∷ proc runnable 2 40 0 ∷ proc sleeping 3 0 500 ∷ proc unused 0 0 0 ∷ []

abbrev kernel : Kernel
kernel = record { procs = procs; nextpid = 4; initproc = 0; ticks = 90 }

select_process-IsChoice_example :
    (NoneBelow 50000 procs × (select_process procs ≡ none))
    ⊎ ((i : ℕ) × (select_process procs ≡ some i) × IsChoice 50000 procs i)
select_process-IsChoice_example = select_process-IsChoice procs

kill_lem_example :
    (All (λ p. p.pid ≢ 3) procs × (kill kernel 3 ≡ (negsuc 0, kernel)))
    ⊎ ((procs' : List Proc) × (kill kernel 3 ≡ (pos 0, record kernel { procs = procs' }))
        × Hit 3 procs procs')
kill_lem_example = kill_lem kernel 3

update_priority-decays_example :
    (p' : Proc) × (get_elem? (updates 3 procs) 1 ≡ some p')
    × (p'.cpu_ticks ≡ 40 / 2 ^ 3)
    × (p'.priority ≡ 40 / 2 ^ 3 / 2 + 0)
    × (p'.nice_value ≡ 0)
update_priority-decays_example = update_priority-decays 2 procs 1 refl refl

wakeup2-leaves_example : get_elem? (wakeup2 91 procs) 2 ≡ some (proc sleeping 3 0 500)
wakeup2-leaves_example = wakeup2-leaves 91 procs 2 refl (omega arith)

abbrev free_slot : FirstFree procs
free_slot = record {
  before = proc sleeping 1 8 0 ∷ proc runnable 2 40 0 ∷ proc sleeping 3 0 500 ∷ [];
  free = proc unused 0 0 0;
  after = [];
  split = refl;
  others = ((refl, omega arith), ((refl, omega arith), ((refl, omega arith), tt)));
  is_free = refl;
  no_pid = refl;
}

-- The kernel when `userinit` has made the first process.
abbrev booted : Kernel
booted =
    let first = proc runnable 1 0 0 in
    record zeroed_kernel {
      procs =
          record first { chan = none; kstack = some 9; name = chars "initcode" }
          ∷ replicate 63 zeroed;
      nextpid = 2;
    }

booted-userinit : userinit zeroed_kernel (some 9) true ≡ some booted
unfolding userinit allocproc find_unused init_proc
booted-userinit = refl

userinit-Reach-IsValid_example :
    IsValid (timer_tick (schedule booted).1)
    × ((timer_tick (schedule booted).1).nextpid < 0x80000000)
unfolding fork_count is_fork
userinit-Reach-IsValid_example =
    userinit-Reach-IsValid (some 9) booted-userinit
      (next (next here (schedules refl)) (ticks_on refl)) (omega arith)

kill_zero-fork_example :
    (kernel' : Kernel) × (np : Proc) × ((kill kernel 0).0 ≡ pos 0)
    × (fork (kill kernel 0).1 1 (some 9) true ≡ some (pos 4, kernel'))
    × (get_elem? kernel'.procs 3 ≡ some np)
    × (np.state ≡ runnable)
    × (np.killed ≡ true)
kill_zero-fork_example = kill_zero-fork kernel free_slot 1 9 refl
