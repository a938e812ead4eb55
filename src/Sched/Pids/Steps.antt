-- ===== src/Sched/Pids/Steps.antt =====
-- Whatever the kernel does with its processes after it has booted, the pids are unique.
use cs537_operating_system_u.Base.{
  ℕ, ◌+◌, ◌-◌, ◌≤◌, ◌<◌, ◌≡◌, sym, ◌∙◌, Option, none, some, arith, Bool, true, false, ltb, ◌&&◌,
  not, Bool-cases, Option-cases, inl, inr, get_elem?,
}
use mathlib.Core.Path.{subst}
use cs537_operating_system_u.Base.Int.{ℤ, pos, negsuc}
use cs537_operating_system_u.Sched.Table.{Chan, ticks_chan, Proc, Kernel}
use cs537_operating_system_u.Sched.Pick.{schedule}
use cs537_operating_system_u.Sched.Process.{
  pid_end, fork, exit, wait_round, yield, sleep, awake, kill,
}
use cs537_operating_system_u.Sched.Clock.{timer_tick, sys_nice, sys_sleep_start, sys_sleep_round}
use cs537_operating_system_u.Sched.Pids.{IsValid}
use cs537_operating_system_u.Sched.Pids.Sub.{Sub-IsValid}
use cs537_operating_system_u.Sched.Pids.Alloc.{fork-IsValid, fork-nextpid}
use cs537_operating_system_u.Sched.Pids.Exit.{KeepsPids, exit-KeepsPids}
use cs537_operating_system_u.Sched.Pids.Calls.{
  InUse, KeepsPids-unchanged, yield-KeepsPids, sleep-KeepsPids, awake-KeepsPids,
  sys_sleep_start-KeepsPids, sys_nice-KeepsPids, timer_tick-KeepsPids, schedule-KeepsPids,
  kill-KeepsPids,
}
use cs537_operating_system_u.Sched.Pids.Wait.{wait_round-KeepsPids}

module _ (kernel : Kernel) (current : ℕ) (p : Proc) (at : get_elem? kernel.procs current ≡ some p)
    {asleep : Kernel} where
  sys_sleep_round-on :
      sleep kernel current ticks_chan ≡ some asleep
      → (ltb kernel.ticks p.wakeuptime && not p.killed) ≡ true
      → sys_sleep_round kernel current ≡ some (none, asleep)
  unfolding sys_sleep_round
  sys_sleep_round-on e wait = rw (at, sys_sleep_round, e) (ground (arith, wait))

  sys_sleep_round-ends :
      sleep kernel current ticks_chan ≡ some asleep
      → (ltb kernel.ticks p.wakeuptime && not p.killed) ≡ false
      → (r : Option ℤ) × (sys_sleep_round kernel current ≡ some (r, kernel))
  unfolding sys_sleep_round
  sys_sleep_round-ends e stop = elim (Bool-cases (ltb kernel.ticks p.wakeuptime)) [
    | inl early ↦ (some (negsuc 0), rw (at, sys_sleep_round, e, early) (ground (arith, stop)))
    | inr due ↦ (some (pos 0), rw (at, sys_sleep_round, e, due))
  ]

sys_sleep_round-KeepsPids :
    (kernel : Kernel) (current : ℕ) {r : Option ℤ} {kernel' : Kernel}
    → InUse kernel current
    → sys_sleep_round kernel current ≡ some (r, kernel')
    → KeepsPids kernel kernel'
unfolding sys_sleep_round
sys_sleep_round-KeepsPids kernel current {r} {kernel'} (p, at, used) h =
    elim (Option-cases (sleep kernel current ticks_chan)) [
      | inl out ↦ absurd (cc (rw (at, sys_sleep_round, out) at h))
      | inr (asleep, e) ↦ elim (Bool-cases (ltb kernel.ticks p.wakeuptime && not p.killed)) [
        | inl on ↦
            let result : asleep ≡ kernel' = cc (sys_sleep_round-on kernel current p at e on) in
            subst (KeepsPids kernel) result
              (sleep-KeepsPids kernel current ticks_chan (p, at, used) e)
        | inr ends ↦
            let (r', same) = sys_sleep_round-ends kernel current p at e ends in
            KeepsPids-unchanged kernel r' r (sym same ∙ h)
      ]
    ]

-- One step of the kernel: a call of the process in slot `current`, which is in use, a round of the
-- scheduler, or a tick of the clock.
pub data Step (kernel kernel' : Kernel) : Type 0 where
  forks :
      (current : ℕ) (page : Option ℕ) (copied : Bool) (r : ℤ)
      → fork kernel current page copied ≡ some (r, kernel')
      → Step kernel kernel'
  exits :
      (current : ℕ)
      → InUse kernel current
      → exit kernel current ≡ some kernel'
      → Step kernel kernel'
  waits :
      (current : ℕ) (r : Option ℤ)
      → InUse kernel current
      → wait_round kernel current ≡ some (r, kernel')
      → Step kernel kernel'
  yields :
      (current : ℕ)
      → InUse kernel current
      → yield kernel current ≡ some kernel'
      → Step kernel kernel'
  sleeps :
      (current : ℕ) (chan : Chan)
      → InUse kernel current
      → sleep kernel current chan ≡ some kernel'
      → Step kernel kernel'
  wakes : (current : ℕ) → awake kernel current ≡ some kernel' → Step kernel kernel'
  kills : (pid : ℕ) → (kill kernel pid).1 ≡ kernel' → Step kernel kernel'
  nices :
      (current : ℕ) (n r : ℤ) → sys_nice kernel current n ≡ some (r, kernel') → Step kernel kernel'
  starts_sleep :
      (current n : ℕ) → sys_sleep_start kernel current n ≡ some kernel' → Step kernel kernel'
  sleeps_on :
      (current : ℕ) (r : Option ℤ)
      → InUse kernel current
      → sys_sleep_round kernel current ≡ some (r, kernel')
      → Step kernel kernel'
  schedules : (schedule kernel).1 ≡ kernel' → Step kernel kernel'
  ticks_on : timer_tick kernel ≡ kernel' → Step kernel kernel'

pub data Reach (kernel : Kernel) : Kernel → Type 0 where
  here : Reach kernel kernel
  next :
      {kernel' kernel'' : Kernel}
      → Reach kernel kernel'
      → Step kernel' kernel''
      → Reach kernel kernel''

-- The pids that a step takes at most, and the forks of a sequence of steps.
unfoldable pub is_fork : {kernel kernel' : Kernel} → Step kernel kernel' → ℕ
is_fork (forks current page copied r h) = 1
is_fork (exits current used h) = 0
is_fork (waits current r used h) = 0
is_fork (yields current used h) = 0
is_fork (sleeps current chan used h) = 0
is_fork (wakes current h) = 0
is_fork (kills pid h) = 0
is_fork (nices current n r h) = 0
is_fork (starts_sleep current n h) = 0
is_fork (sleeps_on current r used h) = 0
is_fork (schedules h) = 0
is_fork (ticks_on h) = 0

unfoldable pub fork_count : {kernel kernel' : Kernel} → Reach kernel kernel' → ℕ
unfolding is_fork
fork_count here = 0
fork_count (next r s) = fork_count r + is_fork s

-- With a table that is valid before, and a next pid that does not wrap: valid, and the next pid no further
-- than the forks.
abbrev Goes : Kernel → Kernel → ℕ → Type 0
Goes kernel kernel' n =
    kernel.nextpid + 1 < pid_end
    → IsValid kernel
    → IsValid kernel' × (kernel'.nextpid ≤ kernel.nextpid + n)

KeepsPids-Goes : (kernel kernel' : Kernel) → KeepsPids kernel kernel' → Goes kernel kernel' 0
KeepsPids-Goes kernel kernel' keeps low v =
    (Sub-IsValid kernel kernel' v keeps.0 (omega (arith, keeps.1)), omega (arith, keeps.1))

Step-Goes : (kernel kernel' : Kernel) (s : Step kernel kernel') → Goes kernel kernel' (is_fork s)
unfolding is_fork
Step-Goes kernel kernel' (forks current page copied r h) = λ low v.
    (fork-IsValid kernel current page copied h low v, fork-nextpid kernel current page copied h)
Step-Goes kernel kernel' (exits current (p, at, used) h) =
    KeepsPids-Goes kernel kernel' (exit-KeepsPids kernel current at used h)
Step-Goes kernel kernel' (waits current r used h) =
    KeepsPids-Goes kernel kernel' (wait_round-KeepsPids kernel current used h)
Step-Goes kernel kernel' (yields current used h) =
    KeepsPids-Goes kernel kernel' (yield-KeepsPids kernel current used h)
Step-Goes kernel kernel' (sleeps current chan used h) =
    KeepsPids-Goes kernel kernel' (sleep-KeepsPids kernel current chan used h)
Step-Goes kernel kernel' (wakes current h) =
    KeepsPids-Goes kernel kernel' (awake-KeepsPids kernel current h)
Step-Goes kernel kernel' (kills pid h) =
    KeepsPids-Goes kernel kernel' (subst (KeepsPids kernel) h (kill-KeepsPids kernel pid))
Step-Goes kernel kernel' (nices current n r h) =
    KeepsPids-Goes kernel kernel' (sys_nice-KeepsPids kernel current n h)
Step-Goes kernel kernel' (starts_sleep current n h) =
    KeepsPids-Goes kernel kernel' (sys_sleep_start-KeepsPids kernel current n h)
Step-Goes kernel kernel' (sleeps_on current r used h) =
    KeepsPids-Goes kernel kernel' (sys_sleep_round-KeepsPids kernel current used h)
Step-Goes kernel kernel' (schedules h) =
    KeepsPids-Goes kernel kernel' (subst (KeepsPids kernel) h (schedule-KeepsPids kernel))
Step-Goes kernel kernel' (ticks_on h) =
    KeepsPids-Goes kernel kernel' (subst (KeepsPids kernel) h (timer_tick-KeepsPids kernel))

-- Every sequence of steps keeps the pids of the slots in use distinct and below the next one, as long as that
-- cannot wrap.
pub Reach-IsValid :
    {kernel kernel' : Kernel}
    → IsValid kernel
    → (r : Reach kernel kernel') → kernel.nextpid + fork_count r < pid_end - 1
    → IsValid kernel' × (kernel'.nextpid ≤ kernel.nextpid + fork_count r)
unfolding fork_count
Reach-IsValid v here low = (v, omega arith)
Reach-IsValid {kernel} v (next {kernel'} {kernel''} r s) low =
    let (v', le) = Reach-IsValid v r (omega (arith, low)) in
    let (v'', le') = Step-Goes kernel' kernel'' s (omega (arith, low, le)) v' in
    (v'', omega (arith, le, le'))
