-- ===== src/Sched/Pids/Calls.antt =====
-- The other calls keep the pids of the slots in use.
use cs537_operating_system_u.Base.{
  ℕ, ◌+◌, ◌%◌, ◌≡◌, refl, ap, sym, ◌∙◌, Option, none, some, arith, ◌==◌, true, ◌>>=◌, Bool-cases,
  Option-cases, get_elem?-append, inl, inr, get_elem?, set, ltb,
}
use mathlib.Core.Path.{subst}
use cs537_operating_system_u.Base.Int.{ℤ, pos, negsuc}
use cs537_operating_system_u.Sched.Table.{
  sleeping, runnable, running, is_runnable, Chan, Proc, Kernel, is_used, update_priority,
}
use cs537_operating_system_u.Sched.Pick.{schedule, select_process-IsChoice}
use cs537_operating_system_u.Sched.Process.{yield, sleep, awake, kill}
use cs537_operating_system_u.Sched.Clock.{timer_tick, sys_nice, sys_sleep_start}
use cs537_operating_system_u.Sched.Killed.{killed_proc, kill_lem}
use cs537_operating_system_u.Sched.Pids.Sub.{KeepsPid, Sub-set, update_priority-Sub, wakeup2-Sub}
use cs537_operating_system_u.Sched.Pids.Exit.{KeepsPids}

-- A call that updates the slot `current` alone.
module _ (kernel : Kernel) (current : ℕ) (f : Proc → Proc) {kernel' : Kernel} where
  update-KeepsPids :
      ((p : Proc) → get_elem? kernel.procs current ≡ some p → KeepsPid p (f p))
      → (get_elem? kernel.procs current >>= λ p.
          some (record kernel { procs = set kernel.procs current (f p) }))
        ≡ some kernel'
      → KeepsPids kernel kernel'
  update-KeepsPids keep h = elim (Option-cases (get_elem? kernel.procs current)) [
    | inl out ↦ absurd (cc (rw out at h))
    | inr (p, at) ↦
        let result : record kernel { procs = set kernel.procs current (f p) } ≡ kernel' =
          cc (rw at at h) in
        subst (KeepsPids kernel) result
          (Sub-set kernel.procs current p (f p) at (keep p at), omega arith)
  ]

-- The process of a slot that is in use.
abbrev pub InUse : Kernel → ℕ → Type 0
InUse kernel i = (p : Proc) × (get_elem? kernel.procs i ≡ some p) × (is_used p.state ≡ true)

pub used_there :
    (kernel : Kernel) (i : ℕ)
    → InUse kernel i
    → (p : Proc) → get_elem? kernel.procs i ≡ some p
    → is_used p.state ≡ true
used_there kernel i (q, at, used) p e =
    let same : q ≡ p = cc in ap (λ (r : Proc). is_used r.state) (sym same) ∙ used

module _ (kernel : Kernel) (current : ℕ) {kernel' : Kernel} where
  pub yield-KeepsPids :
      InUse kernel current → yield kernel current ≡ some kernel' → KeepsPids kernel kernel'
  unfolding yield
  yield-KeepsPids used h =
      update-KeepsPids kernel current (λ p. record p { state = runnable })
        (λ p at _. (used_there kernel current used p at, refl)) h

  pub sleep-KeepsPids :
      (chan : Chan)
      → InUse kernel current
      → sleep kernel current chan ≡ some kernel'
      → KeepsPids kernel kernel'
  unfolding sleep
  sleep-KeepsPids chan used h =
      update-KeepsPids kernel current (λ p. record p { chan = some chan; state = sleeping })
        (λ p at _. (used_there kernel current used p at, refl)) h

  pub awake-KeepsPids : awake kernel current ≡ some kernel' → KeepsPids kernel kernel'
  unfolding awake
  awake-KeepsPids h =
      update-KeepsPids kernel current (λ p. record p { chan = none }) (λ p at used. (used, refl)) h

  pub sys_sleep_start-KeepsPids :
      (n : ℕ) → sys_sleep_start kernel current n ≡ some kernel' → KeepsPids kernel kernel'
  unfolding sys_sleep_start
  sys_sleep_start-KeepsPids n h =
      update-KeepsPids kernel current (λ p. record p { wakeuptime = kernel.ticks + n })
        (λ p at used. (used, refl)) h

killed_proc-keeps : (p : Proc) → KeepsPid p (killed_proc p)
killed_proc-keeps p used = ground arith

pub kill-KeepsPids : (kernel : Kernel) (pid : ℕ) → KeepsPids kernel (kill kernel pid).1
kill-KeepsPids kernel pid = elim (kill_lem kernel pid) [
  | inl (others, out) ↦ rw out ((λ j n h. h), omega arith)
  | inr (procs', out, hit) ↦
      rw (out, hit.result)
        (
          Sub-set kernel.procs hit.index hit.target (killed_proc hit.target) hit.at
              (killed_proc-keeps hit.target),
          omega arith,
        )
]

pub timer_tick-KeepsPids : (kernel : Kernel) → KeepsPids kernel (timer_tick kernel)
unfolding timer_tick
timer_tick-KeepsPids kernel = elim (Bool-cases ((kernel.ticks + 1) % 100 == 0)) [
  | inl hundredth ↦ rw hundredth (
    λ i n h.
        update_priority-Sub kernel.procs i n
          (wakeup2-Sub (kernel.ticks + 1) (update_priority kernel.procs) i n h),
    omega arith,
  )
  | inr other ↦ rw other (wakeup2-Sub (kernel.ticks + 1) kernel.procs, omega arith)
]

runnable-used : (p : Proc) → is_runnable p.state ≡ true → is_used p.state ≡ true
runnable-used p h = ground arith

pub schedule-KeepsPids : (kernel : Kernel) → KeepsPids kernel (schedule kernel).1
unfolding schedule
schedule-KeepsPids kernel = elim (select_process-IsChoice kernel.procs) [
  | inl (others, none_found) ↦ rw (none_found, schedule) ((λ i n h. h), omega arith)
  | inr (i, found, c) ↦
      let at : get_elem? kernel.procs i ≡ some c.chosen =
        rw (c.split, c.index) (get_elem?-append c.before c.chosen c.after) in
      let p = c.chosen in
      let v = record p {
        state = running;
        cpu_ticks = p.cpu_ticks + 1;
        exec_ticks = p.exec_ticks + 1;
      } in
      rw (found, at, schedule)
        (Sub-set kernel.procs i p v at (λ _. (runnable-used p c.can_run.0, refl)), omega arith)
]

KeepsPids-refl : (kernel : Kernel) → KeepsPids kernel kernel
KeepsPids-refl kernel = ((λ i n h. h), omega arith)

-- A call that gives a value and the kernel as it was.
pub KeepsPids-unchanged {ℓ} :
    {A : Type ℓ} (kernel : Kernel) (a b : A) {kernel' : Kernel}
    → ◌≡◌ {A = Option (A × Kernel)} (some (a, kernel)) (some (b, kernel'))
    → KeepsPids kernel kernel'
KeepsPids-unchanged kernel a b {kernel'} h =
    let same : kernel ≡ kernel' = cc in subst (KeepsPids kernel) same (KeepsPids-refl kernel)

pub sys_nice-KeepsPids :
    (kernel : Kernel) (current : ℕ) (n : ℤ) {r : ℤ} {kernel' : Kernel}
    → sys_nice kernel current n ≡ some (r, kernel')
    → KeepsPids kernel kernel'
unfolding sys_nice
sys_nice-KeepsPids kernel current (negsuc k) {r} h =
    elim (Option-cases (get_elem? kernel.procs current)) [
      | inl out ↦ absurd (cc (rw (out, sys_nice) at h))
      | inr (p, at) ↦ KeepsPids-unchanged kernel (negsuc 0) r (rw (at, sys_nice) at h)
    ]
sys_nice-KeepsPids kernel current (pos nice) {r} {kernel'} h =
    elim (Option-cases (get_elem? kernel.procs current)) [
      | inl out ↦ absurd (cc (rw (out, sys_nice) at h))
      | inr (p, at) ↦ elim (Bool-cases (ltb 20 nice)) [
        | inl large ↦ KeepsPids-unchanged kernel (negsuc 0) r (rw (at, sys_nice, large) at h)
        | inr small ↦
            let v = record p { nice_value = nice } in
            let result : record kernel { procs = set kernel.procs current v } ≡ kernel' =
              cc (rw (at, sys_nice, small) at h) in
            subst (KeepsPids kernel) result
              (Sub-set kernel.procs current p v at (λ used. (used, refl)), omega arith)
      ]
    ]
