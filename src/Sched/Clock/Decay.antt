-- ===== src/Sched/Clock/Decay.antt =====
-- How the priorities fall: a process that does not run loses half of its ticks at each update.
use cs537_operating_system_u.Base.{
  ℕ, zero, suc, ◌+◌, ◌/◌, ◌^◌, ◌≤◌, ◌<◌, ◌≡◌, refl, ap, ap₂, sym, ◌∙◌, List, some, arith, true,
  get_elem?, get_elem?-map,
}
use native.Mathlib.Nat.{pow-suc, div-div-eq-div-mul}
use cs537_operating_system_u.Sched.Table.{
  Proc, is_used, sleeping, runnable, update_proc, update_priority, wake_sleeper, wakeup2,
}

-- `n` updates of the table with nothing in between.
unfoldable pub updates : ℕ → List Proc → List Proc
updates zero procs = procs
updates (suc n) procs = update_priority (updates n procs)

updated : ℕ → Proc → Proc
updated zero p = p
updated (suc n) p = update_proc (updated n p)

get_elem?-updates :
    (n : ℕ) (procs : List Proc) (i : ℕ) {p : Proc}
    → get_elem? procs i ≡ some p
    → get_elem? (updates n procs) i ≡ some (updated n p)
unfolding updates updated update_priority
get_elem?-updates zero procs i h = h
get_elem?-updates (suc n) procs i h =
    get_elem?-map update_proc (updates n procs) i (get_elem?-updates n procs i h)

half-pow : (a n : ℕ) → a / 2 ^ n / 2 ≡ a / 2 ^ suc n
half-pow a n = div-div-eq-div-mul a (2 ^ n) 2 ∙ ap (λ k. a / k) (sym (pow-suc 2 n))

update_proc_lem :
    (p : Proc)
    → is_used p.state ≡ true
    → (is_used (update_proc p).state ≡ true)
      × ((update_proc p).cpu_ticks ≡ p.cpu_ticks / 2)
      × ((update_proc p).nice_value ≡ p.nice_value)
      × ((update_proc p).priority ≡ p.cpu_ticks / 2 / 2 + p.nice_value)
unfolding update_proc
update_proc_lem p used = ground arith

updated_lem :
    (n : ℕ) (p : Proc)
    → is_used p.state ≡ true
    → (is_used (updated n p).state ≡ true)
      × ((updated n p).cpu_ticks ≡ p.cpu_ticks / 2 ^ n)
      × ((updated n p).nice_value ≡ p.nice_value)
unfolding updated
updated_lem zero p used = (used, omega arith, refl)
updated_lem (suc n) p used =
    let (used', ticks, nice) = updated_lem n p used in
    let (used'', ticks', nice', priority) = update_proc_lem (updated n p) used' in
    (used'', ticks' ∙ ap (λ t. t / 2) ticks ∙ half-pow p.cpu_ticks n, nice' ∙ nice)

-- After `n + 1` updates without running, a process in use has `cpu_ticks / 2 ^ (n + 1)` ticks, its
-- priority is half of these and its nice value, and its nice value is as before.
pub update_priority-decays :
    (n : ℕ) (procs : List Proc) (i : ℕ) {p : Proc}
    → get_elem? procs i ≡ some p
    → is_used p.state ≡ true
    → (p' : Proc) × (get_elem? (updates (suc n) procs) i ≡ some p')
      × (p'.cpu_ticks ≡ p.cpu_ticks / 2 ^ suc n)
      × (p'.priority ≡ p.cpu_ticks / 2 ^ suc n / 2 + p.nice_value)
      × (p'.nice_value ≡ p.nice_value)
update_priority-decays n procs i {p} at used =
    let (used', ticks, nice) = updated_lem n p used in
    let (used'', ticks', nice', priority) = update_proc_lem (updated n p) used' in
    let fallen = ap (λ t. t / 2) ticks ∙ half-pow p.cpu_ticks n in
    (
      update_proc (updated n p),
      unfold updated in get_elem?-updates (suc n) procs i at,
      ticks' ∙ fallen,
      priority ∙ ap₂ (λ t k. t / 2 + k) fallen nice,
      nice' ∙ nice,
    )

-- The clock wakes every sleeper whose `wakeuptime` has come, whatever it sleeps on: a process that
-- never called `sys_sleep`, with its `wakeuptime` of 0, is made RUNNABLE by the next tick even where
-- it sleeps in `wait` or for a disk block.
wakeup2-wakes :
    (ticks : ℕ) (procs : List Proc) (i : ℕ) {p : Proc}
    → get_elem? procs i ≡ some p
    → p.state ≡ sleeping
    → p.wakeuptime ≤ ticks
    → get_elem? (wakeup2 ticks procs) i ≡ some (record p { state = runnable })
unfolding wakeup2 wake_sleeper
wakeup2-wakes ticks procs i {p} at asleep due =
    get_elem?-map (wake_sleeper ticks) procs i at ∙ ground arith

-- A sleeper whose time has not come is left asleep by the clock.
pub wakeup2-leaves :
    (ticks : ℕ) (procs : List Proc) (i : ℕ) {p : Proc}
    → get_elem? procs i ≡ some p
    → ticks < p.wakeuptime
    → get_elem? (wakeup2 ticks procs) i ≡ some p
unfolding wakeup2 wake_sleeper
wakeup2-leaves ticks procs i {p} at early =
    get_elem?-map (wake_sleeper ticks) procs i at ∙ ground arith
