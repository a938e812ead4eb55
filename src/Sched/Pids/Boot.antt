-- ===== src/Sched/Pids/Boot.antt =====
-- From the start of the kernel: the zeroed table, `userinit`, and then any steps.
use cs537_operating_system_u.Base.{
  ℕ, zero, suc, ◌+◌, ◌≤◌, ◌<◌, ap, ◌≡◌, refl, Option, some, arith, Bool, true, false, Option-cases,
  inl, inr, get_elem?, set, replicate,
}
use mathlib.Core.Path.{subst}
use cs537_operating_system_u.Base.CString.{chars}
use cs537_operating_system_u.Sched.Table.{runnable, Kernel}
use cs537_operating_system_u.Sched.Process.{
  pid_end, zeroed, nproc, zeroed_kernel, allocproc, userinit,
}
use cs537_operating_system_u.Sched.Pids.{Has, IsValid}
use cs537_operating_system_u.Sched.Pids.Sub.{Sub-set, Sub-IsValid}
use cs537_operating_system_u.Sched.Pids.Alloc.{allocproc-IsValid, allocproc-used, allocproc-nextpid}
use cs537_operating_system_u.Sched.Pids.Steps.{Reach, fork_count, Reach-IsValid}

zeroed-none : (n i k : ℕ) → Has (replicate n zeroed) i k → ⊥
zeroed-none zero i k (p, e, used, pid) = cc
zeroed-none (suc n) zero k (p, e, used, pid) = ground arith
zeroed-none (suc n) (suc i) k h = zeroed-none n i k h

zeroed_kernel-IsValid : IsValid zeroed_kernel
zeroed_kernel-IsValid = record {
  below = λ i n h. absurd (zeroed-none nproc i n h);
  distinct = λ i j n h h'. absurd (zeroed-none nproc i n h);
}

pub userinit-IsValid :
    (kernel : Kernel) (page : Option ℕ) (set_up : Bool) {kernel' : Kernel}
    → userinit kernel page set_up ≡ some kernel'
    → kernel.nextpid + 1 < pid_end
    → IsValid kernel
    → IsValid kernel'
unfolding userinit
userinit-IsValid kernel page false h low v = absurd (cc)
userinit-IsValid kernel page true {kernel'} h low v =
    elim (Option-cases (allocproc kernel page).0) [
      | inl null ↦ absurd (cc (rw (null, userinit) at h))
      | inr (i, slot) ↦ elim (Option-cases (get_elem? (allocproc kernel page).1.procs i)) [
        | inl out ↦ absurd (cc (rw (slot, out, userinit) at h))
        | inr (p, at) ↦
            let allocated = (allocproc kernel page).1 in
            let q = record p { name = chars "initcode"; state = runnable } in
            let used = allocproc-used kernel page i p slot at in
            let result : record allocated { procs = set allocated.procs i q; initproc = i }
                ≡ kernel' =
              cc (rw (slot, at, userinit) at h) in
            subst IsValid result (
              Sub-IsValid allocated
                (record allocated { procs = set allocated.procs i q; initproc = i })
                (allocproc-IsValid kernel page low v)
                (Sub-set allocated.procs i p q at (λ _. (used, refl))) (omega arith))
      ]
    ]

userinit-nextpid :
    (kernel : Kernel) (page : Option ℕ) (set_up : Bool) {kernel' : Kernel}
    → userinit kernel page set_up ≡ some kernel'
    → kernel'.nextpid ≤ kernel.nextpid + 1
unfolding userinit
userinit-nextpid kernel page false h = absurd (cc)
userinit-nextpid kernel page true {kernel'} h = elim (Option-cases (allocproc kernel page).0) [
  | inl null ↦ absurd (cc (rw (null, userinit) at h))
  | inr (i, slot) ↦ elim (Option-cases (get_elem? (allocproc kernel page).1.procs i)) [
    | inl out ↦ absurd (cc (rw (slot, out, userinit) at h))
    | inr (p, at) ↦
        let allocated = (allocproc kernel page).1 in
        let q = record p { name = chars "initcode"; state = runnable } in
        let result : record allocated { procs = set allocated.procs i q; initproc = i } ≡ kernel' =
          cc (rw (slot, at, userinit) at h) in
        omega (arith, ap (λ (k : Kernel). k.nextpid) result, allocproc-nextpid kernel page)
  ]
]

-- From the zeroed table on, once `userinit` has made the first process, no sequence of steps with fewer than
-- 2 ^ 31 - 2 calls of `fork` gives two slots in use the same pid, or one a pid that is yet to come; and the next pid
-- has not left the int.
pub userinit-Reach-IsValid :
    (page : Option ℕ) {kernel kernel' : Kernel}
    → userinit zeroed_kernel page true ≡ some kernel
    → (r : Reach kernel kernel') → fork_count r < 0x7ffffffe
    → IsValid kernel' × (kernel'.nextpid < 0x80000000)
userinit-Reach-IsValid page {kernel} {kernel'} h r few =
    let first = userinit-nextpid zeroed_kernel page true h in
    let (v, le) =
      Reach-IsValid (userinit-IsValid zeroed_kernel page true h (omega arith) zeroed_kernel-IsValid)
        r (omega (arith, first, few)) in
    (v, omega (arith, le, first, few))
