-- ===== src/Sched/Pids/Alloc.antt =====
-- `allocproc` and `fork` keep the pids apart.
use cs537_operating_system_u.Base.{
  ℕ, ◌+◌, ◌%◌, ◌<◌, ◌≤◌, ◌≡◌, refl, ap, sym, ◌∙◌, Option, none, some, arith, Bool, true, false,
  Option-cases, inl, inr, get_elem?, set, length, length-set, ◌⊎◌, get_elem?-set_self,
  get_elem?-set_ne, get_elem?-lt, ℕ_discrete,
}
use mathlib.Core.Path.{subst}
use cs537_operating_system_u.Base.Int.{ℤ}
use cs537_operating_system_u.Sched.Table.{Proc, Kernel, is_used}
use cs537_operating_system_u.Sched.Process.{
  pid_end, find_unused, init_proc, allocproc, fork_into, fork,
}
use cs537_operating_system_u.Sched.Pids.{Has, IsValid}
use cs537_operating_system_u.Sched.Pids.Sub.{Sub-set, Sub-IsValid}

-- Slot `j` holds the new pid, or it is as before.
abbrev New : Kernel → ℕ → ℕ → ℕ → Type 0
New kernel i j n = ((i ≡ j) × (n ≡ kernel.nextpid)) ⊎ Has kernel.procs j n

set-New :
    (kernel : Kernel) (i : ℕ) (v : Proc)
    → (is_used v.state ≡ true → v.pid ≡ kernel.nextpid)
    → (j n : ℕ) → Has (set kernel.procs i v) j n
    → New kernel i j n
set-New kernel i v fresh j n (q, e, used, pid) = elim (ℕ_discrete i j) [
  | no other ↦ inr (q, sym (get_elem?-set_ne kernel.procs v other) ∙ e, used, pid)
  | yes same ↦
      let len : i < length kernel.procs =
        omega (arith, same, get_elem?-lt (set kernel.procs i v) j e, length-set kernel.procs i v) in
      let here : get_elem? (set kernel.procs i v) j ≡ some v =
        subst (λ k. get_elem? (set kernel.procs i v) k ≡ some v) same
          (get_elem?-set_self kernel.procs i v len) in
      let q_is_v : v ≡ q = cc in
      inl (same, sym pid ∙ ap (λ (r : Proc). r.pid) (sym q_is_v) ∙ fresh (rw q_is_v used))
]

New-distinct :
    (kernel : Kernel) (i j k n : ℕ) → IsValid kernel → New kernel i j n → New kernel i k n → j ≡ k
New-distinct kernel i j k n v (inl (a, _)) (inl (b, _)) = sym a ∙ b
New-distinct kernel i j k n v (inl (a, e)) (inr h) = absurd (omega (arith, e, v.below k n h))
New-distinct kernel i j k n v (inr h) (inl (a, e)) = absurd (omega (arith, e, v.below j n h))
New-distinct kernel i j k n v (inr h) (inr h') = v.distinct j k n h h'

New-below :
    (kernel : Kernel) (i j n : ℕ) → IsValid kernel → New kernel i j n → n < kernel.nextpid + 1
New-below kernel i j n v (inl (a, e)) = omega (arith, e)
New-below kernel i j n v (inr h) = omega (arith, v.below j n h)

-- A slot that gets the next pid.
set-IsValid :
    (kernel : Kernel) (i : ℕ) (v : Proc)
    → kernel.nextpid + 1 < pid_end
    → IsValid kernel
    → (is_used v.state ≡ true → v.pid ≡ kernel.nextpid)
    → IsValid
        (record kernel { procs = set kernel.procs i v; nextpid = (kernel.nextpid + 1) % pid_end })
set-IsValid kernel i v low valid fresh = record {
  below =
      λ j n h. omega (arith, low, New-below kernel i j n valid (set-New kernel i v fresh j n h));
  distinct = λ j k n h h'.
      New-distinct kernel i j k n valid (set-New kernel i v fresh j n h)
        (set-New kernel i v fresh k n h');
}

init_proc-pid : (p : Proc) (pid : ℕ) (page : Option ℕ) → (init_proc p pid page).pid ≡ pid
unfolding init_proc
init_proc-pid p pid none = refl
init_proc-pid p pid (some page) = refl

-- `allocproc` keeps the pids distinct and below the next one, unless that wraps, whether it finds a slot
-- and a page or not.
pub allocproc-IsValid :
    (kernel : Kernel) (page : Option ℕ)
    → kernel.nextpid + 1 < pid_end
    → IsValid kernel
    → IsValid (allocproc kernel page).1
unfolding allocproc
allocproc-IsValid kernel page low v = elim (Option-cases (find_unused 0 kernel.procs)) [
  | inl full ↦ rw (full, allocproc) v
  | inr (i, found) ↦ elim (Option-cases (get_elem? kernel.procs i)) [
    | inl out ↦ rw (found, out, allocproc) v
    | inr (p, at) ↦
        rw (found, at, allocproc)
          (set-IsValid kernel i (init_proc p kernel.nextpid page) low v
            (λ used. init_proc-pid p kernel.nextpid page))
  ]
]

init_proc-used :
    (p : Proc) (pid : ℕ) (page : ℕ) → is_used (init_proc p pid (some page)).state ≡ true
unfolding init_proc
init_proc-used p pid page = refl

-- The slot that `allocproc` returns is in use.
pub allocproc-used :
    (kernel : Kernel) (page : Option ℕ) (i : ℕ) (np : Proc)
    → (allocproc kernel page).0 ≡ some i
    → get_elem? (allocproc kernel page).1.procs i ≡ some np
    → is_used np.state ≡ true
unfolding allocproc
allocproc-used kernel none i np slot at = absurd (ground arith)
allocproc-used kernel (some page) i np slot at = elim (Option-cases (find_unused 0 kernel.procs)) [
  | inl full ↦ absurd (cc (rw (full, allocproc) at slot))
  | inr (j, found) ↦ elim (Option-cases (get_elem? kernel.procs j)) [
    | inl out ↦ absurd (cc (rw (found, out, allocproc) at slot))
    | inr (p, e) ↦
        let j_is_i : j ≡ i = cc (rw (found, e, allocproc) at slot) in
        let here : get_elem? (set kernel.procs j (init_proc p kernel.nextpid (some page))) i
            ≡ some np =
          rw (found, e, allocproc) at at in
        let there : get_elem? (set kernel.procs j (init_proc p kernel.nextpid (some page))) j
            ≡ some (init_proc p kernel.nextpid (some page)) =
          get_elem?-set_self kernel.procs j _ (get_elem?-lt kernel.procs j e) in
        let same : init_proc p kernel.nextpid (some page) ≡ np = cc in
        rw (← same) (init_proc-used p kernel.nextpid page)
  ]
]

fork_into-Sub :
    (kernel : Kernel) (current : ℕ) (curproc : Proc) (i : ℕ) (np : Proc) (copied : Bool)
    → get_elem? kernel.procs i ≡ some np
    → is_used np.state ≡ true
    → IsValid kernel
    → IsValid (fork_into kernel current curproc i np copied).1
unfolding fork_into
fork_into-Sub kernel current curproc i np true at used v =
    Sub-IsValid kernel _ v (Sub-set kernel.procs i np _ at (λ h. (used, refl))) (omega arith)
fork_into-Sub kernel current curproc i np false at used v =
    Sub-IsValid kernel _ v (Sub-set kernel.procs i np _ at (λ h. absurd (cc))) (omega arith)

-- `fork` keeps the pids of the slots in use distinct and below the next one, whatever it returns, unless
-- the next one wraps.
pub fork-IsValid :
    (kernel : Kernel) (current : ℕ) (page : Option ℕ) (copied : Bool) {r : ℤ} {kernel' : Kernel}
    → fork kernel current page copied ≡ some (r, kernel')
    → kernel.nextpid + 1 < pid_end
    → IsValid kernel
    → IsValid kernel'
unfolding fork
fork-IsValid kernel current page copied {r} {kernel'} h low v =
    elim (Option-cases (allocproc kernel page).0) [
      | inl null ↦
          let same : (allocproc kernel page).1 ≡ kernel' = cc (rw (null, fork) at h) in
          subst IsValid same v'
      | inr (i, slot) ↦ elim (Option-cases (get_elem? (allocproc kernel page).1.procs i)) [
        | inl out ↦ absurd (cc (rw (slot, out, fork) at h))
        | inr (np, at) ↦ elim (Option-cases (get_elem? (allocproc kernel page).1.procs current)) [
          | inl out ↦ absurd (cc (rw (slot, at, out, fork) at h))
          | inr (curproc, cur) ↦
              let result : fork_into (allocproc kernel page).1 current curproc i np copied
                  ≡ (r, kernel') =
                cc (rw (slot, at, cur, fork) at h) in
              subst IsValid (ap (λ (x : ℤ × Kernel). x.1) result) (
                fork_into-Sub (allocproc kernel page).1 current curproc i np copied at
                  (allocproc-used kernel page i np slot at) v')
        ]
      ]
    ]
  where
    v' : IsValid (allocproc kernel page).1
    v' = allocproc-IsValid kernel page low v

pub allocproc-nextpid :
    (kernel : Kernel) (page : Option ℕ) → (allocproc kernel page).1.nextpid ≤ kernel.nextpid + 1
unfolding allocproc
allocproc-nextpid kernel page = elim (Option-cases (find_unused 0 kernel.procs)) [
  | inl full ↦ rw (full, allocproc) (omega arith)
  | inr (i, found) ↦ elim (Option-cases (get_elem? kernel.procs i)) [
    | inl out ↦ rw (found, out, allocproc) (omega arith)
    | inr (p, at) ↦ rw (found, at, allocproc) (omega arith)
  ]
]

fork_into-nextpid :
    (kernel : Kernel) (current i : ℕ) (curproc np : Proc) (copied : Bool)
    → (fork_into kernel current curproc i np copied).1.nextpid ≡ kernel.nextpid
unfolding fork_into
fork_into-nextpid kernel current i curproc np true = refl
fork_into-nextpid kernel current i curproc np false = refl

-- `fork` takes one pid at most.
pub fork-nextpid :
    (kernel : Kernel) (current : ℕ) (page : Option ℕ) (copied : Bool) {r : ℤ} {kernel' : Kernel}
    → fork kernel current page copied ≡ some (r, kernel')
    → kernel'.nextpid ≤ kernel.nextpid + 1
unfolding fork
fork-nextpid kernel current page copied {r} {kernel'} h =
    elim (Option-cases (allocproc kernel page).0) [
      | inl null ↦
          let same : (allocproc kernel page).1 ≡ kernel' = cc (rw (null, fork) at h) in
          omega (arith, ap (λ (k : Kernel). k.nextpid) same, allocproc-nextpid kernel page)
      | inr (i, slot) ↦ elim (Option-cases (get_elem? (allocproc kernel page).1.procs i)) [
        | inl out ↦ absurd (cc (rw (slot, out, fork) at h))
        | inr (np, at) ↦ elim (Option-cases (get_elem? (allocproc kernel page).1.procs current)) [
          | inl out ↦ absurd (cc (rw (slot, at, out, fork) at h))
          | inr (curproc, cur) ↦
              let result : fork_into (allocproc kernel page).1 current curproc i np copied
                  ≡ (r, kernel') =
                cc (rw (slot, at, cur, fork) at h) in
              omega (
                arith,
                ap (λ (x : ℤ × Kernel). x.1.nextpid) result,
                fork_into-nextpid (allocproc kernel page).1 current i curproc np copied,
                allocproc-nextpid kernel page,
              )
        ]
      ]
    ]
