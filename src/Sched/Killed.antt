-- ===== src/Sched/Killed.antt =====
-- `kill`: the first slot with the pid, in use or not.
use cs537_operating_system_u.Base.{
  ℕ, suc, ◌+◌, ◌%◌, ◌≡◌, ◌≢◌, ◌⊎◌, refl, ap, ◌∙◌, List, [], ◌∷◌, ◌++◌, Option, none, some, arith,
  ◌==◌, true, false, if◌then◌else◌, Bool-cases, inl, inr, get_elem?, set, take, length,
  get_elem?-front, All, get_elem?-append, set-append,
}
use native.Mathlib.Nat.{zero-add}
use cs537_operating_system_u.Base.Int.{ℤ, pos, negsuc}
use cs537_operating_system_u.Sched.Table.{unused, runnable, Proc, Kernel, is_used, is_sleeping}
use cs537_operating_system_u.Sched.Process.{
  pid_end, to_int, find_unused, init_proc, allocproc, fork_into, fork, kill_from, kill,
}

-- The slot's process when it was killed.
abbrev pub killed_proc : Proc → Proc
killed_proc p = record p {
  killed = true;
  state = if is_sleeping p.state then runnable else p.state;
}

-- The first slot with the pid, and the table with that slot killed.
pub record Hit (pid : ℕ) (procs procs' : List Proc) : Type 0 where
  pub index : ℕ
  pub target : Proc
  pub at : get_elem? procs index ≡ some target
  pub pid_eq : target.pid ≡ pid
  pub first : All (λ p. p.pid ≢ pid) (take index procs)
  pub result : procs' ≡ set procs index (killed_proc target)

Hit-cons :
    (pid : ℕ) (p : Proc) (ps ps' : List Proc)
    → p.pid ≢ pid
    → Hit pid ps ps'
    → Hit pid (p ∷ ps) (p ∷ ps')
Hit-cons pid p ps ps' ne h = record {
  index = suc h.index;
  target = h.target;
  at = h.at;
  pid_eq = h.pid_eq;
  first = (ne, h.first);
  result = ap (λ l. p ∷ l) h.result;
}

pub kill_from-Hit :
    (pid : ℕ) (procs : List Proc)
    → (All (λ p. p.pid ≢ pid) procs × (kill_from pid procs ≡ none))
      ⊎ ((procs' : List Proc) × (kill_from pid procs ≡ some procs') × Hit pid procs procs')
unfolding kill_from
kill_from-Hit pid [] = inl (tt, refl)
kill_from-Hit pid (p ∷ ps) = elim (Bool-cases (p.pid == pid)) [
  | inl hit ↦ inr (
    killed_proc p ∷ ps,
    rw hit,
    record { index = 0; target = p; at = refl; pid_eq = ground arith; first = tt; result = refl },
  )
  | inr miss ↦
      let ne : p.pid ≢ pid = ground arith in
      elim (kill_from-Hit pid ps) [
        | inl (others, out) ↦ inl ((ne, others), rw (miss, out))
        | inr (ps', out, h) ↦ inr (p ∷ ps', rw (miss, out), Hit-cons pid p ps ps' ne h)
      ]
]

-- `kill` returns -1 and changes nothing if no slot has the pid. Otherwise it returns 0, and the first
-- such slot is killed and, if it slept, made RUNNABLE; nothing else changes.
pub kill_lem :
    (kernel : Kernel) (pid : ℕ)
    → (All (λ p. p.pid ≢ pid) kernel.procs × (kill kernel pid ≡ (negsuc 0, kernel)))
      ⊎ ((procs' : List Proc) × (kill kernel pid ≡ (pos 0, record kernel { procs = procs' }))
          × Hit pid kernel.procs procs')
unfolding kill
kill_lem kernel pid = elim (kill_from-Hit pid kernel.procs) [
  | inl (others, out) ↦ inl (others, rw (out, kill))
  | inr (procs', out, h) ↦ inr (procs', rw (out, kill), h)
]

-- The table up to its first UNUSED slot, which was never used or was reaped.
pub record FirstFree (procs : List Proc) : Type 0 where
  pub before : List Proc
  pub free : Proc
  pub after : List Proc
  pub split : procs ≡ before ++ free ∷ after
  pub others : All (λ p. (is_used p.state ≡ true) × (p.pid ≢ 0)) before
  pub is_free : free.state ≡ unused
  pub no_pid : free.pid ≡ 0

kill_from-zero :
    (before : List Proc) (free : Proc) (after : List Proc)
    → All (λ p. (is_used p.state ≡ true) × (p.pid ≢ 0)) before
    → free.pid ≡ 0
    → kill_from 0 (before ++ free ∷ after) ≡ some (before ++ killed_proc free ∷ after)
unfolding kill_from
kill_from-zero [] free after h e = rw e
kill_from-zero (p ∷ before) free after h e =
    let miss : (p.pid == 0) ≡ false = ground (arith, h.0.1) in
    rw (miss, kill_from-zero before free after h.1 e)

find_unused-first :
    (i : ℕ) (before : List Proc) (free : Proc) (after : List Proc)
    → All (λ p. (is_used p.state ≡ true) × (p.pid ≢ 0)) before
    → is_used free.state ≡ false
    → find_unused i (before ++ free ∷ after) ≡ some (i + length before)
unfolding find_unused
find_unused-first i [] free after h e = rw e (ap some (omega arith))
find_unused-first i (p ∷ before) free after h e =
    rw (h.0.0, find_unused-first (suc i) before free after h.1 e) (ap some (omega arith))

-- The kernel whose first free slot was killed.
abbrev poisoned : (kernel : Kernel) → FirstFree kernel.procs → Kernel
poisoned kernel f = record kernel { procs = f.before ++ killed_proc f.free ∷ f.after }

kill-poisons :
    (kernel : Kernel) (f : FirstFree kernel.procs) → kill kernel 0 ≡ (pos 0, poisoned kernel f)
unfolding kill
kill-poisons kernel f = rw (f.split, kill_from-zero f.before f.free f.after f.others f.no_pid, kill)

module _ (kernel : Kernel) (page : ℕ) (before : List Proc) (free : Proc) (after : List Proc) where
  abbrev child : Proc
  child = init_proc free kernel.nextpid (some page)

  abbrev allocated : Kernel
  allocated = record kernel {
    procs = before ++ child ∷ after;
    nextpid = (kernel.nextpid + 1) % pid_end;
  }

  allocproc-free :
      kernel.procs ≡ before ++ free ∷ after
      → All (λ p. (is_used p.state ≡ true) × (p.pid ≢ 0)) before
      → is_used free.state ≡ false
      → allocproc kernel (some page) ≡ (some (length before), allocated)
  unfolding allocproc
  allocproc-free split others e = rw (free_slot, allocproc, there, filled)
    where
      free_slot : find_unused 0 kernel.procs ≡ some (length before)
      free_slot =
          ap (find_unused 0) split
          ∙ find_unused-first 0 before free after others e
          ∙ ap some (zero-add (length before))

      there : get_elem? kernel.procs (length before) ≡ some free
      there = ap (λ l. get_elem? l (length before)) split ∙ get_elem?-append before free after

      filled : set kernel.procs (length before) child ≡ before ++ child ∷ after
      filled = ap (λ l. set l (length before) child) split ∙ set-append before free child after

fork-copied :
    (kernel kernel' : Kernel) (current i : ℕ) (page : Option ℕ) (np curproc : Proc)
    → allocproc kernel page ≡ (some i, kernel')
    → get_elem? kernel'.procs i ≡ some np
    → get_elem? kernel'.procs current ≡ some curproc
    → fork kernel current page true
      ≡ some (
        to_int np.pid,
        record kernel' {
          procs =
              set kernel'.procs i
                (record np { parent = some current; name = curproc.name; state = runnable });
        },
      )
unfolding fork fork_into
fork-copied kernel kernel' current i page np curproc slot at cur = rw (
  ap (λ (r : Option ℕ × Kernel). r.0) slot,
  fork,
  ap (λ (r : Option ℕ × Kernel). r.1) slot,
  at,
  cur,
)

-- Where the first UNUSED slot has pid 0, and the slots before it are in use with other pids: `kill(0)`
-- returns 0, and nothing resets the `killed` of that slot before the next `fork` takes it. If the process
-- that forks stands before the slot, and there is a page for the stack and memory for the copy, `fork`
-- returns the next pid and the slot holds a runnable process that is already killed.
pub kill_zero-fork :
    (kernel : Kernel) (f : FirstFree kernel.procs) (current page : ℕ) {curproc : Proc}
    → get_elem? f.before current ≡ some curproc
    → (kernel' : Kernel) × (np : Proc) × ((kill kernel 0).0 ≡ pos 0)
      × (fork (kill kernel 0).1 current (some page) true ≡ some (to_int kernel.nextpid, kernel'))
      × (get_elem? kernel'.procs (length f.before) ≡ some np)
      × (np.state ≡ runnable)
      × (np.killed ≡ true)
kill_zero-fork kernel f current page {curproc} cur = (
  record allocated' { procs = f.before ++ np ∷ f.after },
  np,
  ap (λ (r : ℤ × Kernel). r.0) (kill-poisons kernel f),
  forked ∙ ap (λ n. some (to_int n, record allocated' { procs = f.before ++ np ∷ f.after })) pid_eq,
  get_elem?-append f.before np f.after,
  refl,
  unfold init_proc in refl,
)
  where
    child' : Proc
    child' = child (poisoned kernel f) page f.before (killed_proc f.free) f.after

    allocated' : Kernel
    allocated' = allocated (poisoned kernel f) page f.before (killed_proc f.free) f.after

    np : Proc
    np = record child' { parent = some current; name = curproc.name; state = runnable }

    unused' : is_used (killed_proc f.free).state ≡ false
    unused' = ground (arith, f.is_free)

    pid_eq : np.pid ≡ kernel.nextpid
    pid_eq = unfold init_proc in refl

    forked :
        fork (kill kernel 0).1 current (some page) true
        ≡ some (to_int np.pid, record allocated' { procs = f.before ++ np ∷ f.after })
    forked =
        ap (λ (k : ℤ × Kernel). fork k.1 current (some page) true) (kill-poisons kernel f)
        ∙ fork-copied (poisoned kernel f) allocated' current (length f.before) (some page) child'
            curproc
            (allocproc-free (poisoned kernel f) page f.before (killed_proc f.free) f.after refl
              f.others unused')
            (get_elem?-append f.before child' f.after)
            (get_elem?-front f.before (child' ∷ f.after) current cur)
        ∙ ap (λ l. some (to_int np.pid, record allocated' { procs = l }))
            (set-append f.before child' np f.after)
