-- ===== src/Sched/Pick.antt =====
-- `scheduler`: which process it runs.
use cs537_operating_system_u.Base.{
  ℕ, suc, ◌+◌, ◌≤◌, ◌<◌, ◌≡◌, ◌⊎◌, refl, ap, ◌∙◌, List, [], ◌∷◌, ◌++◌, Option, none, some, arith,
  if◌then◌else◌, ltb, ◌&&◌, true, Bool-cases, inl, inr, length, get_elem?, set, All,
}
use cs537_operating_system_u.Sched.Table.{Proc, Kernel, is_runnable, running}

-- The loop from slot `i` on, with `highest_priority` and `selected_process` so far.
unfoldable pub select_from : ℕ → List Proc → ℕ → Option ℕ → Option ℕ
select_from i [] highest_priority selected = selected
select_from i (p ∷ ps) highest_priority selected =
    let better = is_runnable p.state && ltb p.priority highest_priority in
    select_from (suc i) ps (if better then p.priority else highest_priority)
      (if better then some i else selected)

unfoldable pub select_process : List Proc → Option ℕ
unfolding select_from
select_process procs = select_from 0 procs 50000 none

-- One round of `while (1)` up to the switch: the process that runs now, and the kernel.
unfoldable pub schedule : Kernel → Option ℕ × Kernel
schedule kernel = elim (select_process kernel.procs) [
  | none ↦ (none, kernel)
  | some i ↦ elim (get_elem? kernel.procs i) [
    | none ↦ (none, kernel)
    | some p ↦ (
      some i,
      record kernel {
        procs = set kernel.procs i (record p {
          state = running;
          cpu_ticks = p.cpu_ticks + 1;
          exec_ticks = p.exec_ticks + 1;
        });
      },
    )
  ]
]

abbrev pub Candidate : ℕ → Proc → Type 0
Candidate bound p = (is_runnable p.state ≡ true) × (p.priority < bound)

-- No process among `ps` that is runnable has a priority below the bound.
abbrev pub NoneBelow : ℕ → List Proc → Type 0
NoneBelow bound ps = All (λ p. is_runnable p.state ≡ true → bound ≤ p.priority) ps

-- The process to run by the rule: runnable, below the bound, strictly better than all before it, and
-- at least as good as all behind it.
pub record IsChoice (bound : ℕ) (procs : List Proc) (i : ℕ) : Type 0 where
  pub before : List Proc
  pub chosen : Proc
  pub after : List Proc
  pub split : procs ≡ before ++ chosen ∷ after
  pub index : i ≡ length before
  pub can_run : Candidate bound chosen
  pub better : NoneBelow (suc chosen.priority) before
  pub no_worse : NoneBelow chosen.priority after

abbrev Selected : ℕ → ℕ → List Proc → Option ℕ → Option ℕ → Type 0
Selected i bound ps selected out =
    (NoneBelow bound ps × (out ≡ selected)) ⊎ ((j : ℕ) × (out ≡ some (i + j)) × IsChoice bound ps j)

IsChoice-cons :
    (bound bound' : ℕ) (p : Proc) (ps : List Proc) (j : ℕ)
    → bound' ≤ bound
    → (is_runnable p.state ≡ true → bound' ≤ p.priority)
    → IsChoice bound' ps j
    → IsChoice bound (p ∷ ps) (suc j)
IsChoice-cons bound bound' p ps j le first c = record {
  before = p ∷ c.before;
  chosen = c.chosen;
  after = c.after;
  split = ap (λ l. p ∷ l) c.split;
  index = ap suc c.index;
  can_run = (c.can_run.0, omega (arith, c.can_run.1));
  better = (λ r. omega (arith, first r, c.can_run.1), c.better);
  no_worse = c.no_worse;
}

select_from-Selected :
    (i : ℕ) (ps : List Proc) (bound : ℕ) (selected : Option ℕ)
    → Selected i bound ps selected (select_from i ps bound selected)
unfolding select_from
select_from-Selected i [] bound selected = inl (tt, refl)
select_from-Selected i (p ∷ ps) bound selected =
    elim (Bool-cases (is_runnable p.state && ltb p.priority bound)) [
      | inl better ↦ rw better (elim (select_from-Selected (suc i) ps p.priority (some i)) [
        | inl (others, out) ↦ inr (
          0,
          out ∙ ap some (omega arith),
          record {
            before = [];
            chosen = p;
            after = ps;
            split = refl;
            index = refl;
            can_run = ground arith;
            better = tt;
            no_worse = others;
          },
        )
        | inr (j, out, c) ↦ inr (
          suc j,
          out ∙ ap some (omega arith),
          IsChoice-cons bound p.priority p ps j (ground arith) (λ r. omega arith) c,
        )
      ])
      | inr worse ↦ rw worse (elim (select_from-Selected (suc i) ps bound selected) [
        | inl (others, out) ↦ inl ((λ r. ground arith, others), out)
        | inr (j, out, c) ↦ inr (
          suc j,
          out ∙ ap some (omega arith),
          IsChoice-cons bound bound p ps j (omega arith) (λ r. ground arith) c,
        )
      ])
    ]

-- The scheduler runs the first of the runnable processes whose priority number is smallest; it runs
-- none exactly if every runnable process has a priority of 50000 or more.
pub select_process-IsChoice :
    (procs : List Proc)
    → (NoneBelow 50000 procs × (select_process procs ≡ none))
      ⊎ ((i : ℕ) × (select_process procs ≡ some i) × IsChoice 50000 procs i)
unfolding select_process
select_process-IsChoice procs = elim (select_from-Selected 0 procs 50000 none) [
  | inl (others, out) ↦ inl (others, out)
  | inr (j, out, c) ↦ inr (j, out ∙ ap some (omega arith), c)
]
