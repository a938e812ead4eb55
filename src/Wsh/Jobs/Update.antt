-- ===== src/Wsh/Jobs/Update.antt =====
-- One slot of the table is written: when that keeps the invariant.
use cs537_operating_system_u.Base.{
  ℕ, suc, ◌+◌, ◌≡◌, ◌≢◌, ◌⊎◌, refl, ap, sym, ◌∙◌, List, none, some, arith, false, Bool-cases, inl,
  inr, get_elem?, set, length, length-set, get_elem?-set_self, get_elem?-set_ne, get_elem?-lt,
  ℕ_discrete,
}
use mathlib.Core.Path.{subst}
use cs537_operating_system_u.Wsh.Outcome.{returns}
use cs537_operating_system_u.Wsh.Jobs.{Job, Shell, remove_job}
use cs537_operating_system_u.Wsh.Jobs.Table.{InUse, IsValid}

-- What stands in a slot after a write to one.
pub InUse-set :
    (jobs : List Job) (i : ℕ) (v : Job) (k : ℕ) (l : Job)
    → InUse (set jobs i v) k l
    → ((k ≡ i) × (v ≡ l)) ⊎ ((k ≢ i) × InUse jobs k l)
InUse-set jobs i v k l (at, used) = elim (ℕ_discrete i k) [
  | yes same ↦
      let there : get_elem? (set jobs i v) k ≡ some v =
        subst (λ n. get_elem? (set jobs i v) n ≡ some v) same
          (get_elem?-set_self jobs i v
            (omega (arith, same, get_elem?-lt (set jobs i v) k at, length-set jobs i v))) in
      inl (sym same, cc)
  | no other ↦ inr ((λ e. other (sym e)), (sym (get_elem?-set_ne jobs v other) ∙ at, used))
]

module _ (shell : Shell) (i : ℕ) (j v : Job) (valid : IsValid shell)
    (at : get_elem? shell.jobs i ≡ some j) where
  -- A slot that is taken out of use.
  pub free-IsValid : v.in_use ≡ false → IsValid (record shell { jobs = set shell.jobs i v })
  free-IsValid free = record {
    size = length-set shell.jobs i v ∙ valid.size;
    started = valid.started;
    first_unused = λ l e. elim (Bool-cases l.in_use) [
      | inr unused ↦ unused
      | inl used ↦ elim (InUse-set shell.jobs i v 0 l (e, used)) [
        | inl (_, same) ↦ absurd (cc (ap (λ (x : Job). x.in_use) same))
        | inr (_, old) ↦ valid.first_unused l old.0
      ]
    ];
    counted = λ k l used. valid.counted k l (old k l used);
    distinct =
        λ k m l n used used' same. valid.distinct k m l n (old k l used) (old m n used') same;
    has_command = λ k l used. valid.has_command k l (old k l used);
  }
    where
      old : (k : ℕ) (l : Job) → InUse (set shell.jobs i v) k l → InUse shell.jobs k l
      old k l used = elim (InUse-set shell.jobs i v k l used) [
        | inl (_, same) ↦ absurd (cc (ap (λ (x : Job). x.in_use) same, used.1))
        | inr (_, there) ↦ there
      ]

  -- A slot that was free, and is put into use with the next counter value.
  pub use-IsValid :
      (n : ℕ)
      → i ≡ suc n
      → v.counter_value ≡ shell.counter
      → (c : List ℕ) → v.command ≡ some c
      → IsValid (record shell { jobs = set shell.jobs i v; counter = shell.counter + 1 })
  use-IsValid n behind value c has = record {
    size = length-set shell.jobs i v ∙ valid.size;
    started = omega (arith, valid.started);
    first_unused = λ l e. valid.first_unused l (sym (get_elem?-set_ne shell.jobs v ne_zero) ∙ e);
    counted = λ k l used. elim (InUse-set shell.jobs i v k l used) [
      | inl (_, same) ↦
          let e = ap (λ (x : Job). x.counter_value) same in
          (omega (arith, valid.started), omega arith)
      | inr (_, old) ↦ let counted = valid.counted k l old in (omega arith, omega arith)
    ];
    distinct = λ k m l n used used' same. elim (InUse-set shell.jobs i v k l used) [
      | inl (here, e) ↦ elim (InUse-set shell.jobs i v m n used') [
        | inl (here', _) ↦ here ∙ sym here'
        | inr (_, old) ↦
            let counted = valid.counted m n old in
            let e' = ap (λ (x : Job). x.counter_value) e in absurd (omega arith)
      ]
      | inr (_, old) ↦ elim (InUse-set shell.jobs i v m n used') [
        | inl (_, e) ↦
            let counted = valid.counted k l old in
            let e' = ap (λ (x : Job). x.counter_value) e in absurd (omega arith)
        | inr (_, old') ↦ valid.distinct k m l n old old' same
      ]
    ];
    has_command = λ k l used. elim (InUse-set shell.jobs i v k l used) [
      | inl (_, same) ↦ (c, sym (ap (λ (x : Job). x.command) same) ∙ has)
      | inr (_, old) ↦ valid.has_command k l old
    ];
  }
    where
      ne_zero : i ≢ 0
      ne_zero e = omega (arith, e, behind)

-- A call that leaves the table and the counter alone.
pub same_jobs-IsValid :
    (shell shell' : Shell)
    → shell'.jobs ≡ shell.jobs
    → shell'.counter ≡ shell.counter
    → IsValid shell
    → IsValid shell'
same_jobs-IsValid shell shell' jobs counter v = record {
  size = ap length jobs ∙ v.size;
  started = omega (arith, counter, v.started);
  first_unused = λ j at. v.first_unused j (sym (ap (λ l. get_elem? l 0) jobs) ∙ at);
  counted = λ i j used.
      let counted = v.counted i j (old i j used) in (counted.0, omega (arith, counter, counted.1));
  distinct = λ i k j l used used' same. v.distinct i k j l (old i j used) (old k l used') same;
  has_command = λ i j used. v.has_command i j (old i j used);
}
  where
    old : (i : ℕ) (j : Job) → InUse shell'.jobs i j → InUse shell.jobs i j
    old i j used = (sym (ap (λ l. get_elem? l i) jobs) ∙ used.0, used.1)

-- `remove_job` of a slot of the table keeps the invariant, and the slot is not in use afterwards.
pub remove_job_lem :
    (shell : Shell) (i : ℕ) (j : Job)
    → IsValid shell
    → get_elem? shell.jobs i ≡ some j
    → (shell' : Shell) × (remove_job shell i ≡ returns shell')
      × IsValid shell'
      × ((k : ℕ) (l : Job) → InUse shell'.jobs k l → (k ≢ i) × InUse shell.jobs k l)
      × ((k : ℕ) (l : Job) → InUse shell.jobs k l → k ≢ i → InUse shell'.jobs k l)
unfolding remove_job
remove_job_lem shell i j valid at = elim (Bool-cases j.in_use) [
  | inl used ↦ (
    record shell { jobs = set shell.jobs i freed },
    rw (at, remove_job, used),
    free-IsValid shell i j freed valid at refl,
    (λ k l h. elim (InUse-set shell.jobs i freed k l h) [
      | inl (_, same) ↦ absurd (cc (ap (λ (x : Job). x.in_use) same, h.1))
      | inr there ↦ there
    ]),
    (λ k l h ne. (get_elem?-set_ne shell.jobs freed (λ e. ne (sym e)) ∙ h.0, h.1)),
  )
  | inr unused ↦ (
    shell,
    rw (at, remove_job, unused),
    valid,
    (λ k l h. (
      (λ e.
          let same : j ≡ l = cc (ap (get_elem? shell.jobs) e, at, h.0) in
          cc (ap (λ (x : Job). x.in_use) same, h.1)),
      h,
    )),
    (λ k l h ne. h),
  )
]
  where
    freed : Job
    freed = record j { command = none; in_use = false }
