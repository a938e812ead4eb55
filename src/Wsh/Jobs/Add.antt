-- ===== src/Wsh/Jobs/Add.antt =====
-- `add_job`: the new job takes the first free slot, and is the one that `fg` finds.
use cs537_operating_system_u.Base.{
  ℕ, zero, suc, ◌+◌, ◌≡◌, ◌≢◌, ◌⊎◌, refl, ap, sym, ◌∙◌, List, [], ◌∷◌, none, some, arith, Bool,
  true, false, inl, inr, All, get_elem?, set, drop, get_elem?-set_self, get_elem?-set_ne,
  get_elem?-lt, ℕ_discrete,
}
use cs537_operating_system_u.Base.Int.{pos, negsuc}
use cs537_operating_system_u.Wsh.Outcome.{returns, faults}
use cs537_operating_system_u.Wsh.Jobs.{
  Job, Shell, find_free, find_next_job_id, find_most_recently_added_job, fill_job, add_job,
}
use cs537_operating_system_u.Wsh.Jobs.Table.{
  InUse, IsValid, get_elem?-rest, find_free-FirstFree, find_most_recently_added_job_lem,
}
use cs537_operating_system_u.Wsh.Jobs.Update.{InUse-set, use-IsValid}

set-set {ℓ} : {A : Type ℓ} (xs : List A) (i : ℕ) (a b : A) → set (set xs i a) i b ≡ set xs i b
set-set [] i a b = refl
set-set (x ∷ xs) zero a b = refl
set-set (x ∷ xs) (suc i) a b = ap (λ l. x ∷ l) (set-set xs i a b)

no_slot :
    (shell : Shell)
    → find_free 1 (drop 1 shell.jobs) ≡ none
    → find_next_job_id shell ≡ (negsuc 0, shell)
unfolding find_next_job_id
no_slot shell full = rw (full, find_next_job_id)

-- With no free slot the job is written outside the table.
pub add_job-full :
    (shell : Shell) (pid : ℕ) (command : List ℕ) (is_bg : Bool)
    → find_free 1 (drop 1 shell.jobs) ≡ none
    → add_job shell pid command is_bg ≡ faults
unfolding add_job fill_job
add_job-full shell pid command is_bg full = rw (no_slot shell full, fill_job)

fill_job-there :
    (shell : Shell) (i : ℕ) (j : Job) (pid : ℕ) (command : List ℕ) (is_bg : Bool)
    → get_elem? shell.jobs i ≡ some j
    → fill_job shell (pos i) pid command is_bg
      ≡ returns (record shell {
        jobs = set shell.jobs i (record j {
          pid = pid;
          is_bg = is_bg;
          command = some command;
          counter_value = shell.counter;
        });
        counter = shell.counter + 1;
      })
unfolding fill_job
fill_job-there shell i j pid command is_bg at = rw (at, fill_job)

module _ (shell : Shell) (i : ℕ) (j : Job) (pid : ℕ) (command : List ℕ) (is_bg : Bool) where
  abbrev pub new_job : Job
  new_job = record j {
    pid = pid;
    is_bg = is_bg;
    command = some command;
    in_use = true;
    counter_value = shell.counter;
  }

  abbrev pub added : Shell
  added = record shell { jobs = set shell.jobs i new_job; counter = shell.counter + 1 }

  marked :
      get_elem? shell.jobs i ≡ some j
      → find_free 1 (drop 1 shell.jobs) ≡ some i
      → find_next_job_id shell
        ≡ (pos i, record shell { jobs = set shell.jobs i (record j { in_use = true }) })
  unfolding find_next_job_id
  marked at found = rw (found, find_next_job_id, at)

  add_job-added :
      get_elem? shell.jobs i ≡ some j
      → find_free 1 (drop 1 shell.jobs) ≡ some i
      → add_job shell pid command is_bg ≡ returns added
  unfolding add_job
  add_job-added at found =
      let used = record j { in_use = true } in
      let here = get_elem?-set_self shell.jobs i used (get_elem?-lt shell.jobs i at) in
      rw (marked at found) (
        rw (set-set shell.jobs i used new_job) at (
          fill_job-there (record shell { jobs = set shell.jobs i used }) i used pid command is_bg
            here))

-- What `add_job` leaves: a valid table, with the new job in a slot that was free while all slots in
-- front of it (but 0) were not, the other slots as they were, and the new job the most recent one.
pub record Added (shell : Shell) (pid : ℕ) (command : List ℕ) (is_bg : Bool) (shell' : Shell)
    : Type 0 where
  pub id : ℕ
  pub job : Job
  pub at : InUse shell'.jobs id job
  pub job_eq : (job.pid ≡ pid) × (job.command ≡ some command) × (job.is_bg ≡ is_bg)
  pub was_free : (j : Job) → get_elem? shell.jobs id ≡ some j → j.in_use ≡ false
  pub others : (k : ℕ) → k ≢ id → get_elem? shell'.jobs k ≡ get_elem? shell.jobs k
  pub valid : IsValid shell'
  pub recent : find_most_recently_added_job shell' ≡ pos id

module _ (shell : Shell) (i : ℕ) (j : Job) (pid : ℕ) (command : List ℕ) (is_bg : Bool)
    (v : IsValid shell) where
  added-recent :
      InUse (added shell i j pid command is_bg).jobs i (new_job shell i j pid command is_bg)
      → IsValid (added shell i j pid command is_bg)
      → find_most_recently_added_job (added shell i j pid command is_bg) ≡ pos i
  added-recent here valid =
      elim (find_most_recently_added_job_lem (added shell i j pid command is_bg) valid) [
        | inl (nothing, _) ↦ absurd (nothing i (new_job shell i j pid command is_bg) here)
        | inr (k, l, out, used, greater) ↦ elim (ℕ_discrete k i) [
          | yes same ↦ out ∙ ap pos same
          | no other ↦
              elim (InUse-set shell.jobs i (new_job shell i j pid command is_bg) k l used) [
                | inl (same, _) ↦ absurd (other same)
                | inr (_, old) ↦
                    let counted = v.counted k l old in
                    let above =
                      greater i (new_job shell i j pid command is_bg) here (λ e. other (sym e)) in
                    absurd (omega arith)
              ]
        ]
      ]

-- `add_job` writes outside the table if all slots but 0 are in use, and otherwise adds the job.
pub add_job_lem :
    (shell : Shell) (pid : ℕ) (command : List ℕ) (is_bg : Bool)
    → IsValid shell
    → (All (λ j. j.in_use ≡ true) (drop 1 shell.jobs) × (add_job shell pid command is_bg ≡ faults))
      ⊎ ((shell' : Shell) × (add_job shell pid command is_bg ≡ returns shell')
          × Added shell pid command is_bg shell')
add_job_lem shell pid command is_bg v = elim (find_free-FirstFree 1 (drop 1 shell.jobs)) [
  | inl (all, full) ↦ inl (all, add_job-full shell pid command is_bg full)
  | inr (i, found, f) ↦
      let at : get_elem? shell.jobs i ≡ some f.slot =
        ap (get_elem? shell.jobs) (f.found_eq ∙ omega arith)
        ∙ sym (get_elem?-rest shell.jobs f.index)
        ∙ f.at in
      let job = new_job shell i f.slot pid command is_bg in
      let here = get_elem?-set_self shell.jobs i job (get_elem?-lt shell.jobs i at) in
      let valid =
        use-IsValid shell i f.slot job v at f.index (f.found_eq ∙ omega arith) refl command refl in
      inr (
        added shell i f.slot pid command is_bg,
        add_job-added shell i f.slot pid command is_bg at found,
        record {
          id = i;
          job = job;
          at = (here, refl);
          job_eq = (refl, refl, refl);
          was_free =
              λ k e. let same : f.slot ≡ k = cc in ap (λ (x : Job). x.in_use) (sym same) ∙ f.free;
          others = λ k ne. get_elem?-set_ne shell.jobs job (λ e. ne (sym e));
          valid = valid;
          recent = added-recent shell i f.slot pid command is_bg v (here, refl) valid;
        },
      )
]
