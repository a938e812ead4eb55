-- ===== src/Wsh/Jobs/Table.antt =====
-- What the searches through the table find, and the table's invariant.
use cs537_operating_system_u.Base.{
  ℕ, zero, suc, ◌+◌, ◌≤◌, ◌<◌, ◌≡◌, ◌≢◌, ◌⊎◌, refl, ap, sym, ◌∙◌, List, [], ◌∷◌, none, some, arith,
  ◌==◌, ltb, ◌&&◌, true, false, Bool-cases, inl, inr, All, get_elem?, take, drop, length,
}
use cs537_operating_system_u.Base.Int.{ℤ, pos, negsuc}
use cs537_operating_system_u.Wsh.Jobs.{
  max_job_count, Job, Shell, find_free, find_recent, find_most_recently_added_job, find_pid,
}

-- The job of slot `i`, which is in use.
abbrev pub InUse : List Job → ℕ → Job → Type 0
InUse jobs i j = (get_elem? jobs i ≡ some j) × (j.in_use ≡ true)

-- Slot 0 is never in use. The counter values of the jobs in use are positive, below the next one, and
-- no two are the same; each of them has its command.
pub record IsValid (shell : Shell) : Type 0 where
  pub size : length shell.jobs ≡ max_job_count
  pub started : 0 < shell.counter
  pub first_unused : (j : Job) → get_elem? shell.jobs 0 ≡ some j → j.in_use ≡ false
  pub counted :
      (i : ℕ) (j : Job)
      → InUse shell.jobs i j
      → (0 < j.counter_value) × (j.counter_value < shell.counter)
  pub distinct :
      (i k : ℕ) (j l : Job)
      → InUse shell.jobs i j
      → InUse shell.jobs k l
      → j.counter_value ≡ l.counter_value
      → i ≡ k
  pub has_command : (i : ℕ) (j : Job) → InUse shell.jobs i j → (c : List ℕ) × (j.command ≡ some c)

-- The first slot that is not in use, and its place.
pub record FirstFree (i : ℕ) (jobs : List Job) (found : ℕ) : Type 0 where
  pub index : ℕ
  pub slot : Job
  pub found_eq : found ≡ i + index
  pub at : get_elem? jobs index ≡ some slot
  pub free : slot.in_use ≡ false
  pub others : All (λ j. j.in_use ≡ true) (take index jobs)

pub find_free-FirstFree :
    (i : ℕ) (jobs : List Job)
    → (All (λ j. j.in_use ≡ true) jobs × (find_free i jobs ≡ none))
      ⊎ ((found : ℕ) × (find_free i jobs ≡ some found) × FirstFree i jobs found)
unfolding find_free
find_free-FirstFree i [] = inl (tt, refl)
find_free-FirstFree i (j ∷ js) = elim (Bool-cases j.in_use) [
  | inr free ↦ inr (
    i,
    rw free,
    record { index = 0; slot = j; found_eq = omega arith; at = refl; free = free; others = tt },
  )
  | inl used ↦ elim (find_free-FirstFree (suc i) js) [
    | inl (all, out) ↦ inl ((used, all), rw used out)
    | inr (found, out, f) ↦ inr (
      found,
      rw used out,
      record {
        index = suc f.index;
        slot = f.slot;
        found_eq = omega (arith, f.found_eq);
        at = f.at;
        free = f.free;
        others = (used, f.others);
      },
    )
  ]
]

-- The job in use with the greatest counter value, where that is above a bound.
pub record IsRecent (bound : ℕ) (jobs : List Job) (index : ℕ) : Type 0 where
  pub job : Job
  pub at : InUse jobs index job
  pub above : bound < job.counter_value
  pub greatest : All (λ j. j.in_use ≡ true → j.counter_value ≤ job.counter_value) jobs

abbrev pub NoneAbove : ℕ → List Job → Type 0
NoneAbove bound jobs = All (λ j. j.in_use ≡ true → j.counter_value ≤ bound) jobs

NoneAbove-mono : (a b : ℕ) (jobs : List Job) → a ≤ b → NoneAbove a jobs → NoneAbove b jobs
NoneAbove-mono a b [] le h = tt
NoneAbove-mono a b (j ∷ js) le h = (λ used. omega (arith, h.0 used), NoneAbove-mono a b js le h.1)

find_recent-IsRecent :
    (i : ℕ) (jobs : List Job) (bound : ℕ) (result : ℤ)
    → (NoneAbove bound jobs × (find_recent i jobs bound result ≡ result))
      ⊎ ((n : ℕ) × (find_recent i jobs bound result ≡ pos (i + n)) × IsRecent bound jobs n)
unfolding find_recent
find_recent-IsRecent i [] bound result = inl (tt, refl)
find_recent-IsRecent i (j ∷ js) bound result =
    elim (Bool-cases (j.in_use && ltb bound j.counter_value)) [
      | inl newer ↦ rw newer (elim (find_recent-IsRecent (suc i) js j.counter_value (pos i)) [
        | inl (others, out) ↦ inr (
          0,
          out ∙ ap pos (omega arith),
          record {
            job = j;
            at = (refl, ground arith);
            above = ground arith;
            greatest = (λ used. omega arith, others);
          },
        )
        | inr (n, out, r) ↦ inr (
          suc n,
          out ∙ ap pos (omega arith),
          record {
            job = r.job;
            at = r.at;
            above = ground (arith, r.above);
            greatest = (λ used. omega (arith, r.above), r.greatest);
          },
        )
      ])
      | inr older ↦ rw older (elim (find_recent-IsRecent (suc i) js bound result) [
        | inl (others, out) ↦ inl ((λ used. ground arith, others), out)
        | inr (n, out, r) ↦ inr (
          suc n,
          out ∙ ap pos (omega arith),
          record {
            job = r.job;
            at = r.at;
            above = r.above;
            greatest = (λ used. ground (arith, r.above), r.greatest);
          },
        )
      ])
    ]

-- The slot that the search for a pid finds.
pub find_pid-InUse :
    (i : ℕ) (jobs : List Job) (pid : ℕ) {found : ℕ}
    → find_pid i jobs pid ≡ some found
    → (n : ℕ) × (j : Job) × (found ≡ i + n) × InUse jobs n j × (j.pid ≡ pid)
unfolding find_pid
find_pid-InUse i [] pid h = absurd (cc)
find_pid-InUse i (j ∷ js) pid h = elim (Bool-cases (j.in_use && j.pid == pid)) [
  | inl hit ↦ (0, j, ground (arith, hit), (refl, ground (arith, hit)), ground (arith, hit))
  | inr miss ↦
      let (n, l, e, at, same) = find_pid-InUse (suc i) js pid (rw miss at h) in
      (suc n, l, omega (arith, e), at, same)
]

pub All-get {ℓ κ} :
    {A : Type ℓ} (P : A → Type κ) (xs : List A) (i : ℕ) {x : A}
    → All P xs
    → get_elem? xs i ≡ some x
    → P x
All-get P [] i h e = absurd (cc)
All-get P (y ∷ ys) zero {x} h e = let same : y ≡ x = cc in rw (← same) h.0
All-get P (y ∷ ys) (suc i) h e = All-get P ys i h.1 e

pub get_elem?-rest : (jobs : List Job) (i : ℕ) → get_elem? (drop 1 jobs) i ≡ get_elem? jobs (suc i)
get_elem?-rest [] i = refl
get_elem?-rest (j ∷ js) i = refl

lt_of_ne : (a b : ℕ) → a ≤ b → a ≢ b → a < b
lt_of_ne a b le ne = ground arith

module _ (shell : Shell) (v : IsValid shell) where
  -- A job in use stands behind slot 0.
  pub rest-InUse :
      (i : ℕ) (j : Job)
      → InUse shell.jobs i j
      → (k : ℕ) × (i ≡ suc k) × InUse (drop 1 shell.jobs) k j
  rest-InUse zero j (at, used) = absurd (cc (v.first_unused j at))
  rest-InUse (suc k) j (at, used) = (k, refl, (get_elem?-rest shell.jobs k ∙ at, used))

  NoneAbove-InUse :
      (bound : ℕ)
      → NoneAbove bound (drop 1 shell.jobs)
      → (i : ℕ) (j : Job) → InUse shell.jobs i j
      → j.counter_value ≤ bound
  NoneAbove-InUse bound h i j used =
      let (k, e, (at, used')) = rest-InUse i j used in
      All-get (λ l. l.in_use ≡ true → l.counter_value ≤ bound) (drop 1 shell.jobs) k h at used'

  -- `find_most_recently_added_job` gives -1 where no job is in use, and otherwise the job in use that
  -- was added last: its counter value is greater than those of all others.
  pub find_most_recently_added_job_lem :
      (((i : ℕ) (j : Job) → InUse shell.jobs i j → ⊥)
        × (find_most_recently_added_job shell ≡ negsuc 0))
      ⊎ ((i : ℕ) × (j : Job) × (find_most_recently_added_job shell ≡ pos i)
          × InUse shell.jobs i j
          × ((k : ℕ) (l : Job) → InUse shell.jobs k l → k ≢ i → l.counter_value < j.counter_value))
  unfolding find_most_recently_added_job
  find_most_recently_added_job_lem =
      elim (find_recent-IsRecent 1 (drop 1 shell.jobs) 0 (negsuc 0)) [
        | inl (others, out) ↦ inl (
          (λ i j used.
              let low = NoneAbove-InUse 0 others i j used in
              let counted = v.counted i j used in absurd (omega arith)),
          out,
        )
        | inr (n, out, r) ↦
            let here : InUse shell.jobs (suc n) r.job =
              (sym (get_elem?-rest shell.jobs n) ∙ r.at.0, r.at.1) in
            inr (
              suc n,
              r.job,
              out ∙ ap pos (omega arith),
              here,
              λ k l used ne.
                  let le = NoneAbove-InUse r.job.counter_value r.greatest k l used in
                  lt_of_ne l.counter_value r.job.counter_value le
                    (λ same. ne (v.distinct k (suc n) l r.job used here same)),
            )
      ]
