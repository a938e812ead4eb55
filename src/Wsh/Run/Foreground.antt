-- ===== src/Wsh/Run/Foreground.antt =====
-- A program in the foreground, from `fork` to the end of the wait.
use cs537_operating_system_u.Base.{
  ℕ, zero, suc, ◌≡◌, ◌≢◌, ◌↔◌, refl, ap, sym, ◌∙◌, List, [], ◌∷◌, none, some, arith, true, false,
  Option-cases, inl, inr, get_elem?, drop, ℕ_discrete,
}
use cs537_operating_system_u.Wsh.Outcome.{returns}
use cs537_operating_system_u.Wsh.Jobs.{Job, Shell, ended, find_pid, tcsetpgrp}
use cs537_operating_system_u.Wsh.Jobs.Table.{InUse, IsValid, All-get, find_pid-InUse}
use cs537_operating_system_u.Wsh.Jobs.Update.{same_jobs-IsValid, remove_job_lem}
use cs537_operating_system_u.Wsh.Jobs.Add.{Added, add_job_lem}
use cs537_operating_system_u.Wsh.Run.{run_foreground, remove_pid}

find_pid-none :
    (i : ℕ) (jobs : List Job) (pid : ℕ)
    → find_pid i jobs pid ≡ none
    → (k : ℕ) (l : Job) → InUse jobs k l
    → l.pid ≢ pid
unfolding find_pid
find_pid-none i [] pid h k l (at, used) same = absurd (cc)
find_pid-none i (j ∷ js) pid h zero l (at, used) same = ground arith
find_pid-none i (j ∷ js) pid h (suc k) l used same =
    find_pid-none (suc i) js pid (ground arith) k l used same

-- No job in use has the pid, which is the system's new one.
abbrev pub IsFresh : Shell → ℕ → Type 0
IsFresh shell pid = (k : ℕ) (l : Job) → InUse shell.jobs k l → l.pid ≢ pid

-- A slot behind 0 that is not in use.
abbrev pub HasRoom : Shell → Type 0
HasRoom shell =
    (k : ℕ) × (j : Job) × (get_elem? (drop 1 shell.jobs) k ≡ some j) × (j.in_use ≡ false)

module _ (shell : Shell) (pid : ℕ) (line : List ℕ) (fresh : IsFresh shell pid) where
  -- The job of the pid is the one that was added.
  remove_pid-Added :
      (added : Shell)
      → Added shell pid line false added
      → (shell' : Shell) × (remove_pid (tcsetpgrp added pid) pid ≡ returns shell')
        × IsValid shell'
        × ((k : ℕ) (l : Job) → InUse shell'.jobs k l ↔ InUse shell.jobs k l)
  unfolding remove_pid
  remove_pid-Added added a = elim (Option-cases (find_pid 0 added.jobs pid)) [
    | inl out ↦ absurd (find_pid-none 0 added.jobs pid out a.id a.job a.at a.job_eq.0)
    | inr (n, found) ↦
        let (m, l, e, at, same) = find_pid-InUse 0 added.jobs pid found in
        let m_is : m ≡ a.id = added_at added a m l at same in
        let n_is : n ≡ a.id = omega (arith, e, m_is) in
        let there : get_elem? added.jobs n ≡ some a.job = rw n_is a.at.0 in
        let (shell', removed, valid, backward, forward) =
          remove_job_lem (tcsetpgrp added pid) n a.job
            (same_jobs-IsValid added (tcsetpgrp added pid) refl refl a.valid) there in
        (
          shell',
          rw (found, remove_pid) removed,
          valid,
          λ k j. (
            (λ h.
                let (ne, old) = backward k j h in
                elsewhere added a k j (λ e'. ne (e' ∙ sym n_is)) old),
            (λ h.
                let ne = not_new added a k j h in
                forward k j (sym (rw (a.others k ne) (sym h.0)), h.1) (λ e'. ne (e' ∙ n_is))),
          ),
        )
  ]
    where
      elsewhere :
          (added : Shell)
          → (a : Added shell pid line false added) → (k : ℕ) (j : Job) → k ≢ a.id
          → InUse added.jobs k j
          → InUse shell.jobs k j
      elsewhere added a k j ne h = (sym (a.others k ne) ∙ h.0, h.1)

      added_at :
          (added : Shell)
          → (a : Added shell pid line false added) → (m : ℕ) (l : Job) → InUse added.jobs m l
          → l.pid ≡ pid
          → m ≡ a.id
      added_at added a m l at same = elim (ℕ_discrete m a.id) [
        | yes e ↦ e
        | no other ↦ absurd (fresh m l (elsewhere added a m l other at) same)
      ]

      not_new :
          (added : Shell)
          → (a : Added shell pid line false added) → (k : ℕ) (j : Job) → InUse shell.jobs k j
          → k ≢ a.id
      not_new added a k j h e = cc (a.was_free j (ap (get_elem? shell.jobs) (sym e) ∙ h.0), h.1)

  -- A program in the foreground that ends leaves the table as it was: the same jobs are in use, in the
  -- same slots, and the terminal is the shell's again.
  pub run_foreground-ended :
      IsValid shell
      → HasRoom shell
      → (shell' : Shell) × (run_foreground shell pid line ended ≡ returns shell')
        × IsValid shell'
        × (shell'.foreground ≡ shell'.shellpid)
        × ((k : ℕ) (l : Job) → InUse shell'.jobs k l ↔ InUse shell.jobs k l)
  unfolding run_foreground
  run_foreground-ended v (k, j, at, free) = elim (add_job_lem shell pid line false v) [
    | inl (full, _) ↦
        absurd (cc (All-get (λ (x : Job). x.in_use ≡ true) (drop 1 shell.jobs) k full at, free))
    | inr (added, e, a) ↦
        let (removed, e', valid, same) = remove_pid-Added added a in
        (
          tcsetpgrp removed removed.shellpid,
          rw (e, e'),
          same_jobs-IsValid removed (tcsetpgrp removed removed.shellpid) refl refl valid,
          refl,
          same,
        )
  ]
