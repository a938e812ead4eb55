-- ===== src/Wsh/Run/Keeps.antt =====
-- The calls of the shell keep the job table valid, where they return.
use cs537_operating_system_u.Base.{
  ℕ, ◌≡◌, refl, List, [], ◌∷◌, ◌++◌, none, ltb, Bool, false, Bool-cases, Option-cases, inl, inr,
  get_elem?, drop, length,
}
use mathlib.Core.Path.{subst}
use cs537_operating_system_u.Base.Int.{ℤ, negsuc}
use cs537_operating_system_u.Wsh.Outcome.{Outcome, returns, exits, faults, ◌>>=◌, >>=-eq-returns}
use cs537_operating_system_u.Wsh.Jobs.{
  Shell, Status, ended, stopped, add_job, remove_job, find_pid, tcsetpgrp, resume_job,
  handle_exit_or_signal, handle_stopped, handle_status, sigchld_handler, wait_for_job, valid_job,
  move_to_foreground, move_to_background, jobs_text, handle_jobs,
}
use cs537_operating_system_u.Wsh.Jobs.Table.{IsValid}
use cs537_operating_system_u.Wsh.Jobs.Update.{same_jobs-IsValid, remove_job_lem}
use cs537_operating_system_u.Wsh.Jobs.Add.{add_job_lem}
use cs537_operating_system_u.Wsh.Run.{handle_cd, handle_fg, handle_bg, run_foreground, remove_pid}

-- If the call returns, then with a valid table.
abbrev pub Keeps : Outcome Shell → Type 0
Keeps outcome = (shell : Shell) → outcome ≡ returns shell → IsValid shell

pub Keeps-returns : (shell : Shell) → IsValid shell → Keeps (returns shell)
Keeps-returns shell v shell' e = let same : shell ≡ shell' = cc in subst IsValid same v

Keeps->>= :
    (m : Outcome Shell) (f : Shell → Outcome Shell)
    → Keeps m
    → ((shell : Shell) → IsValid shell → Keeps (f shell))
    → Keeps (m >>= f)
Keeps->>= (returns shell) f km kf = kf shell (km shell refl)
Keeps->>= (exits status) f km kf = λ shell' e. absurd (cc)
Keeps->>= faults f km kf = λ shell' e. absurd (cc)

tcsetpgrp-IsValid : (shell : Shell) (group : ℕ) → IsValid shell → IsValid (tcsetpgrp shell group)
tcsetpgrp-IsValid shell group v = same_jobs-IsValid shell (tcsetpgrp shell group) refl refl v

remove_job-outside :
    (shell : Shell) (i : ℕ) → get_elem? shell.jobs i ≡ none → remove_job shell i ≡ faults
unfolding remove_job
remove_job-outside shell i out = rw (out, remove_job)

remove_job-Keeps : (shell : Shell) (i : ℕ) → IsValid shell → Keeps (remove_job shell i)
remove_job-Keeps shell i v = elim (Option-cases (get_elem? shell.jobs i)) [
  | inl out ↦ rw (remove_job-outside shell i out) (λ shell' e. absurd (cc))
  | inr (j, at) ↦
      let (shell', e, v', _, _) = remove_job_lem shell i j v at in rw e (Keeps-returns shell' v')
]

-- A call that ends in any other way keeps nothing, since it does not return.
pub exits-Keeps : (status : ℤ) → Keeps (exits status)
exits-Keeps status shell' e = absurd (cc)

pub add_job-Keeps :
    (shell : Shell) (pid : ℕ) (line : List ℕ) (is_bg : Bool)
    → IsValid shell
    → Keeps (add_job shell pid line is_bg)
add_job-Keeps shell pid line is_bg v = elim (add_job_lem shell pid line is_bg v) [
  | inl (full, e) ↦ rw e (λ shell' e. absurd (cc))
  | inr (shell', e, added) ↦ rw e (Keeps-returns shell' added.valid)
]

-- The removal of a job, and the terminal given back to the shell.
released-Keeps :
    (shell : Shell) (i : ℕ)
    → IsValid shell
    → Keeps (remove_job shell i >>= λ removed. returns (tcsetpgrp removed removed.shellpid))
released-Keeps shell i v =
    Keeps->>= (remove_job shell i) (λ removed. returns (tcsetpgrp removed removed.shellpid))
      (remove_job-Keeps shell i v)
      (λ removed v'.
        Keeps-returns (tcsetpgrp removed removed.shellpid)
          (tcsetpgrp-IsValid removed removed.shellpid v'))

handle_status-Keeps :
    (shell : Shell) (pid : ℕ) (status : Status)
    → IsValid shell
    → Keeps (handle_status shell pid status)
unfolding handle_exit_or_signal handle_stopped
handle_status-Keeps shell pid ended v = elim (Option-cases (find_pid 1 (drop 1 shell.jobs) pid)) [
  | inl out ↦ rw (out, handle_exit_or_signal) (Keeps-returns shell v)
  | inr (i, found) ↦ rw (found, handle_exit_or_signal) (released-Keeps shell i v)
]
handle_status-Keeps shell pid stopped v = elim (Option-cases (find_pid 1 (drop 1 shell.jobs) pid)) [
  | inl out ↦ rw (out, handle_stopped) (Keeps-returns shell v)
  | inr (i, found) ↦
      rw (found, handle_stopped)
        (Keeps-returns (tcsetpgrp shell shell.shellpid) (tcsetpgrp-IsValid shell shell.shellpid v))
]

pub sigchld_handler-Keeps :
    (shell : Shell) (children : List (ℕ × Status))
    → IsValid shell
    → Keeps (sigchld_handler shell children)
unfolding sigchld_handler
sigchld_handler-Keeps shell [] v = Keeps-returns shell v
sigchld_handler-Keeps shell ((pid, status) ∷ children) v =
    Keeps->>= (handle_status shell pid status) (λ shell'. sigchld_handler shell' children)
      (handle_status-Keeps shell pid status v)
      (λ shell' v'. sigchld_handler-Keeps shell' children v')

wait_for_job-Keeps :
    (shell : Shell) (i : ℕ) (status : Status) → IsValid shell → Keeps (wait_for_job shell i status)
unfolding wait_for_job
wait_for_job-Keeps shell i ended v = remove_job-Keeps shell i v
wait_for_job-Keeps shell i stopped v = Keeps-returns shell v

move_to_foreground-Keeps :
    (shell : Shell) (id : ℤ) (status : Status)
    → IsValid shell
    → Keeps (move_to_foreground shell id status)
unfolding move_to_foreground
move_to_foreground-Keeps shell id status v = elim (Option-cases (valid_job shell id)) [
  | inl out ↦ rw (out, move_to_foreground) (Keeps-returns shell v)
  | inr ((i, j), found) ↦
      let running = resume_job (tcsetpgrp shell j.pid) j in
      rw (found, move_to_foreground)
        (Keeps->>= (wait_for_job running i status)
          (λ waited. returns (tcsetpgrp waited waited.shellpid))
          (wait_for_job-Keeps running i status (same_jobs-IsValid shell running refl refl v))
          (λ waited v'.
            Keeps-returns (tcsetpgrp waited waited.shellpid)
              (tcsetpgrp-IsValid waited waited.shellpid v')))
]

move_to_background-IsValid :
    (shell : Shell) (id : ℤ) → IsValid shell → IsValid (move_to_background shell id)
unfolding move_to_background
move_to_background-IsValid shell id v = elim (Option-cases (valid_job shell id)) [
  | inl out ↦ rw (out, move_to_background) v
  | inr ((i, j), found) ↦
      rw (found, move_to_background) (same_jobs-IsValid shell (resume_job shell j) refl refl v)
]

pub handle_jobs-Keeps : (shell : Shell) → IsValid shell → Keeps (handle_jobs shell)
unfolding handle_jobs
handle_jobs-Keeps shell v shell' e =
    let (text, _, e') = >>=-eq-returns (jobs_text 0 shell.jobs) _ e in
    let same : record shell { output = shell.output ++ text } ≡ shell' = cc in
    subst IsValid same
      (same_jobs-IsValid shell (record shell { output = shell.output ++ text }) refl refl v)

pub handle_fg-Keeps :
    (shell : Shell) (args : List (List ℕ)) (status : Status)
    → IsValid shell
    → Keeps (handle_fg shell args status)
unfolding handle_fg
handle_fg-Keeps shell args status v = elim (Bool-cases (ltb 2 (length args))) [
  | inl many ↦ rw many (exits-Keeps (negsuc 0))
  | inr few ↦ rw few (move_to_foreground-Keeps shell _ status v)
]

pub handle_bg-Keeps :
    (shell : Shell) (args : List (List ℕ)) → IsValid shell → Keeps (handle_bg shell args)
unfolding handle_bg
handle_bg-Keeps shell args v = elim (Bool-cases (ltb 2 (length args))) [
  | inl many ↦ rw many (exits-Keeps (negsuc 0))
  | inr few ↦
      rw few (Keeps-returns (move_to_background shell _) (move_to_background-IsValid shell _ v))
]

pub handle_cd-IsValid :
    (shell : Shell) (args : List (List ℕ)) → IsValid shell → IsValid (handle_cd shell args)
unfolding handle_cd
handle_cd-IsValid shell [] v = v
handle_cd-IsValid shell (cmd ∷ []) v = v
handle_cd-IsValid shell (cmd ∷ path ∷ []) v =
    same_jobs-IsValid shell (record shell { directories = path ∷ shell.directories }) refl refl v
handle_cd-IsValid shell (cmd ∷ path ∷ more ∷ args) v = v

remove_pid-Keeps : (shell : Shell) (pid : ℕ) → IsValid shell → Keeps (remove_pid shell pid)
unfolding remove_pid
remove_pid-Keeps shell pid v = elim (Option-cases (find_pid 0 shell.jobs pid)) [
  | inl out ↦ rw (out, remove_pid) (Keeps-returns shell v)
  | inr (i, found) ↦ rw (found, remove_pid) (remove_job-Keeps shell i v)
]

waited-Keeps :
    (waiting : Shell) (pid : ℕ)
    → IsValid waiting
    → Keeps (remove_pid waiting pid >>= λ removed. returns (tcsetpgrp removed removed.shellpid))
waited-Keeps waiting pid v =
    Keeps->>= (remove_pid waiting pid) (λ removed. returns (tcsetpgrp removed removed.shellpid))
      (remove_pid-Keeps waiting pid v)
      (λ removed v'.
        Keeps-returns (tcsetpgrp removed removed.shellpid)
          (tcsetpgrp-IsValid removed removed.shellpid v'))

pub run_foreground-Keeps :
    (shell : Shell) (pid : ℕ) (line : List ℕ) (status : Status)
    → IsValid shell
    → Keeps (run_foreground shell pid line status)
unfolding run_foreground
run_foreground-Keeps shell pid line ended v =
    Keeps->>= (add_job shell pid line false) _ (add_job-Keeps shell pid line false v)
      (λ added v'. waited-Keeps (tcsetpgrp added pid) pid (tcsetpgrp-IsValid added pid v'))
run_foreground-Keeps shell pid line stopped v =
    Keeps->>= (add_job shell pid line false) _ (add_job-Keeps shell pid line false v) (λ added v'.
      Keeps-returns (tcsetpgrp (tcsetpgrp added pid) added.shellpid)
        (tcsetpgrp-IsValid (tcsetpgrp added pid) added.shellpid (tcsetpgrp-IsValid added pid v')))
