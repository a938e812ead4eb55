-- ===== src/Wsh/Run.antt =====
-- `exec_cmd` of p3/wsh.c with the commands that the shell has itself, from the shell's own process: the
-- child of `fork` is what it leaves in `spawned`. SIGCHLD is handled before or after a command.
pub mod Keeps
pub mod Steps
pub mod Foreground
use cs537_operating_system_u.Base.{
  ℕ, zero, suc, ◌+◌, List, [], ◌∷◌, ◌++◌, Option, none, some, ◌==◌, if◌then◌else◌, ltb, Bool, true,
  false, length,
}
use cs537_operating_system_u.Base.Int.{ℤ, pos, negsuc}
use cs537_operating_system_u.Base.CString.{chars, strcmp_eq, atoi}
use cs537_operating_system_u.Wsh.Outcome.{Outcome, returns, exits, faults, ◌>>=◌}
use cs537_operating_system_u.Wsh.Jobs.{
  max_job_count, Spawn, Shell, Status, ended, stopped, find_most_recently_added_job, add_job,
  remove_job, find_pid, tcsetpgrp, move_to_foreground, move_to_background, handle_jobs,
}

-- What the system answers while a command runs: the pid that `fork` gives the parent, `none` for -1,
-- and what `waitpid` says of the child.
pub record System : Type 0 where
  pub forked : Option ℕ
  pub status : Status

unfoldable pub handle_exit : ℕ → Outcome Shell
handle_exit argc = exits (if argc == 1 then pos 0 else negsuc 0)

unfoldable pub handle_cd : Shell → List (List ℕ) → Shell
handle_cd shell (cmd ∷ path ∷ []) = record shell { directories = path ∷ shell.directories }
handle_cd shell args = shell

-- The id in `args[1]`, or what stands for it where there is none.
unfoldable pub job_id : List (List ℕ) → ℤ → ℤ
job_id (cmd ∷ id ∷ args) other = atoi id
job_id args other = other

unfoldable pub handle_fg : Shell → List (List ℕ) → Status → Outcome Shell
unfolding job_id
handle_fg shell args status =
    if ltb 2 (length args)
    then exits (negsuc 0)
    else move_to_foreground shell (job_id args (find_most_recently_added_job shell)) status

unfoldable pub handle_bg : Shell → List (List ℕ) → Outcome Shell
unfolding job_id
handle_bg shell args =
    if ltb 2 (length args)
    then exits (negsuc 0)
    else returns (move_to_background shell (job_id args (pos 255)))

-- `s_args[s_argc - 1][0] == '&'`
unfoldable pub is_background : List (List ℕ) → Bool
is_background [] = false
is_background ([] ∷ []) = false
is_background ((c ∷ cs) ∷ []) = c == b'&'
is_background (a ∷ b ∷ args) = is_background (b ∷ args)

-- The arguments in front of the last one.
unfoldable pub without_last : List (List ℕ) → List (List ℕ)
without_last [] = []
without_last (a ∷ []) = []
without_last (a ∷ b ∷ args) = a ∷ without_last (b ∷ args)

abbrev pub spawn : Shell → Spawn → Shell
spawn shell child = record shell { spawned = child ∷ shell.spawned }

-- The loop over `jobs` behind `waitpid`, from index 0 on.
unfoldable pub remove_pid : Shell → ℕ → Outcome Shell
remove_pid shell pid = elim (find_pid 0 shell.jobs pid) [
  | none ↦ returns shell
  | some i ↦ remove_job shell i
]

-- What the parent does once the child runs in the foreground.
unfoldable pub run_foreground : Shell → ℕ → List ℕ → Status → Outcome Shell
run_foreground shell pid line status = add_job shell pid line false >>= λ added.
    let waiting = tcsetpgrp added pid in
    elim status [
      | stopped ↦ returns (tcsetpgrp waiting waiting.shellpid)
      | ended ↦ remove_pid waiting pid >>= λ removed. returns (tcsetpgrp removed removed.shellpid)
    ]

unfoldable pub run_program : System → Shell → List (List ℕ) → List ℕ → Outcome Shell
run_program system shell args line = elim system.forked [
  | none ↦ exits (pos 1)
  | some pid ↦
      if is_background args
      then add_job
          (spawn shell
            (record { args = without_last args; own_group = false; stdin = none; stdout = none }))
          pid line true
      else run_foreground
          (spawn shell (record { args = args; own_group = true; stdin = none; stdout = none })) pid
          line system.status
]

unfoldable pub exec_cmd : System → Shell → List (List ℕ) → List ℕ → Outcome Shell
exec_cmd system shell [] line = returns shell
exec_cmd system shell (cmd ∷ args) line =
    if strcmp_eq cmd (chars "exit")
    then handle_exit (length (cmd ∷ args))
    else if strcmp_eq cmd (chars "cd")
    then returns (handle_cd shell (cmd ∷ args))
    else if strcmp_eq cmd (chars "fg")
    then handle_fg shell (cmd ∷ args) system.status
    else if strcmp_eq cmd (chars "bg")
    then handle_bg shell (cmd ∷ args)
    else if strcmp_eq cmd (chars "jobs")
    then handle_jobs shell
    else run_program system shell (cmd ∷ args) line
