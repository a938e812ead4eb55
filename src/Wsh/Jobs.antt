-- ===== src/Wsh/Jobs.antt =====
-- The job table of p3/wsh.c. A job's id is its index in `jobs`. Memory is taken to be there: `strdup`,
-- `malloc` and `calloc` succeed.
pub mod Table
pub mod Update
pub mod Add
use cs537_operating_system_u.Base.{
  ℕ, zero, suc, ◌+◌, List, [], ◌∷◌, ◌++◌, Option, none, some, ◌==◌, if◌then◌else◌, ltb, ◌&&◌, not,
  Bool, true, false, get_elem?, set, drop, replicate,
}
use cs537_operating_system_u.Base.Int.{ℤ, pos, negsuc}
use cs537_operating_system_u.Base.CString.{chars, decimal}
use cs537_operating_system_u.Wsh.Outcome.{Outcome, returns, exits, faults, ◌>>=◌}

abbrev pub max_job_count : ℕ
max_job_count = 256

-- `job_t`; `command` is `none` where it points to nothing that is allocated.
pub record Job : Type 0 where
  pub pid : ℕ
  pub command : Option (List ℕ)
  pub is_bg : Bool
  pub in_use : Bool
  pub counter_value : ℕ

-- A program that was started by `fork` and `execvp`: its arguments, whether it has a process group
-- of its own, and the descriptors that `dup2` puts in place of its input and output.
pub record Spawn : Type 0 where
  pub args : List (List ℕ)
  pub own_group : Bool
  pub stdin : Option ℕ
  pub stdout : Option ℕ

-- `jobs`, `counter` and `shellpid`, and what the system keeps for the shell: the terminal's
-- foreground group, the processes that got SIGCONT, the text on standard output, and, the last
-- first, the programs that were started and the paths given to `chdir`.
pub record Shell : Type 0 where
  pub jobs : List Job
  pub counter : ℕ
  pub shellpid : ℕ
  pub foreground : ℕ
  pub continued : List ℕ
  pub output : List ℕ
  pub spawned : List Spawn
  pub directories : List (List ℕ)

-- What `waitpid` says of a child.
pub data Status : Type 0 where
  ended : Status
  stopped : Status

-- The slot from index `i` on that is not in use.
unfoldable pub find_free : ℕ → List Job → Option ℕ
find_free i [] = none
find_free i (j ∷ js) = let rest = find_free (suc i) js in if j.in_use then rest else some i

-- The id, or -1, and the table with the slot marked.
unfoldable pub find_next_job_id : Shell → ℤ × Shell
find_next_job_id shell = elim (find_free 1 (drop 1 shell.jobs)) [
  | none ↦ (negsuc 0, shell)
  | some i ↦ elim (get_elem? shell.jobs i) [
    | none ↦ (negsuc 0, shell)
    | some j ↦ (pos i, record shell { jobs = set shell.jobs i (record j { in_use = true }) })
  ]
]

-- The loop of `find_most_recently_added_job` from index `i`, with what it has found so far.
unfoldable pub find_recent : ℕ → List Job → ℕ → ℤ → ℤ
find_recent i [] biggest_value most_recent_job_id = most_recent_job_id
find_recent i (j ∷ js) biggest_value most_recent_job_id =
    let newer = j.in_use && ltb biggest_value j.counter_value in
    find_recent (suc i) js (if newer then j.counter_value else biggest_value)
      (if newer then pos i else most_recent_job_id)

unfoldable pub find_most_recently_added_job : Shell → ℤ
find_most_recently_added_job shell = find_recent 1 (drop 1 shell.jobs) 0 (negsuc 0)

-- The slot's assignments in `add_job`; with the id -1 they are outside `jobs`.
unfoldable pub fill_job : Shell → ℤ → ℕ → List ℕ → Bool → Outcome Shell
fill_job shell (negsuc n) pid command is_bg = faults
fill_job shell (pos id) pid command is_bg = elim (get_elem? shell.jobs id) [
  | none ↦ faults
  | some j ↦ returns (record shell {
    jobs = set shell.jobs id (record j {
      pid = pid;
      is_bg = is_bg;
      command = some command;
      counter_value = shell.counter;
    });
    counter = shell.counter + 1;
  })
]

unfoldable pub add_job : Shell → ℕ → List ℕ → Bool → Outcome Shell
add_job shell pid command is_bg =
    let (new_job_id, marked) = find_next_job_id shell in
    fill_job marked new_job_id pid command is_bg

unfoldable pub remove_job : Shell → ℕ → Outcome Shell
remove_job shell id = elim (get_elem? shell.jobs id) [
  | none ↦ faults
  | some j ↦ returns (
      if j.in_use
      then record shell { jobs = set shell.jobs id (record j { command = none; in_use = false }) }
      else shell)
]

-- The first job in use with the pid, from index `i` on.
unfoldable pub find_pid : ℕ → List Job → ℕ → Option ℕ
find_pid i [] pid = none
find_pid i (j ∷ js) pid =
    let rest = find_pid (suc i) js pid in if j.in_use && j.pid == pid then some i else rest

-- `tcsetpgrp(STDIN_FILENO, group)`
abbrev pub tcsetpgrp : Shell → ℕ → Shell
tcsetpgrp shell group = record shell { foreground = group }

unfoldable pub handle_exit_or_signal : Shell → ℕ → Outcome Shell
handle_exit_or_signal shell pid = elim (find_pid 1 (drop 1 shell.jobs) pid) [
  | none ↦ returns shell
  | some i ↦ remove_job shell i >>= λ removed. returns (tcsetpgrp removed removed.shellpid)
]

unfoldable pub handle_stopped : Shell → ℕ → Shell
handle_stopped shell pid = elim (find_pid 1 (drop 1 shell.jobs) pid) [
  | none ↦ shell
  | some i ↦ tcsetpgrp shell shell.shellpid
]

abbrev pub handle_status : Shell → ℕ → Status → Outcome Shell
handle_status shell pid ended = handle_exit_or_signal shell pid
handle_status shell pid stopped = returns (handle_stopped shell pid)

-- The loop over what `waitpid(-1, …)` gives until there is no more.
unfoldable pub sigchld_handler : Shell → List (ℕ × Status) → Outcome Shell
sigchld_handler shell [] = returns shell
sigchld_handler shell ((pid, status) ∷ children) =
    handle_status shell pid status >>= λ shell'. sigchld_handler shell' children

-- `waitpid` gives the status.
unfoldable pub wait_for_job : Shell → ℕ → Status → Outcome Shell
wait_for_job shell id stopped = returns shell
wait_for_job shell id ended = remove_job shell id

-- The job of an id that is in range and in use.
unfoldable pub valid_job : Shell → ℤ → Option (ℕ × Job)
valid_job shell (negsuc n) = none
valid_job shell (pos id) = elim (get_elem? shell.jobs id) [
  | none ↦ none
  | some j ↦ if ltb id max_job_count && j.in_use then some (id, j) else none
]

-- `kill(jobs[id].pid, SIGCONT)`
abbrev pub resume_job : Shell → Job → Shell
resume_job shell j = record shell { continued = j.pid ∷ shell.continued }

unfoldable pub move_to_foreground : Shell → ℤ → Status → Outcome Shell
move_to_foreground shell id status = elim (valid_job shell id) [
  | none ↦ returns shell
  | some (i, j) ↦ wait_for_job (resume_job (tcsetpgrp shell j.pid) j) i status >>= λ waited.
      returns (tcsetpgrp waited waited.shellpid)
]

unfoldable pub move_to_background : Shell → ℤ → Shell
move_to_background shell id = elim (valid_job shell id) [
  | none ↦ shell
  | some (i, j) ↦ resume_job shell j
]

-- `printf("%d: %s%s\n", …)` of one job.
unfoldable pub job_line : ℕ → List ℕ → Bool → List ℕ
unfolding decimal
job_line i command is_bg =
    decimal i ++ (chars ": " ++ (command ++ ((if is_bg then chars " &" else []) ++ chars "\n")))

-- The text of the jobs in use from index `i` on; printing a command that is not there is a fault.
unfoldable pub jobs_text : ℕ → List Job → Outcome (List ℕ)
jobs_text i [] = returns []
jobs_text i (j ∷ js) =
    let rest = jobs_text (suc i) js in
    let printed : Outcome (List ℕ) = elim j.command [
      | none ↦ faults
      | some command ↦ rest >>= λ text. returns (job_line i command j.is_bg ++ text)
    ] in
    if j.in_use then printed else rest

unfoldable pub handle_jobs : Shell → Outcome Shell
handle_jobs shell =
    jobs_text 0 shell.jobs >>= λ text. returns (record shell { output = shell.output ++ text })

-- `main` before it reads commands: the table is zeroed.
unfoldable pub start_shell : ℕ → Shell
start_shell pid = record {
  jobs =
      replicate max_job_count
        (record { pid = 0; command = none; is_bg = false; in_use = false; counter_value = 0 });
  counter = 1;
  shellpid = pid;
  foreground = pid;
  continued = [];
  output = [];
  spawned = [];
  directories = [];
}
