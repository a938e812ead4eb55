-- ===== src/Wsh/Tests.antt =====
-- Runs of the shell: a few commands and a pipeline.
use cs537_operating_system_u.Base.{
  ℕ, suc, ◌+◌, ◌≤◌, ◌≡◌, ◌⊎◌, ◌↔◌, refl, arith, List, [], ◌∷◌, ◌++◌, none, some, true, false, All,
  drop, set, length, map,
}
use cs537_operating_system_u.Base.CString.{chars, strtok_all}
use cs537_operating_system_u.Wsh.Outcome.{returns, faults}
use cs537_operating_system_u.Wsh.Jobs.{
  Job, Shell, Status, ended, sigchld_handler, handle_exit_or_signal, find_pid, remove_job, add_job,
  fill_job, find_next_job_id, find_free, start_shell,
}
use cs537_operating_system_u.Wsh.Jobs.Table.{InUse, IsValid}
use cs537_operating_system_u.Wsh.Jobs.Add.{Added, add_job_lem}
use cs537_operating_system_u.Wsh.Run.{
  System, exec_cmd, run_foreground, run_program, is_background, without_last,
}
use cs537_operating_system_u.Wsh.Run.Steps.{
  here, next, runs, signals, start_shell-IsValid, start_shell-Reach-IsValid,
}
use cs537_operating_system_u.Wsh.Run.Foreground.{IsFresh, HasRoom, run_foreground-ended}
use cs537_operating_system_u.Wsh.Args.{
  is_blank, tokens, count_args, store_args, cut, remove_newline_char,
}
use cs537_operating_system_u.Wsh.Args.Cut.{without, joined, IsToken, cut_lem}
use cs537_operating_system_u.Wsh.Pipes.{
  Pipe, Session, Plumbing, is_pipe, count_pipes, split_into_commands, process_pipe, process_args,
  exec_alone, process_line, handle_signals, start_wsh,
}
use cs537_operating_system_u.Wsh.Pipes.Split.{row_of, joined_by_pipes, split_into_commands_lem}
use cs537_operating_system_u.Wsh.Pipes.Keeps.{start_wsh-IsValid}

abbrev system : System
system = record { forked = some 40; status = ended }

abbrev pipes : ℕ → Pipe
pipes i = record { read_end = 3 + (i + i); write_end = 4 + (i + i) }

abbrev plumbing : Plumbing
plumbing = record { pipe = λ i. some (pipes i); forked = λ i. true; behind = []; ends = true }

abbrev shell : Shell
shell = start_shell 10

abbrev no_pipe : Pipe
no_pipe = record { read_end = 0; write_end = 0 }

abbrev session : Session
session = record { shell = shell; pipe0 = no_pipe; pipe1 = no_pipe; closed = [] }

abbrev args : List (List ℕ)
args = chars "wc" ∷ chars "-l" ∷ []

abbrev piped : List (List ℕ)
piped = chars "|" ∷ args

split_into_commands_lem_example :
    (commands : List (List (List ℕ))) × (split_into_commands (chars "ls" ∷ piped)
      ≡ some (map (row_of 5) commands))
    × (length commands ≡ suc (count_pipes (chars "ls" ∷ piped)))
    × All (λ c. length c ≤ 4) commands
    × All (λ c. All (λ a. is_pipe a ≡ false) c) commands
    × (joined_by_pipes commands ≡ chars "ls" ∷ piped)
split_into_commands_lem_example = split_into_commands_lem (chars "ls" ∷ piped)

abbrev text : List ℕ
text = chars " ls  -l"

cut_lem_example :
    (words : List (List ℕ)) × (cut text ≡ some (map some words ++ none ∷ [], length words))
    × (joined words ≡ without is_blank text)
    × All (IsToken is_blank) words
cut_lem_example = cut_lem text

abbrev sleep_line : List ℕ
sleep_line = chars "sleep 9 &"

abbrev one_job : Shell
one_job = record shell {
  jobs = set shell.jobs 1 (record {
    pid = 40;
    command = some sleep_line;
    is_bg = true;
    in_use = true;
    counter_value = 1;
  });
  counter = 2;
  spawned =
      record {
        args = chars "sleep" ∷ chars "9" ∷ [];
        own_group = false;
        stdin = none;
        stdout = none;
      }
      ∷ [];
}

exec_cmd_test :
    exec_cmd system shell (chars "sleep" ∷ chars "9" ∷ chars "&" ∷ []) sleep_line ≡ returns one_job
unfolding exec_cmd run_program add_job is_background fill_job find_next_job_id find_free start_shell
    without_last
exec_cmd_test = refl

-- The child 40 ends while the shell waits for the second line.
abbrev lines : List (List (ℕ × Status) × List ℕ × System × Plumbing)
lines =
    ([], sleep_line ++ 10 ∷ [], system, plumbing)
    ∷ ((40, ended) ∷ [], 10 ∷ [], system, plumbing)
    ∷ []

abbrev no_job : Shell
no_job = record one_job {
  jobs =
      set one_job.jobs 1
        (record { pid = 40; command = none; is_bg = true; in_use = false; counter_value = 1 });
  foreground = 10;
}

one_job-IsValid : IsValid one_job
one_job-IsValid =
    start_shell-Reach-IsValid 10 (
      next here (runs system (chars "sleep" ∷ chars "9" ∷ chars "&" ∷ []) sleep_line exec_cmd_test))

sigchld_handler_test : sigchld_handler one_job ((40, ended) ∷ []) ≡ returns no_job
unfolding sigchld_handler handle_exit_or_signal find_pid remove_job start_shell
sigchld_handler_test = refl

start_shell-Reach-IsValid_example : IsValid no_job
start_shell-Reach-IsValid_example = start_shell-Reach-IsValid 10 (
    next
      (next here
        (runs system (chars "sleep" ∷ chars "9" ∷ chars "&" ∷ []) sleep_line exec_cmd_test))
      (signals ((40, ended) ∷ []) sigchld_handler_test))

start_wsh_test : start_wsh lines session ≡ returns (record session { shell = no_job })
unfolding start_wsh handle_signals sigchld_handler handle_exit_or_signal find_pid remove_job
    exec_alone exec_cmd run_program add_job process_line process_args process_pipe cut
    remove_newline_char store_args tokens strtok_all count_args count_pipes is_pipe is_background
    fill_job find_next_job_id find_free start_shell without_last
start_wsh_test = refl

start_wsh-IsValid_example : IsValid no_job
start_wsh-IsValid_example =
    start_wsh-IsValid lines session (record session { shell = no_job }) (start_shell-IsValid 10)
      start_wsh_test

shell-IsFresh : IsFresh shell 40
unfolding start_shell
shell-IsFresh k l used =
    let counted = (start_shell-IsValid 10).counted k l used in
    let first : shell.counter ≡ 1 = refl in absurd (omega (arith, counted, first))

abbrev unused : Job
unused = record { pid = 0; command = none; is_bg = false; in_use = false; counter_value = 0 }

shell-HasRoom : HasRoom shell
unfolding start_shell
shell-HasRoom = (0, unused, refl, refl)

run_foreground-ended_example :
    (shell' : Shell) × (run_foreground shell 40 text ended ≡ returns shell')
    × IsValid shell'
    × (shell'.foreground ≡ shell'.shellpid)
    × ((k : ℕ) (l : Job) → InUse shell'.jobs k l ↔ InUse shell.jobs k l)
run_foreground-ended_example =
    run_foreground-ended shell 40 text shell-IsFresh (start_shell-IsValid 10) shell-HasRoom

add_job_lem_example :
    (All (λ j. j.in_use ≡ true) (drop 1 one_job.jobs) × (add_job one_job 41 text true ≡ faults))
    ⊎ ((shell' : Shell) × (add_job one_job 41 text true ≡ returns shell')
        × Added one_job 41 text true shell')
add_job_lem_example = add_job_lem one_job 41 text true one_job-IsValid
