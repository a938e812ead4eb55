-- ===== src/Wsh/Pipes.antt =====
-- Pipelines in p3/wsh.c: from `setup_pipes` to `process_pipe`, and the loop of `start_wsh`. A row of
-- `commands` is a list of arguments, `none` for NULL.
pub mod Split
pub mod Wire
pub mod Line
pub mod Keeps
use cs537_operating_system_u.Base.{
  ℕ, zero, suc, ◌+◌, ◌-◌, List, [], ◌∷◌, ◌++◌, Option, none, some, ◌==◌, if◌then◌else◌, ◌&&◌, ◌||◌,
  not, Bool, true, false, length, replicate, store, get_elem?,
}
use cs537_operating_system_u.Base.CString.{chars, strcmp_eq}
use cs537_operating_system_u.Wsh.Outcome.{Outcome, returns, exits, faults, ◌>>=◌}
use cs537_operating_system_u.Wsh.Jobs.{Spawn, Shell, Status, sigchld_handler}
use cs537_operating_system_u.Wsh.Run.{System, spawn, exec_cmd}
use cs537_operating_system_u.Wsh.Args.{cut, remove_newline_char}

-- A pipe: the descriptor to read from and the one to write to.
pub record Pipe : Type 0 where
  pub read_end : ℕ
  pub write_end : ℕ

-- The shell, the static `pipes` of `exec_pipe`, and the descriptors closed so far.
pub record Session : Type 0 where
  pub shell : Shell
  pub pipe0 : Pipe
  pub pipe1 : Pipe
  pub closed : List ℕ

-- What the system answers in round `i`: the pipe, `none` for -1, and whether `fork` gives a child. What
-- `malloc` left behind the array `commands`: the rows that its words lead to up to a NULL, `ends`, or up to
-- a word that leads nowhere.
pub record Plumbing : Type 0 where
  pub pipe : ℕ → Option Pipe
  pub forked : ℕ → Bool
  pub behind : List (List (Option (List ℕ)))
  pub ends : Bool

unfoldable pub setup_pipes : ℕ → Option Pipe → Session → Session
setup_pipes pipe_count none session = session
setup_pipes pipe_count (some p) session =
    if pipe_count == 0 then session else record session { pipe0 = p }

unfoldable pub reads_pipe : ℕ → ℕ → Bool
reads_pipe i pipe_count = i == pipe_count || not (i == 0)

unfoldable pub writes_pipe : ℕ → ℕ → Bool
writes_pipe i pipe_count = i == 0 || not (i == pipe_count)

-- The descriptors that the child has in place of its input and output.
unfoldable pub setup_io_redirection : ℕ → ℕ → Session → Option ℕ × Option ℕ
unfolding reads_pipe writes_pipe
setup_io_redirection i pipe_count session = (
  (if reads_pipe i pipe_count then some session.pipe1.read_end else none),
  (if writes_pipe i pipe_count then some session.pipe0.write_end else none),
)

unfoldable pub alternate_pipes : Session → Session
alternate_pipes session = record session { pipe0 = session.pipe1; pipe1 = session.pipe0 }

-- The array up to its NULL.
unfoldable pub argv_of : List (Option (List ℕ)) → Option (List (List ℕ))
argv_of [] = none
argv_of (none ∷ row) = some []
argv_of (some a ∷ row) = elim (argv_of row) [ none ↦ none | some args ↦ some (a ∷ args) ]

-- What the parent closes once `waitpid` is back.
unfoldable pub close_pipes : ℕ → ℕ → Session → Session
unfolding reads_pipe writes_pipe
close_pipes i pipe_count session = record session {
  closed =
      session.closed
      ++ (if reads_pipe i pipe_count then session.pipe1.read_end ∷ [] else [])
      ++ (if writes_pipe i pipe_count then session.pipe0.write_end ∷ [] else []);
}

-- The child; where `fork` fails there is none, and the parent goes on.
unfoldable pub start_command : Bool → ℕ → ℕ → List (List ℕ) → Session → Session
unfolding setup_io_redirection
start_command false i pipe_count args session = session
start_command true i pipe_count args session =
    let (input, output) = setup_io_redirection i pipe_count session in
    record session {
      shell =
          spawn session.shell
            (record { args = args; own_group = false; stdin = input; stdout = output });
    }

unfoldable pub exec_pipe : Plumbing → ℕ → ℕ → List (Option (List ℕ)) → Session → Outcome Session
unfolding setup_pipes start_command close_pipes alternate_pipes argv_of
exec_pipe plumbing i pipe_count command session = elim (argv_of command) [
  | none ↦ faults
  | some args ↦
      let ready = setup_pipes pipe_count (plumbing.pipe i) session in
      let started = start_command (plumbing.forked i) i pipe_count args ready in
      returns (alternate_pipes (close_pipes i pipe_count started))
]

unfoldable pub is_pipe : List ℕ → Bool
is_pipe arg = strcmp_eq arg (chars "|")

unfoldable pub count_pipes : List (List ℕ) → ℕ
count_pipes [] = 0
count_pipes (a ∷ args) = let rest = count_pipes args in if is_pipe a then suc rest else rest

-- `commands[i][j] = v`
unfoldable pub store_at :
    List (List (Option (List ℕ))) → ℕ → ℕ → Option (List ℕ) → Option (List (List (Option (List ℕ))))
store_at rows i j v = elim (get_elem? rows i) [
  | none ↦ none
  | some row ↦ elim (store row j v) [ none ↦ none | some row' ↦ store rows i row' ]
]

-- The loop of `split_into_commands` with `curr_pipe` and `curr_cmd_argc`.
unfoldable pub split_from :
    List (List ℕ) → List (List (Option (List ℕ))) → ℕ → ℕ → Option (List (List (Option (List ℕ))))
split_from [] rows curr_pipe curr_cmd_argc = some rows
split_from (a ∷ args) rows curr_pipe curr_cmd_argc = elim (is_pipe a) [
  | true ↦ elim (store_at rows curr_pipe curr_cmd_argc none) [
    | none ↦ none
    | some rows' ↦ split_from args rows' (curr_pipe + 1) 0
  ]
  | false ↦ elim (store_at rows curr_pipe curr_cmd_argc (some a)) [
    | none ↦ none
    | some rows' ↦ split_from args rows' curr_pipe (curr_cmd_argc + 1)
  ]
]

-- The rows as `malloc` and `calloc` give them, filled.
unfoldable pub split_into_commands : List (List ℕ) → Option (List (List (Option (List ℕ))))
split_into_commands args =
    split_from args (replicate (count_pipes args + 1) (replicate (length args + 1) none)) 0 0

-- The loop of `process_pipe` over `commands` and what is behind it, from row `i` on.
unfoldable pub exec_commands :
    Plumbing → ℕ → ℕ → List (List (Option (List ℕ))) → Session → Outcome Session
exec_commands plumbing i pipe_count [] session = if plumbing.ends then returns session else faults
exec_commands plumbing i pipe_count (row ∷ rows) session =
    exec_pipe plumbing i pipe_count row session >>= λ next.
    exec_commands plumbing (suc i) pipe_count rows next

-- `exec_cmd` leaves the pipes alone.
unfoldable pub exec_alone : System → List (List ℕ) → List ℕ → Session → Outcome Session
exec_alone system args line session =
    exec_cmd system session.shell args line >>= λ shell. returns (record session { shell = shell })

unfoldable pub process_pipe : System → Plumbing → List (List ℕ) → List ℕ → Session → Outcome Session
unfolding exec_alone
process_pipe system plumbing [] line session = returns session
process_pipe system plumbing (a ∷ []) line session = exec_alone system (a ∷ []) line session
process_pipe system plumbing (a ∷ b ∷ args) line session =
    let pipe_count = count_pipes (a ∷ b ∷ args) in
    if pipe_count == 0
    then exec_alone system (a ∷ b ∷ args) line session
    else elim (split_into_commands (a ∷ b ∷ args)) [
      | none ↦ faults
      | some commands ↦ exec_commands plumbing 0 pipe_count (commands ++ plumbing.behind) session
    ]

-- The arguments in the array that `cut` gives.
unfoldable pub process_args :
    System → Plumbing → Option (List (Option (List ℕ)) × ℕ) → List ℕ → Session → Outcome Session
unfolding argv_of process_pipe
process_args system plumbing none line session = faults
process_args system plumbing (some (array, num_args)) line session = elim (argv_of array) [
  | none ↦ faults
  | some args ↦ process_pipe system plumbing args line session
]

-- What `start_wsh` does with a line of its input.
unfoldable pub process_line : System → Plumbing → List ℕ → Session → Outcome Session
unfolding process_args
process_line system plumbing line session =
    if strcmp_eq line (10 ∷ []) then returns session else elim (remove_newline_char line) [
      | none ↦ faults
      | some text ↦ process_args system plumbing (cut text) text session
    ]

-- The handler of SIGCHLD on the shell of a session.
unfoldable pub handle_signals : List (ℕ × Status) → Session → Outcome Session
handle_signals children session =
    sigchld_handler session.shell children >>= λ shell. returns (record session { shell = shell })

-- The lines up to the end of the input, each with the children whose states the handler of SIGCHLD takes while the
-- shell waits for it, and with the system's answers while it is processed.
unfoldable pub start_wsh :
    List (List (ℕ × Status) × List ℕ × System × Plumbing) → Session → Outcome Session
unfolding process_line handle_signals
start_wsh [] session = returns session
start_wsh ((children, line, system, plumbing) ∷ lines) session =
    handle_signals children session >>= λ ready.
    process_line system plumbing line ready >>= λ next. start_wsh lines next
