-- ===== src/Wsh/Pipes/Keeps.antt =====
-- The shell that runs a whole input keeps its job table valid.
use cs537_operating_system_u.Base.{
  ℕ, suc, ◌≡◌, refl, List, [], ◌∷◌, ◌++◌, Option, none, some, ◌==◌, if◌then◌else◌, Bool, true,
  false, Bool-cases, Option-cases, inl, inr, sym,
}
use mathlib.Core.Path.{subst}
use cs537_operating_system_u.Base.CString.{strcmp_eq}
use cs537_operating_system_u.Wsh.Outcome.{Outcome, returns, exits, faults, ◌>>=◌}
use cs537_operating_system_u.Wsh.Jobs.{Shell, Status, sigchld_handler}
use cs537_operating_system_u.Wsh.Jobs.Table.{IsValid}
use cs537_operating_system_u.Wsh.Run.{System, exec_cmd}
use cs537_operating_system_u.Wsh.Run.Keeps.{sigchld_handler-Keeps}
use cs537_operating_system_u.Wsh.Run.Steps.{exec_cmd-Keeps, spawn-IsValid}
use cs537_operating_system_u.Wsh.Args.{cut, remove_newline_char}
use cs537_operating_system_u.Wsh.Pipes.{
  Pipe, Session, Plumbing, setup_pipes, alternate_pipes, argv_of, close_pipes, start_command,
  exec_pipe, count_pipes, split_into_commands, exec_commands, exec_alone, process_pipe,
  process_args, process_line, handle_signals, start_wsh,
}

abbrev Keeps : Outcome Session → Type 0
Keeps outcome = (session : Session) → outcome ≡ returns session → IsValid session.shell

Keeps-returns : (session : Session) → IsValid session.shell → Keeps (returns session)
Keeps-returns session v session' e =
    let same : session ≡ session' = cc in subst (λ s. IsValid s.shell) same v

Keeps-faults : Keeps faults
Keeps-faults session e = absurd (cc)

Keeps->>= :
    (m : Outcome Session) (f : Session → Outcome Session)
    → Keeps m
    → ((session : Session) → IsValid session.shell → Keeps (f session))
    → Keeps (m >>= f)
Keeps->>= (returns session) f km kf = kf session (km session refl)
Keeps->>= (exits status) f km kf = λ session e. absurd (cc)
Keeps->>= faults f km kf = λ session e. absurd (cc)

if-Keeps : (b : Bool) (x y : Outcome Session) → Keeps x → Keeps y → Keeps (if b then x else y)
if-Keeps true x y kx ky = kx
if-Keeps false x y kx ky = ky

start_command-IsValid :
    (forked : Bool) (i pipe_count : ℕ) (args : List (List ℕ)) (session : Session)
    → IsValid session.shell
    → IsValid (start_command forked i pipe_count args session).shell
unfolding start_command
start_command-IsValid false i pipe_count args session v = v
start_command-IsValid true i pipe_count args session v = spawn-IsValid session.shell _ v

setup_pipes-shell :
    (pipe_count : ℕ) (p : Option Pipe) (session : Session)
    → (setup_pipes pipe_count p session).shell ≡ session.shell
unfolding setup_pipes
setup_pipes-shell pipe_count none session = refl
setup_pipes-shell pipe_count (some p) session = elim (Bool-cases (pipe_count == 0)) [
  | inl no_pipe ↦ rw (no_pipe) refl
  | inr some_pipe ↦ rw (some_pipe) refl
]

exec_pipe-Keeps :
    (plumbing : Plumbing) (i pipe_count : ℕ) (command : List (Option (List ℕ))) (session : Session)
    → IsValid session.shell
    → Keeps (exec_pipe plumbing i pipe_count command session)
unfolding exec_pipe close_pipes alternate_pipes
exec_pipe-Keeps plumbing i pipe_count command session v = elim (Option-cases (argv_of command)) [
  | inl endless ↦ rw (exec_pipe, endless) Keeps-faults
  | inr (args, argv) ↦
      rw (exec_pipe, argv)
        (Keeps-returns _ (
          start_command-IsValid (plumbing.forked i) i pipe_count args _
            (subst IsValid (sym (setup_pipes-shell pipe_count (plumbing.pipe i) session)) v)))
]

exec_commands-Keeps :
    (plumbing : Plumbing) (i pipe_count : ℕ) (rows : List (List (Option (List ℕ))))
    (session : Session)
    → IsValid session.shell
    → Keeps (exec_commands plumbing i pipe_count rows session)
unfolding exec_commands
exec_commands-Keeps plumbing i pipe_count [] session v =
    if-Keeps plumbing.ends _ _ (Keeps-returns session v) Keeps-faults
exec_commands-Keeps plumbing i pipe_count (row ∷ rows) session v =
    Keeps->>= (exec_pipe plumbing i pipe_count row session) _
      (exec_pipe-Keeps plumbing i pipe_count row session v)
      (λ next v'. exec_commands-Keeps plumbing (suc i) pipe_count rows next v')

in_session-Keeps :
    (m : Outcome Shell) (session : Session)
    → ((shell : Shell) → m ≡ returns shell → IsValid shell)
    → Keeps (m >>= λ shell. returns (record session { shell = shell }))
in_session-Keeps (returns shell) session k = Keeps-returns _ (k shell refl)
in_session-Keeps (exits status) session k = λ s e. absurd (cc)
in_session-Keeps faults session k = λ s e. absurd (cc)

handle_signals-Keeps :
    (children : List (ℕ × Status)) (session : Session)
    → IsValid session.shell
    → Keeps (handle_signals children session)
unfolding handle_signals
handle_signals-Keeps children session v =
    in_session-Keeps (sigchld_handler session.shell children) session
      (sigchld_handler-Keeps session.shell children v)

exec_alone-Keeps :
    (system : System) (args : List (List ℕ)) (line : List ℕ) (session : Session)
    → IsValid session.shell
    → Keeps (exec_alone system args line session)
unfolding exec_alone
exec_alone-Keeps system args line session v =
    in_session-Keeps (exec_cmd system session.shell args line) session
      (exec_cmd-Keeps system session.shell args line v)

process_pipe-Keeps :
    (system : System) (plumbing : Plumbing) (args : List (List ℕ)) (line : List ℕ)
    (session : Session)
    → IsValid session.shell
    → Keeps (process_pipe system plumbing args line session)
unfolding process_pipe
process_pipe-Keeps system plumbing [] line session v = Keeps-returns session v
process_pipe-Keeps system plumbing (a ∷ []) line session v =
    exec_alone-Keeps system (a ∷ []) line session v
process_pipe-Keeps system plumbing (a ∷ b ∷ args) line session v =
    if-Keeps (count_pipes (a ∷ b ∷ args) == 0) _ _
      (exec_alone-Keeps system (a ∷ b ∷ args) line session v)
      (go (split_into_commands (a ∷ b ∷ args)))
  where
    go :
        (rows : Option (List (List (Option (List ℕ)))))
        → Keeps (elim rows [
          | none ↦ faults
          | some commands ↦
              exec_commands plumbing 0
                (count_pipes (a ∷ b ∷ args))
                (commands ++ plumbing.behind)
                session
        ])
    go none = Keeps-faults
    go (some rows) =
        exec_commands-Keeps plumbing 0 (count_pipes (a ∷ b ∷ args)) (rows ++ plumbing.behind)
          session v

process_args-Keeps :
    (system : System) (plumbing : Plumbing) (array : Option (List (Option (List ℕ)) × ℕ))
    (line : List ℕ) (session : Session)
    → IsValid session.shell
    → Keeps (process_args system plumbing array line session)
unfolding process_args
process_args-Keeps system plumbing none line session v = Keeps-faults
process_args-Keeps system plumbing (some (array, n)) line session v =
    elim (Option-cases (argv_of array)) [
      | inl endless ↦ rw (process_args, endless) Keeps-faults
      | inr (args, argv) ↦
          rw (process_args, argv) (process_pipe-Keeps system plumbing args line session v)
    ]

process_line-Keeps :
    (system : System) (plumbing : Plumbing) (line : List ℕ) (session : Session)
    → IsValid session.shell
    → Keeps (process_line system plumbing line session)
unfolding process_line
process_line-Keeps system plumbing line session v =
    if-Keeps (strcmp_eq line (10 ∷ [])) _ _ (Keeps-returns session v)
      (go (remove_newline_char line))
  where
    go :
        (text : Option (List ℕ))
        → Keeps
            (elim text [ none ↦ faults | some t ↦ process_args system plumbing (cut t) t session ])
    go none = Keeps-faults
    go (some t) = process_args-Keeps system plumbing (cut t) t session v

-- Whatever the lines are, whatever children the handler of SIGCHLD finds ended or stopped before each of
-- them, and whatever `fork`, `waitpid` and `pipe` answer while a line is processed: a shell that reaches
-- the end of its input has a valid job table, if it had one before. The handler runs before a line, never
-- within one.
pub start_wsh-IsValid :
    (lines : List (List (ℕ × Status) × List ℕ × System × Plumbing)) (session after : Session)
    → IsValid session.shell
    → start_wsh lines session ≡ returns after
    → IsValid after.shell
unfolding start_wsh
start_wsh-IsValid [] session after v e = Keeps-returns session v after e
start_wsh-IsValid ((children, line, system, plumbing) ∷ lines) session after v e =
    Keeps->>= (handle_signals children session) _ (handle_signals-Keeps children session v)
      (λ ready v'.
        Keeps->>= (process_line system plumbing line ready) _
          (process_line-Keeps system plumbing line ready v')
          (λ next v''. λ s e'. start_wsh-IsValid lines next s v'' e'))
      after e
