-- ===== src/Wsh/Run/Steps.antt =====
-- Whatever the shell is told to do, and whenever its children end, its job table stays valid.
use cs537_operating_system_u.Base.{
  ℕ, zero, suc, ◌≡◌, refl, List, [], ◌∷◌, none, some, arith, if◌then◌else◌, Bool, true, false,
  Option-cases, inl, inr, get_elem?, length, replicate, length-replicate,
}
use cs537_operating_system_u.Base.Int.{pos}
use cs537_operating_system_u.Base.CString.{chars, strcmp_eq}
use cs537_operating_system_u.Wsh.Outcome.{Outcome, returns}
use cs537_operating_system_u.Wsh.Jobs.{
  Job, Spawn, Shell, Status, max_job_count, sigchld_handler, start_shell,
}
use cs537_operating_system_u.Wsh.Jobs.Table.{IsValid}
use cs537_operating_system_u.Wsh.Jobs.Update.{same_jobs-IsValid}
use cs537_operating_system_u.Wsh.Run.{
  System, spawn, is_background, without_last, handle_exit, run_program, exec_cmd,
}
use cs537_operating_system_u.Wsh.Run.Keeps.{
  Keeps, Keeps-returns, exits-Keeps, add_job-Keeps, sigchld_handler-Keeps, handle_jobs-Keeps,
  handle_fg-Keeps, handle_bg-Keeps, handle_cd-IsValid, run_foreground-Keeps,
}

if-Keeps : (b : Bool) (x y : Outcome Shell) → Keeps x → Keeps y → Keeps (if b then x else y)
if-Keeps true x y kx ky = kx
if-Keeps false x y kx ky = ky

pub spawn-IsValid : (shell : Shell) (child : Spawn) → IsValid shell → IsValid (spawn shell child)
spawn-IsValid shell child v = same_jobs-IsValid shell (spawn shell child) refl refl v

run_program-Keeps :
    (system : System) (shell : Shell) (args : List (List ℕ)) (line : List ℕ)
    → IsValid shell
    → Keeps (run_program system shell args line)
unfolding run_program
run_program-Keeps system shell args line v = elim (Option-cases system.forked) [
  | inl failed ↦ rw (failed, run_program) (exits-Keeps (pos 1))
  | inr (pid, forked) ↦
      rw (forked, run_program)
        (if-Keeps (is_background args) _ _
          (add_job-Keeps _ pid line true (
            spawn-IsValid shell
              (record { args = without_last args; own_group = false; stdin = none; stdout = none })
              v))
          (run_foreground-Keeps _ pid line system.status (
            spawn-IsValid shell
              (record { args = args; own_group = true; stdin = none; stdout = none }) v)))
]

handle_exit-Keeps : (argc : ℕ) → Keeps (handle_exit argc)
unfolding handle_exit
handle_exit-Keeps argc = exits-Keeps _

pub exec_cmd-Keeps :
    (system : System) (shell : Shell) (args : List (List ℕ)) (line : List ℕ)
    → IsValid shell
    → Keeps (exec_cmd system shell args line)
unfolding exec_cmd
exec_cmd-Keeps system shell [] line v = Keeps-returns shell v
exec_cmd-Keeps system shell (cmd ∷ args) line v =
    if-Keeps (strcmp_eq cmd (chars "exit")) _ _ (handle_exit-Keeps (length (cmd ∷ args))) (
      if-Keeps (strcmp_eq cmd (chars "cd")) _ _
        (Keeps-returns _ (handle_cd-IsValid shell (cmd ∷ args) v))
        (if-Keeps (strcmp_eq cmd (chars "fg")) _ _
          (handle_fg-Keeps shell (cmd ∷ args) system.status v)
          (if-Keeps (strcmp_eq cmd (chars "bg")) _ _ (handle_bg-Keeps shell (cmd ∷ args) v) (
            if-Keeps (strcmp_eq cmd (chars "jobs")) _ _ (handle_jobs-Keeps shell v)
              (run_program-Keeps system shell (cmd ∷ args) line v)))))

-- One step of the shell: a command, or the signal that children have ended or stopped.
pub data Step (shell shell' : Shell) : Type 0 where
  runs :
      (system : System) (args : List (List ℕ)) (line : List ℕ)
      → exec_cmd system shell args line ≡ returns shell'
      → Step shell shell'
  signals :
      (children : List (ℕ × Status))
      → sigchld_handler shell children ≡ returns shell'
      → Step shell shell'

pub data Reach (shell : Shell) : Shell → Type 0 where
  here : Reach shell shell
  next : {shell' shell'' : Shell} → Reach shell shell' → Step shell' shell'' → Reach shell shell''

Step-IsValid : (shell shell' : Shell) → Step shell shell' → IsValid shell → IsValid shell'
Step-IsValid shell shell' (runs system args line e) v =
    exec_cmd-Keeps system shell args line v shell' e
Step-IsValid shell shell' (signals children e) v = sigchld_handler-Keeps shell children v shell' e

abbrev blank : Job
blank = record { pid = 0; command = none; is_bg = false; in_use = false; counter_value = 0 }

blank-unused : (n i : ℕ) (j : Job) → get_elem? (replicate n blank) i ≡ some j → j.in_use ≡ false
blank-unused zero i j e = absurd (cc)
blank-unused (suc n) zero j e = ground arith
blank-unused (suc n) (suc i) j e = blank-unused n i j e

pub start_shell-IsValid : (pid : ℕ) → IsValid (start_shell pid)
unfolding start_shell
start_shell-IsValid pid = record {
  size = length-replicate max_job_count blank;
  started = omega arith;
  first_unused = λ j e. blank-unused max_job_count 0 j e;
  counted = λ i j used. absurd (cc (blank-unused max_job_count i j used.0, used.1));
  distinct = λ i k j l used used' same. absurd (cc (blank-unused max_job_count i j used.0, used.1));
  has_command = λ i j used. absurd (cc (blank-unused max_job_count i j used.0, used.1));
}

-- From the start of the shell on, every sequence of commands that return and of calls of the handler of
-- SIGCHLD between them keeps the table valid.
pub start_shell-Reach-IsValid :
    (pid : ℕ) {shell : Shell} → Reach (start_shell pid) shell → IsValid shell
start_shell-Reach-IsValid pid here = start_shell-IsValid pid
start_shell-Reach-IsValid pid (next {shell'} {shell''} r s) =
    Step-IsValid shell' shell'' s (start_shell-Reach-IsValid pid r)
