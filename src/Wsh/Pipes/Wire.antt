-- ===== src/Wsh/Pipes/Wire.antt =====
-- How the commands of a pipeline are connected.
use cs537_operating_system_u.Base.{
  ℕ, zero, suc, ◌+◌, ◌-◌, ◌<◌, ◌≡◌, refl, ap, sym, ◌∙◌, List, [], ◌∷◌, ◌++◌, Option, none, some,
  arith, ◌==◌, suc-==-zero, if◌then◌else◌, not, Bool, true, false, All, map, reverse, length,
  replicate, append_assoc,
}
use mathlib.Core.List.{reverse-cons}
use cs537_operating_system_u.Wsh.Outcome.{returns}
use cs537_operating_system_u.Wsh.Jobs.{Spawn}
use cs537_operating_system_u.Wsh.Run.{spawn}
use cs537_operating_system_u.Wsh.Pipes.{
  Pipe, Session, Plumbing, setup_pipes, reads_pipe, writes_pipe, alternate_pipes, argv_of,
  exec_pipe, exec_commands,
}
use cs537_operating_system_u.Wsh.Pipes.Split.{row_of}

-- The programs of a pipeline, the first reading `input`: each writes to its own pipe, which the next
-- one reads, and the last writes where the shell does.
unfoldable pub wired : (ℕ → Pipe) → ℕ → Option ℕ → List (List (List ℕ)) → List Spawn
wired pipes i input [] = []
wired pipes i input (c ∷ []) =
    record { args = c; own_group = false; stdin = input; stdout = none } ∷ []
wired pipes i input (c ∷ d ∷ cs) =
    record { args = c; own_group = false; stdin = input; stdout = some (pipes i).write_end }
    ∷ wired pipes (suc i) (some (pipes i).read_end) (d ∷ cs)

-- Both ends of `n` pipes from number `i` on, the end to write to first.
unfoldable pub ends_of : (ℕ → Pipe) → ℕ → ℕ → List ℕ
ends_of pipes i zero = []
ends_of pipes i (suc n) = (pipes i).write_end ∷ (pipes i).read_end ∷ ends_of pipes (suc i) n

pub argv_of-append :
    (args : List (List ℕ)) (n : ℕ) → argv_of (map some args ++ replicate (suc n) none) ≡ some args
unfolding argv_of
argv_of-append [] n = refl
argv_of-append (a ∷ args) n = rw (argv_of-append args n) refl

pub argv_of-row_of :
    (args : List (List ℕ)) (width : ℕ)
    → length args < width
    → argv_of (row_of width args) ≡ some args
unfolding row_of
argv_of-row_of args width h =
    let left : width - length args ≡ suc (width - length args - 1) = omega arith in
    rw (row_of, left) (argv_of-append args (width - length args - 1))

abbrev ends_in : Option ℕ → List ℕ
ends_in none = []
ends_in (some d) = d ∷ []

abbrev input_of : ℕ → Session → Option ℕ
input_of i session = if i == 0 then none else some session.pipe1.read_end

abbrev output_of : ℕ → ℕ → Pipe → Option ℕ
output_of i pipe_count p = if i == pipe_count then none else some p.write_end

reads_pipe_lem : (i pipe_count : ℕ) → 0 < pipe_count → reads_pipe i pipe_count ≡ not (i == 0)
unfolding reads_pipe
reads_pipe_lem i pipe_count h = ground arith

writes_pipe_lem :
    (i pipe_count : ℕ) → 0 < pipe_count → writes_pipe i pipe_count ≡ not (i == pipe_count)
unfolding writes_pipe
writes_pipe_lem i pipe_count h = ground arith

if_not {ℓ} : {A : Type ℓ} (b : Bool) (x y : A) → (if not b then x else y) ≡ (if b then y else x)
if_not true x y = refl
if_not false x y = refl

ends_in-if : (b : Bool) (d : ℕ) → (if b then [] else d ∷ []) ≡ ends_in (if b then none else some d)
ends_in-if true d = refl
ends_in-if false d = refl

reverse-onto {ℓ} :
    {A : Type ℓ} (x : A) (xs ys : List A) → reverse xs ++ x ∷ ys ≡ reverse (x ∷ xs) ++ ys
reverse-onto x xs ys =
    sym (append_assoc (reverse xs) (x ∷ []) ys) ∙ ap (λ l. l ++ ys) (sym (reverse-cons x xs))

-- The session that a round leaves.
abbrev round_of : ℕ → ℕ → Pipe → List (List ℕ) → Session → Session
round_of i pipe_count p args session = record {
  shell = spawn session.shell (record {
    args = args;
    own_group = false;
    stdin = input_of i session;
    stdout = output_of i pipe_count p;
  });
  pipe0 = session.pipe1;
  pipe1 = p;
  closed = session.closed ++ ends_in (input_of i session) ++ ends_in (output_of i pipe_count p);
}

setup_pipes-some :
    (pipe_count : ℕ) (p : Pipe) (session : Session)
    → 0 < pipe_count
    → setup_pipes pipe_count (some p) session ≡ record session { pipe0 = p }
unfolding setup_pipes
setup_pipes-some pipe_count p session h =
    let more : (pipe_count == 0) ≡ false = ground arith in rw (more) refl

module _ (plumbing : Plumbing) (pipes : ℕ → Pipe)
    (opened : (i : ℕ) → plumbing.pipe i ≡ some (pipes i))
    (forked : (i : ℕ) → plumbing.forked i ≡ true) where
  pub exec_pipe_lem :
      (i pipe_count width : ℕ) (args : List (List ℕ)) (session : Session)
      → 0 < pipe_count
      → length args < width
      → exec_pipe plumbing i pipe_count (row_of width args) session
        ≡ returns (round_of i pipe_count (pipes i) args session)
  unfolding exec_pipe alternate_pipes
  exec_pipe_lem i pipe_count width args session some_pipe room =
      rw
        (
          exec_pipe,
          argv_of-row_of args width room,
          opened i,
          forked i,
          setup_pipes-some pipe_count (pipes i) session some_pipe,
          reads_pipe_lem i pipe_count some_pipe,
          writes_pipe_lem i pipe_count some_pipe,
          if_not (i == 0) (some session.pipe1.read_end) none,
          if_not (i == pipe_count) (some (pipes i).write_end) none,
          if_not (i == 0) (session.pipe1.read_end ∷ []) [],
          if_not (i == pipe_count) ((pipes i).write_end ∷ []) [],
          ends_in-if (i == 0) session.pipe1.read_end,
          ends_in-if (i == pipe_count) (pipes i).write_end,
        )
        refl

  -- What the rounds from `i` on leave, `n` of them before the last.
  abbrev Wired : List (List (List ℕ)) → ℕ → ℕ → ℕ → Session → Session → Type 0
  Wired commands i n width session after =
      (exec_commands plumbing i (i + n) (map (row_of width) commands) session ≡ returns after)
      × (after.shell ≡ record session.shell {
        spawned = reverse (wired pipes i (input_of i session) commands) ++ session.shell.spawned;
      })
      × (after.closed ≡ session.closed ++ ends_in (input_of i session) ++ ends_of pipes i n)

  Wired-round :
      (c d : List (List ℕ)) (cs : List (List (List ℕ))) (i n width : ℕ) (session after : Session)
      → length c < width
      → Wired (d ∷ cs) (suc i) n width (round_of i (i + suc n) (pipes i) c session) after
      → Wired (c ∷ d ∷ cs) i (suc n) width session after
  unfolding exec_commands wired ends_of
  Wired-round c d cs i n width session after room (run, shell, closed) =
      let some_pipe : 0 < i + suc n = omega arith in
      let same : suc i + n ≡ i + suc n = omega arith in
      let more : (i == i + suc n) ≡ false = ground arith in
      let input = ends_in (input_of i session) in
      let w = (pipes i).write_end in
      let rest = (pipes i).read_end ∷ ends_of pipes (suc i) n in
      (
        rw (exec_commands, exec_pipe_lem i (i + suc n) width c session some_pipe room)
            (rw (same) at run),
        rw (suc-==-zero i, more) at shell
            ∙ ap (λ l. record session.shell { spawned = l })
                (reverse-onto
                  (record {
                    args = c;
                    own_group = false;
                    stdin = input_of i session;
                    stdout = some (pipes i).write_end;
                  })
                  (wired pipes (suc i) (some (pipes i).read_end) (d ∷ cs)) session.shell.spawned),
        rw (suc-==-zero i, more) at closed
            ∙ append_assoc (session.closed ++ input ++ w ∷ []) ((pipes i).read_end ∷ [])
                (ends_of pipes (suc i) n)
            ∙ append_assoc (session.closed ++ input) (w ∷ []) rest,
      )

  -- The rounds from `i` on, while every row has a NULL.
  pub exec_commands_lem :
      (c : List (List ℕ)) (cs : List (List (List ℕ))) (i width : ℕ) (session : Session)
      → plumbing.ends ≡ true
      → 0 < i + length cs
      → All (λ args. length args < width) (c ∷ cs)
      → (after : Session) × Wired (c ∷ cs) i (length cs) width session after
  unfolding exec_commands wired ends_of
  exec_commands_lem c [] i width session ends some_pipe (room, rest) =
      let last : (i == i + 0) ≡ true = ground arith in
      (
        round_of i (i + 0) (pipes i) c session,
        (
          rw (exec_commands, exec_pipe_lem i (i + 0) width c session some_pipe room, ends) refl,
          rw (last) refl,
          rw (last) refl,
        ),
      )
  exec_commands_lem c (d ∷ cs) i width session ends some_pipe (room, rest) =
      let next = round_of i (i + suc (length cs)) (pipes i) c session in
      let (after, ran) = exec_commands_lem d cs (suc i) width next ends (omega arith) rest in
      (after, Wired-round c d cs i (length cs) width session after room ran)
