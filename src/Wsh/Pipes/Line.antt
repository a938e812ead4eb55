-- ===== src/Wsh/Pipes/Line.antt =====
-- A whole line of the input: from `start_wsh` to the commands of a pipeline.
use cs537_operating_system_u.Base.{
  ℕ, ◌<◌, ◌≡◌, append-nil, refl, List, [], ◌∷◌, Option, some, arith, ◌==◌, false, All,
}
use cs537_operating_system_u.Wsh.Run.{System}
use cs537_operating_system_u.Wsh.Pipes.{
  Session, Plumbing, count_pipes, split_into_commands, exec_commands, process_pipe,
}

module _ (system : System) (plumbing : Plumbing) (a b : List ℕ) (args : List (List ℕ))
    (line : List ℕ) (session : Session) where
  pub process_pipe-commands :
      (rows : List (List (Option (List ℕ))))
      → 0 < count_pipes (a ∷ b ∷ args)
      → split_into_commands (a ∷ b ∷ args) ≡ some rows
      → plumbing.behind ≡ []
      → process_pipe system plumbing (a ∷ b ∷ args) line session
        ≡ exec_commands plumbing 0 (count_pipes (a ∷ b ∷ args)) rows session
  unfolding process_pipe
  process_pipe-commands rows some_pipe split nothing =
      let more : (count_pipes (a ∷ b ∷ args) == 0) ≡ false = ground arith in
      rw (process_pipe, more, split, nothing, append-nil rows) refl

module _ {A : Type 0} (P Q : A → Type 0) where
  pub All-imp : ((x : A) → P x → Q x) → (xs : List A) → All P xs → All Q xs
  All-imp f [] h = tt
  All-imp f (x ∷ xs) (p, h) = (f x p, All-imp f xs h)
