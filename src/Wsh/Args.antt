-- ===== src/Wsh/Args.antt =====
-- The arguments of a line in p3/wsh.c: `count_args`, `split_into_args`, `cut`, `remove_newline_char`.
-- `none` is an access outside an array.
pub mod Cut
use cs537_operating_system_u.Base.{
  ℕ, zero, suc, ◌+◌, ◌-◌, List, [], ◌∷◌, ◌++◌, Option, none, some, ◌==◌, if◌then◌else◌, Bool, map,
  length, replicate, store, get_elem?, take, ◌>>=◌,
}
use cs537_operating_system_u.Base.CString.{strtok_all}

abbrev pub is_blank : ℕ → Bool
is_blank c = c == b' '

-- What `strtok(…, " ")` gives, one after another.
unfoldable pub tokens : List ℕ → List (List ℕ)
tokens line = map (λ (t : List ℕ × Option (List ℕ)). t.0) (strtok_all is_blank line)

unfoldable pub count_args : List ℕ → ℕ
unfolding tokens
count_args line = length (tokens line)

-- The loop of `split_into_args`, and the NULL behind the last argument.
unfoldable pub store_args :
    List (List ℕ) → List (Option (List ℕ)) → ℕ → Option (List (Option (List ℕ)) × ℕ)
store_args [] args num_args = store args num_args none >>= λ ended. some (ended, num_args)
store_args (token ∷ rest) args num_args =
    store args num_args (some token) >>= λ stored. store_args rest stored (num_args + 1)

-- The array that `calloc` gives is as long as the count says; the arguments and their number.
unfoldable pub cut : List ℕ → Option (List (Option (List ℕ)) × ℕ)
cut line = store_args (tokens line) (replicate (count_args line + 1) none) 0

-- `line[strlen(line) - 1]` is in front of an empty line.
unfoldable pub remove_newline_char : List ℕ → Option (List ℕ)
remove_newline_char [] = none
remove_newline_char (c ∷ []) = some (if c == 10 then [] else c ∷ [])
remove_newline_char (c ∷ d ∷ line) = remove_newline_char (d ∷ line) >>= λ rest. some (c ∷ rest)
