-- ===== src/Wsh/Args/Cut.antt =====
-- What `cut` makes of a line.
use cs537_operating_system_u.Base.{
  ℕ, suc, ◌+◌, ◌≡◌, ◌≢◌, refl, ap, sym, ◌∙◌, List, [], ◌∷◌, ◌++◌, Option, none, some, arith,
  if◌then◌else◌, Bool, false, Bool-cases, inl, inr, All, map, reverse, length, length-append,
  replicate, store-map-some, map-some-append, append_assoc, append-nil,
}
use mathlib.Core.List.{reverse_aux, reverse-cons}
use cs537_operating_system_u.Base.CString.{tokens_from, strtok_all}
use cs537_operating_system_u.Wsh.Args.{is_blank, tokens, count_args, store_args, cut}

-- The text without the characters of a kind.
unfoldable pub without : (ℕ → Bool) → List ℕ → List ℕ
without is_delim [] = []
without is_delim (c ∷ s) = if is_delim c then without is_delim s else c ∷ without is_delim s

abbrev pub joined : List (List ℕ) → List ℕ
joined [] = []
joined (t ∷ ts) = t ++ joined ts

abbrev texts : List (List ℕ × Option (List ℕ)) → List (List ℕ)
texts ts = map (λ (t : List ℕ × Option (List ℕ)). t.0) ts

tokens_from-joined :
    (is_delim : ℕ → Bool) (acc s : List ℕ)
    → joined (texts (tokens_from is_delim acc s)) ≡ reverse acc ++ without is_delim s
unfolding tokens_from without
tokens_from-joined is_delim [] [] = refl
tokens_from-joined is_delim (a ∷ acc) [] = refl
tokens_from-joined is_delim [] (c ∷ s) = elim (Bool-cases (is_delim c)) [
  | inl blank ↦ rw (blank) (tokens_from-joined is_delim [] s)
  | inr other ↦ rw (other) (tokens_from-joined is_delim (c ∷ []) s)
]
tokens_from-joined is_delim (a ∷ acc) (c ∷ s) = elim (Bool-cases (is_delim c)) [
  | inl blank ↦ rw (blank) (ap (λ t. reverse (a ∷ acc) ++ t) (tokens_from-joined is_delim [] s))
  | inr other ↦ rw (other) (
      tokens_from-joined is_delim (c ∷ a ∷ acc) s
      ∙ rw (reverse-cons c (a ∷ acc))
          (append_assoc (reverse (a ∷ acc)) (c ∷ []) (without is_delim s)))
]

-- A text that `strtok` can give: not empty, and no character of it is a delimiter.
abbrev pub IsToken : (ℕ → Bool) → List ℕ → Type 0
IsToken is_delim t = (t ≢ []) × All (λ c. is_delim c ≡ false) t

-- The token that ends is not empty, and holds what `acc` holds.
module _ (P : ℕ → Type 0) where
  All-reverse : (acc s : List ℕ) → All P acc → All P s → All P (reverse_aux acc s)
  All-reverse [] s done h = h
  All-reverse (a ∷ acc) s (p, done) h = All-reverse acc (a ∷ s) done (p, h)

IsToken-reverse :
    (is_delim : ℕ → Bool) (a : ℕ) (acc : List ℕ)
    → All (λ c. is_delim c ≡ false) (a ∷ acc)
    → IsToken is_delim (reverse (a ∷ acc))
IsToken-reverse is_delim a acc h = (
  (λ e. not_empty (reverse acc) a (sym (reverse-cons a acc) ∙ e)),
  All-reverse (λ c. is_delim c ≡ false) (a ∷ acc) [] h tt,
)
  where
    not_empty : (xs : List ℕ) (x : ℕ) → (xs ++ x ∷ []) ≢ []
    not_empty [] x e = cc
    not_empty (y ∷ ys) x e = cc

tokens_from-IsToken :
    (is_delim : ℕ → Bool) (acc s : List ℕ)
    → All (λ c. is_delim c ≡ false) acc
    → All (IsToken is_delim) (texts (tokens_from is_delim acc s))
unfolding tokens_from
tokens_from-IsToken is_delim [] [] h = tt
tokens_from-IsToken is_delim (a ∷ acc) [] h = (IsToken-reverse is_delim a acc h, tt)
tokens_from-IsToken is_delim [] (c ∷ s) h = elim (Bool-cases (is_delim c)) [
  | inl blank ↦ rw (blank) (tokens_from-IsToken is_delim [] s tt)
  | inr other ↦ rw (other) (tokens_from-IsToken is_delim (c ∷ []) s (other, tt))
]
tokens_from-IsToken is_delim (a ∷ acc) (c ∷ s) h = elim (Bool-cases (is_delim c)) [
  | inl blank ↦ rw (blank) (IsToken-reverse is_delim a acc h, tokens_from-IsToken is_delim [] s tt)
  | inr other ↦ rw (other) (tokens_from-IsToken is_delim (c ∷ a ∷ acc) s (other, h))
]

-- The loop fills the NULLs that `calloc` left, one after another.
store_args_lem :
    (rest done : List (List ℕ))
    → store_args rest (map some done ++ replicate (suc (length rest)) none) (length done)
      ≡ some (map some (done ++ rest) ++ none ∷ [], length (done ++ rest))
unfolding store_args
store_args_lem [] done = rw (store-map-some done none none [], append-nil done) refl
store_args_lem (t ∷ rest) done =
    let behind = replicate {A = Option (List ℕ)} (suc (length rest)) none in
    let one_more : length done + 1 ≡ length (done ++ t ∷ []) =
      omega (arith, length-append done (t ∷ [])) in
    rw (store-map-some done none (some t) behind) (
      rw (map-some-append done t behind, one_more)
        (store_args_lem rest (done ++ t ∷ [])
          ∙ ap (λ l. some (map some l ++ none ∷ [], length l)) (append_assoc done (t ∷ []) rest)))

add-one : (n : ℕ) → n + 1 ≡ suc n
add-one n = omega arith

-- Whatever the line, `cut` writes nowhere outside the array that it allocates. The array ends with the one
-- NULL, the arguments in front of it are as many as the returned number says, none is empty or has a blank
-- in it, and together they are the line without its blanks.
pub cut_lem :
    (line : List ℕ)
    → (args : List (List ℕ)) × (cut line ≡ some (map some args ++ none ∷ [], length args))
      × (joined args ≡ without is_blank line)
      × All (IsToken is_blank) args
unfolding cut count_args tokens strtok_all
cut_lem line = (
  tokens line,
  ap (λ n. store_args (tokens line) (replicate n none) 0) (add-one (length (tokens line)))
      ∙ store_args_lem (tokens line) [],
  tokens_from-joined is_blank [] line,
  tokens_from-IsToken is_blank [] line tt,
)
