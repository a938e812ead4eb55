-- ===== src/Wsh/Pipes/Split.antt =====
-- What `split_into_commands` makes of the arguments of a pipeline.
use cs537_operating_system_u.Base.{
  ℕ, suc, ◌+◌, ◌-◌, ◌<◌, ◌≤◌, ◌≡◌, refl, ap, ap₂, sym, ◌∙◌, List, [], ◌∷◌, ◌++◌, Option, none, some,
  arith, ◌==◌, ==_iff, true, false, Bool-cases, inl, inr, All, map, length, length-append,
  replicate, store, store-append, store-map-some, map-some-append, get_elem?-append, append_assoc,
  append-nil,
}
use cs537_operating_system_u.Base.CString.{chars, strcmp_eq}
use cs537_operating_system_u.Wsh.Pipes.{
  is_pipe, count_pipes, store_at, split_from, split_into_commands,
}

-- The commands between the arguments "|", the first behind `front`.
unfoldable pub commands_from : List (List ℕ) → List (List ℕ) → List (List (List ℕ))
commands_from front [] = front ∷ []
commands_from front (a ∷ args) = elim (is_pipe a) [
  | true ↦ front ∷ commands_from [] args
  | false ↦ commands_from (front ++ a ∷ []) args
]

-- A command as a row of `width` pointers.
unfoldable pub row_of : ℕ → List (List ℕ) → List (Option (List ℕ))
row_of width args = map some args ++ replicate (width - length args) none

abbrev pub joined_by_pipes : List (List (List ℕ)) → List (List ℕ)
joined_by_pipes [] = []
joined_by_pipes (c ∷ []) = c
joined_by_pipes (c ∷ d ∷ cs) = c ++ chars "|" ∷ joined_by_pipes (d ∷ cs)

empty_row_lem : (width : ℕ) → row_of width [] ≡ replicate width none
unfolding row_of
empty_row_lem width = let all : width - 0 ≡ width = omega arith in ap (λ n. replicate n none) all

store-row_of-none :
    (width : ℕ) (args : List (List ℕ))
    → length args < width
    → store (row_of width args) (length args) none ≡ some (row_of width args)
unfolding row_of
store-row_of-none width args h =
    let left : width - length args ≡ suc (width - length args - 1) = omega arith in
    rw (row_of, left) (store-map-some args none none (replicate (width - length args - 1) none))

store-row_of-some :
    (width : ℕ) (args : List (List ℕ)) (a : List ℕ)
    → length args < width
    → store (row_of width args) (length args) (some a) ≡ some (row_of width (args ++ a ∷ []))
unfolding row_of
store-row_of-some width args a h =
    let left : width - length args ≡ suc (width - length args - 1) = omega arith in
    let less : width - length (args ++ a ∷ []) ≡ width - length args - 1 =
      omega (arith, length-append args (a ∷ [])) in
    rw (row_of, left, less)
      (store-map-some args none (some a) (replicate (width - length args - 1) none)
        ∙ ap some (map-some-append args a (replicate (width - length args - 1) none)))

store_at-append :
    (done : List (List (Option (List ℕ)))) (row row' : List (Option (List ℕ)))
    (rows : List (List (Option (List ℕ)))) (j : ℕ) (v : Option (List ℕ))
    → store row j v ≡ some row'
    → store_at (done ++ row ∷ rows) (length done) j v ≡ some (done ++ row' ∷ rows)
unfolding store_at
store_at-append done row row' rows j v h =
    rw (store_at, get_elem?-append done row rows, h) (store-append done row row' rows)

abbrev Rows : Type 0
Rows = List (List (Option (List ℕ)))

module _ (a : List ℕ) (args : List (List ℕ)) where
  split_from-bar :
      (rows rows' : Rows) (i j : ℕ)
      → is_pipe a ≡ true
      → store_at rows i j none ≡ some rows'
      → split_from (a ∷ args) rows i j ≡ split_from args rows' (i + 1) 0
  unfolding split_from
  split_from-bar rows rows' i j bar stored = rw (split_from, bar, stored) refl

  split_from-word :
      (rows rows' : Rows) (i j : ℕ)
      → is_pipe a ≡ false
      → store_at rows i j (some a) ≡ some rows'
      → split_from (a ∷ args) rows i j ≡ split_from args rows' i (j + 1)
  unfolding split_from
  split_from-word rows rows' i j word stored = rw (split_from, word, stored) refl

  commands_from-bar :
      (front : List (List ℕ))
      → is_pipe a ≡ true
      → commands_from front (a ∷ args) ≡ front ∷ commands_from [] args
  unfolding commands_from
  commands_from-bar front bar = rw (commands_from, bar) refl

  commands_from-word :
      (front : List (List ℕ))
      → is_pipe a ≡ false
      → commands_from front (a ∷ args) ≡ commands_from (front ++ a ∷ []) args
  unfolding commands_from
  commands_from-word front word = rw (commands_from, word) refl

  count_pipes-bar : is_pipe a ≡ true → count_pipes (a ∷ args) ≡ suc (count_pipes args)
  unfolding count_pipes
  count_pipes-bar bar = rw (bar) refl

  count_pipes-word : is_pipe a ≡ false → count_pipes (a ∷ args) ≡ count_pipes args
  unfolding count_pipes
  count_pipes-word word = rw (word) refl

-- The loop behind `done` full rows, with `front` in the row after them.
split_from_lem :
    (width : ℕ) (args front : List (List ℕ)) (done : Rows)
    → length front + length args < width
    → split_from args
        (done ++ row_of width front ∷ replicate (count_pipes args) (row_of width []))
        (length done)
        (length front)
      ≡ some (done ++ map (row_of width) (commands_from front args))
unfolding split_from commands_from count_pipes
split_from_lem width [] front done h = refl
split_from_lem width (a ∷ args) front done h = elim (Bool-cases (is_pipe a)) [
  | inl bar ↦
      let row = row_of width front in
      let empties = replicate (suc (count_pipes args)) (row_of width []) in
      let one_more : length done + 1 ≡ length (done ++ row ∷ []) =
        omega (arith, length-append done (row ∷ [])) in
      rw (count_pipes-bar a args bar, commands_from-bar a args front bar)
        (split_from-bar a args (done ++ row ∷ empties) (done ++ row ∷ empties) (length done)
            (length front) bar
            (store_at-append done row row empties (length front) none
              (store-row_of-none width front (omega arith)))
          ∙ rw (one_more, sym (append_assoc done (row ∷ []) empties))
              (split_from_lem width args [] (done ++ row ∷ []) (omega arith)
                ∙ ap some
                    (append_assoc done (row ∷ []) (map (row_of width) (commands_from [] args)))))
  | inr word ↦
      let empties = replicate (count_pipes args) (row_of width []) in
      let one_more : length front + 1 ≡ length (front ++ a ∷ []) =
        omega (arith, length-append front (a ∷ [])) in
      rw (count_pipes-word a args word, commands_from-word a args front word)
        (split_from-word a args (done ++ row_of width front ∷ empties)
            (done ++ row_of width (front ++ a ∷ []) ∷ empties) (length done) (length front) word
            (store_at-append done (row_of width front) (row_of width (front ++ a ∷ [])) empties
              (length front) (some a) (store-row_of-some width front a (omega arith)))
          ∙ rw (one_more)
              (split_from_lem width args (front ++ a ∷ []) done (omega (arith, one_more))))
]

strcmp_eq-eq : (s t : List ℕ) → strcmp_eq s t ≡ true → s ≡ t
strcmp_eq-eq [] [] h = refl
strcmp_eq-eq [] (b ∷ t) h = cc
strcmp_eq-eq (a ∷ s) [] h = cc
strcmp_eq-eq (a ∷ s) (b ∷ t) h = elim (Bool-cases (a == b)) [
  | inl same ↦ ap₂ (λ x l. x ∷ l) ((==_iff a b).0 same) (strcmp_eq-eq s t (rw (same) at h))
  | inr other ↦ absurd (cc (rw (other) at h))
]

joined_by_pipes-cons :
    (c : List (List ℕ)) (cs : List (List (List ℕ))) {n : ℕ}
    → length cs ≡ suc n
    → joined_by_pipes (c ∷ cs) ≡ c ++ chars "|" ∷ joined_by_pipes cs
joined_by_pipes-cons c [] h = absurd (omega arith)
joined_by_pipes-cons c (d ∷ cs) h = refl

module _ {A : Type 0} (P : A → Type 0) where
  All-append_one : (xs : List A) {x : A} → All P xs → P x → All P (xs ++ x ∷ [])
  All-append_one [] h p = (p, tt)
  All-append_one (y ∷ ys) (q, h) p = (q, All-append_one ys h p)

-- What the commands are: no argument of them is "|", and put together with "|" between them they are
-- the arguments again.
commands_from-joined :
    (args front : List (List ℕ))
    → All (λ a. is_pipe a ≡ false) front
    → (joined_by_pipes (commands_from front args) ≡ front ++ args)
      × All (λ c. All (λ a. is_pipe a ≡ false) c) (commands_from front args)
      × (length (commands_from front args) ≡ suc (count_pipes args))
unfolding commands_from count_pipes is_pipe
commands_from-joined [] front h = (sym (append-nil front), (h, tt), refl)
commands_from-joined (a ∷ args) front h = elim (Bool-cases (is_pipe a)) [
  | inl bar ↦
      let (rest, words, count) = commands_from-joined args [] tt in
      rw (commands_from-bar a args front bar, count_pipes-bar a args bar)
        (
          (joined_by_pipes-cons front (commands_from [] args) count
              ∙ ap₂ (λ (x : List ℕ) l. front ++ x ∷ l) (sym (strcmp_eq-eq a (chars "|") bar)) rest),
          (h, words),
          ap suc count,
        )
  | inr word ↦
      let (rest, words, count) =
        commands_from-joined args (front ++ a ∷ [])
          (All-append_one (λ b. is_pipe b ≡ false) front h word) in
      rw (commands_from-word a args front word, count_pipes-word a args word)
        (rest ∙ append_assoc front (a ∷ []) args, words, count)
]

commands_from-length :
    (args front : List (List ℕ)) (n : ℕ)
    → length front + length args ≤ n
    → All (λ c. length c ≤ n) (commands_from front args)
unfolding commands_from
commands_from-length [] front n h = (omega arith, tt)
commands_from-length (a ∷ args) front n h = elim (Bool-cases (is_pipe a)) [
  | inl bar ↦
      rw (commands_from-bar a args front bar)
        (omega arith, commands_from-length args [] n (omega arith))
  | inr word ↦
      rw (commands_from-word a args front word) (
        commands_from-length args (front ++ a ∷ []) n (omega (arith, length-append front (a ∷ []))))
]

-- `split_into_commands` never writes outside the rows that `process_pipe` allocates, one more than there
-- are arguments "|". The row of each command has its arguments, none of them "|", and behind them NULLs,
-- at least one; the commands with "|" put between them are the arguments of the line again.
pub split_into_commands_lem :
    (args : List (List ℕ))
    → (commands : List (List (List ℕ))) × (split_into_commands args
        ≡ some (map (row_of (suc (length args))) commands))
      × (length commands ≡ suc (count_pipes args))
      × All (λ c. length c ≤ length args) commands
      × All (λ c. All (λ a. is_pipe a ≡ false) c) commands
      × (joined_by_pipes commands ≡ args)
unfolding split_into_commands
split_into_commands_lem args =
    let (joined, words, count) = commands_from-joined args [] tt in
    let one_more : length args + 1 ≡ suc (length args) = omega arith in
    let rows : count_pipes args + 1 ≡ suc (count_pipes args) = omega arith in
    (
      commands_from [] args,
      rw (split_into_commands, one_more, rows)
          (rw (empty_row_lem (suc (length args))) at
            (split_from_lem (suc (length args)) args [] [] (omega arith))),
      count,
      commands_from-length args [] (length args) (omega arith),
      words,
      joined,
    )
