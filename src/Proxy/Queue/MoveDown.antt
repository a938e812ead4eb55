-- ===== src/Proxy/Queue/MoveDown.antt =====
-- The loop of `move_down`: what it does to the array, and when it reads past it.
use cs537_operating_system_u.Base.{
  ℕ, zero, suc, ◌+◌, ◌≤◌, ◌≡◌, refl, ◌∙◌, List, [], ◌∷◌, ◌++◌, none, some, arith, inl, inr, length,
  get_elem?, set, store-append, store-set, get_elem?-out, get_elem?-lt, length-set, length-append,
  append_assoc, Option-cases,
}
use native.Mathlib.Numerals.{add-one}
use cs537_operating_system_u.Proxy.Queue.{Cell, shift_left}

get_elem?-next :
    (before : List Cell) (a b : Cell) (after : List Cell)
    → get_elem? (before ++ a ∷ b ∷ after) (suc (length before)) ≡ some b
get_elem?-next [] a b after = refl
get_elem?-next (x ∷ before) a b after = get_elem?-next before a b after

-- One round: the cell behind `a` is copied over it.
shift_left-step :
    (rounds : ℕ) (before : List Cell) (a b : Cell) (after : List Cell)
    → shift_left (suc rounds) (length before) (before ++ a ∷ b ∷ after)
      ≡ shift_left rounds (length before + 1) (before ++ b ∷ b ∷ after)
unfolding shift_left
shift_left-step rounds before a b after =
    rw (add-one, get_elem?-next before a b after, store-append before a b (b ∷ after))

length-snoc : (before : List Cell) (b : Cell) → length (before ++ b ∷ []) ≡ length before + 1
length-snoc before b = length-append before (b ∷ [])

-- The cells behind `a` move down by one; the last of them stays where it was, too.
pub shift_left-cells :
    (before : List Cell) (a : Cell) (moved : List Cell) (last : Cell) (rest : List Cell)
    → shift_left (suc (length moved)) (length before) (before ++ a ∷ (moved ++ last ∷ rest))
      ≡ some (before ++ (moved ++ last ∷ last ∷ rest))
shift_left-cells before a [] last rest =
    shift_left-step 0 before a last rest ∙ unfold shift_left in refl
shift_left-cells before a (b ∷ moved) last rest =
    shift_left-step (suc (length moved)) before a b (moved ++ last ∷ rest)
    ∙ (rw
        (
          length-snoc before b,
          append_assoc before (b ∷ []) (b ∷ (moved ++ last ∷ rest)),
          append_assoc before (b ∷ []) (moved ++ last ∷ last ∷ rest),
        )
        at (shift_left-cells (before ++ b ∷ []) b moved last rest))

-- Started with rounds that lead to the end of the array, the loop reads past it.
pub shift_left-faults :
    (rounds i : ℕ) (elements : List Cell)
    → length elements ≤ i + suc rounds
    → shift_left (suc rounds) i elements ≡ none
unfolding shift_left
shift_left-faults zero i elements h = rw (get_elem?-out elements (i + 1) (omega arith))
shift_left-faults (suc rounds) i elements h = elim (Option-cases (get_elem? elements (i + 1))) [
  | inl out ↦ rw out
  | inr (p, e) ↦
      rw (e, store-set elements i p (omega (arith, get_elem?-lt elements (i + 1) e)))
        (shift_left-faults rounds (i + 1) (set elements i p)
          (omega (arith, length-set elements i p)))
]
