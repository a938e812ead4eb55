-- ===== src/Proxy/Queue/Place.antt =====
-- What the loops of `add_work` and `move_down` do to the array, as operations on lists.
use cs537_operating_system_u.Base.{
  suc, ◌≡◌, refl, ap, ◌∙◌, List, [], ◌∷◌, ◌++◌, map, reverse, some, arith, true, false, Bool-cases,
  inl, inr, if◌then◌else◌, length, store, store-append, get_elem?-append, length-append,
  append_assoc, map-append, ◌>>=◌,
}
use mathlib.Core.List.{reverse-append}
use cs537_operating_system_u.Base.Int.{ltb_ℤ}
use cs537_operating_system_u.Proxy.Queue.{ClientRequest, Cell, deref, shift_right, place}

-- The requests of the array from the last to the first, and the new one put in place: it stops
-- behind the first request that it meets whose priority is not smaller.
unfoldable pub insert_back : ClientRequest → List ClientRequest → List ClientRequest
insert_back request [] = request ∷ []
insert_back request (p ∷ ps) =
    if ltb_ℤ p.priority request.priority then p ∷ insert_back request ps else request ∷ p ∷ ps

-- The first cells of an array: the requests `ps`, last first.
abbrev pub cells : List ClientRequest → List Cell
cells ps = map some (reverse ps)

cells-cons :
    (p : ClientRequest) (ps : List ClientRequest) → cells (p ∷ ps) ≡ cells ps ++ some p ∷ []
cells-cons p ps = ap (map some) (reverse-append (p ∷ []) ps) ∙ map-append some (reverse ps) (p ∷ [])

length-cells : (ps : List ClientRequest) → length (cells ps) ≡ length ps
length-cells [] = refl
length-cells (p ∷ ps) =
    omega
      (arith, ap length (cells-cons p ps), length-append (cells ps) (some p ∷ []), length-cells ps)

cells-cons_append :
    (p : ClientRequest) (ps : List ClientRequest) (rest : List Cell)
    → cells (p ∷ ps) ++ rest ≡ cells ps ++ some p ∷ rest
cells-cons_append p ps rest = rw (cells-cons p ps) (append_assoc (cells ps) (some p ∷ []) rest)

deref-cells :
    (p : ClientRequest) (ps : List ClientRequest) (rest : List Cell)
    → deref (cells ps ++ some p ∷ rest) (length ps) ≡ some p
deref-cells p ps rest =
    rw (← length-cells ps) (ap (λ c. c >>= λ q. q) (get_elem?-append (cells ps) (some p) rest))

store-cells :
    (ps : List ClientRequest) (c v : Cell) (rest : List Cell)
    → store (cells ps ++ c ∷ rest) (length ps) v ≡ some (cells ps ++ v ∷ rest)
store-cells ps c v rest = rw (← length-cells ps) (store-append (cells ps) c v rest)

store-cells_next :
    (p : ClientRequest) (ps : List ClientRequest) (c v : Cell) (rest : List Cell)
    → store (cells ps ++ some p ∷ c ∷ rest) (suc (length ps)) v
      ≡ some (cells ps ++ some p ∷ v ∷ rest)
store-cells_next p ps c v rest =
    rw (← cells-cons_append p ps (c ∷ rest), ← cells-cons_append p ps (v ∷ rest))
      (store-cells (p ∷ ps) c v rest)

module _ (request p : ClientRequest) (ps : List ClientRequest) (c : Cell) (rest : List Cell) where
  shift_right-moves :
      ltb_ℤ p.priority request.priority ≡ true
      → shift_right (suc (length ps)) (cells ps ++ some p ∷ c ∷ rest) request
        ≡ shift_right (length ps) (cells ps ++ some p ∷ some p ∷ rest) request
  unfolding shift_right
  shift_right-moves h = rw (deref-cells p ps (c ∷ rest), h, store-cells_next p ps c (some p) rest)

  shift_right-stops :
      ltb_ℤ p.priority request.priority ≡ false
      → shift_right (suc (length ps)) (cells ps ++ some p ∷ c ∷ rest) request
        ≡ some (cells ps ++ some p ∷ c ∷ rest, suc (length ps))
  unfolding shift_right
  shift_right-stops h = rw (deref-cells p ps (c ∷ rest), h)

-- The loop and the store behind it put the request in its place, and use up one more cell.
pub place-insert_back :
    (request : ClientRequest) (ps : List ClientRequest) (c : Cell) (rest : List Cell)
    → place (length ps) (cells ps ++ c ∷ rest) request
      ≡ some (cells (insert_back request ps) ++ rest)
unfolding place insert_back
place-insert_back request [] c rest = unfold shift_right in refl
place-insert_back request (p ∷ ps) c rest = elim (Bool-cases (ltb_ℤ p.priority request.priority)) [
  | inl less ↦
      rw
        (
          less,
          cells-cons_append p ps (c ∷ rest),
          shift_right-moves request p ps c rest less,
          cells-cons_append p (insert_back request ps) rest,
        )
        (place-insert_back request ps (some p) (some p ∷ rest))
  | inr enough ↦
      rw
        (
          enough,
          cells-cons_append p ps (c ∷ rest),
          shift_right-stops request p ps c rest enough,
          cells-cons_append request (p ∷ ps) rest,
          cells-cons_append p ps (some request ∷ rest),
        )
        (store-cells_next p ps c (some request) rest)
]
