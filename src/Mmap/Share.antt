-- ===== src/Mmap/Share.antt =====
-- The areas of a process that forks or exits: `copy_vma`, `clean_vma` and the loop of `fork` in
-- p5/xv6-public/proc.c, with the files whose reference is taken by `filedup` or given back by `fileclose`.
use cs537_operating_system_u.Base.{
  ℕ, zero, suc, ◌≡◌, refl, ap, ap₂, sym, ◌∙◌, get_elem?, List, [], ◌∷◌, ◌++◌, Option, none, some,
  arith, if◌then◌else◌, true, false, Bool-cases, inl, inr, All, length,
}
use cs537_operating_system_u.Mmap.{Vma}

abbrev pub file_of : Vma → List ℕ
file_of vma = elim vma.pf [ none ↦ [] | some file ↦ file ∷ [] ]

-- The areas, and the files that `fileclose` is called for, in order.
unfoldable pub clean_vma : List Vma → List Vma × List ℕ
clean_vma [] = ([], [])
clean_vma (vma ∷ vmas) =
    let (rest, closed) = clean_vma vmas in
    if vma.valid
    then (record vma { pf = none; valid = false } ∷ rest, file_of vma ++ closed)
    else (vma ∷ rest, closed)

-- The slot of the child, and the files that `filedup` is called for; `none` for -1.
unfoldable pub copy_vma : Vma → Option (Vma × List ℕ)
copy_vma source_vma =
    if source_vma.valid then some (record source_vma { valid = true }, file_of source_vma) else none

-- The loop of `fork` over the slots of parent and child.
unfoldable pub copy_vmas : List Vma → List Vma → Option (List Vma × List ℕ)
copy_vmas (vma ∷ vmas) (slot ∷ slots) = elim (copy_vmas vmas slots) [
  | none ↦ none
  | some rest ↦
      if vma.valid
      then elim (copy_vma vma) [
        | none ↦ none
        | some copied ↦ some (copied.0 ∷ rest.0, copied.1 ++ rest.1)
      ]
      else some (slot ∷ rest.0, rest.1)
]
copy_vmas _ slots = some (slots, [])

-- A valid slot of the parent goes to the child, which keeps its own slot where the parent's is not valid.
abbrev pub Inherits : List Vma → List Vma → List Vma → Type 0
Inherits vmas slots copied =
    (i : ℕ) (vma slot : Vma)
    → get_elem? vmas i ≡ some vma
    → get_elem? slots i ≡ some slot
    → get_elem? copied i ≡ some (if vma.valid then vma else slot)

Inherits-cons :
    (vma slot child : Vma) (vmas slots copied : List Vma)
    → child ≡ (if vma.valid then vma else slot)
    → Inherits vmas slots copied
    → Inherits (vma ∷ vmas) (slot ∷ slots) (child ∷ copied)
Inherits-cons vma slot child vmas slots copied same rest zero v s at at' =
    let v_eq : vma ≡ v = cc in
    let s_eq : slot ≡ s = cc in
    ap some (same ∙ ap₂ (λ (x y : Vma). if x.valid then x else y) v_eq s_eq)
Inherits-cons vma slot child vmas slots copied same rest (suc i) v s at at' = rest i v s at at'

-- `fork` with a child of as many slots as the parent, none of which is in use: each valid area of the
-- parent is in the same slot of the child, whose other slots are as before. The files that `fork` takes a
-- reference to are those that the parent would give back at `exit`, in the same order; the child gives back
-- the same at its own `exit`, and then none of its slots is in use.
pub copy_vmas-clean_vma :
    (vmas slots : List Vma)
    → length vmas ≡ length slots
    → All (λ s. s.valid ≡ false) slots
    → (copied : List Vma) × (taken : List ℕ) × (copy_vmas vmas slots ≡ some (copied, taken))
      × Inherits vmas slots copied
      × ((clean_vma vmas).1 ≡ taken)
      × ((clean_vma copied).1 ≡ taken)
      × All (λ s. s.valid ≡ false) (clean_vma copied).0
unfolding copy_vmas clean_vma copy_vma
copy_vmas-clean_vma [] [] e h = ([], [], refl, (λ i v s at. absurd (cc)), refl, refl, tt)
copy_vmas-clean_vma [] (s ∷ slots) e h = absurd (omega arith)
copy_vmas-clean_vma (v ∷ vmas) [] e h = absurd (omega arith)
copy_vmas-clean_vma (v ∷ vmas) (s ∷ slots) e (free, h) =
    let (copied, taken, copies, inherits, held, gives, clean) =
      copy_vmas-clean_vma vmas slots (omega arith) h in
    elim (Bool-cases v.valid) [
      | inl used ↦ (
        record v { valid = true } ∷ copied,
        file_of v ++ taken,
        rw (copy_vmas, copies, copy_vma, used) refl,
        Inherits-cons v s (record v { valid = true }) vmas slots copied
            (ap (λ b. record v { valid = b }) (sym used) ∙ rw (used) refl) inherits,
        rw (used) (ap (λ l. file_of v ++ l) held),
        ap (λ l. file_of v ++ l) gives,
        (refl, clean),
      )
      | inr unused ↦ (
        s ∷ copied,
        taken,
        rw (copy_vmas, copies, unused) refl,
        Inherits-cons v s s vmas slots copied (rw (unused) refl) inherits,
        rw (unused) held,
        rw (free) gives,
        rw (free) (refl, clean),
      )
    ]
