-- ===== src/Mmap/Unmap.antt =====
-- `munmap` of p5/xv6-public/proc.c, with the calls of `filewriteoff` it makes.
use cs537_operating_system_u.Base.{
  ℕ, zero, suc, ◌+◌, ◌-◌, ◌/◌, ◌≤◌, ◌<◌, ◌≡◌, ◌≢◌, ◌⊎◌, ap, List, [], ◌∷◌, ◌++◌, Option, none, some,
  arith, ◌==◌, if◌then◌else◌, ltb, leb, ◌&&◌, ◌||◌, not, Bool, true, false, Bool-cases,
  Option-cases, inl, inr, get_elem?, get_elem?-lt, length,
}
use cs537_operating_system_u.Mmap.{
  pgsize, Vma, Space, has_flag, map_anonymous, map_growsup, deallocuvm,
}

abbrev pub map_private : ℕ
map_private = 1

-- A call of `filewriteoff`: the file, the address, the bytes and the offset.
pub record FileWrite : Type 0 where
  pub file : Option ℕ
  pub addr : ℕ
  pub size : ℕ
  pub offset : ℕ

-- The page table and the writes; `panics` also where the chain of areas leaves the array; `endless`
-- where it has more links than the rounds that were given.
pub data Unmapped : Type 0 where
  unmapped : (ℕ → Option ℕ) → List FileWrite → Unmapped
  panics : Unmapped
  endless : Unmapped

-- The first valid area from index `i` on that has the address.
unfoldable pub find_vma : ℕ → List Vma → ℕ → Option (ℕ × Vma)
find_vma i [] addr = none
find_vma i (vma ∷ vmas) addr =
    let rest = find_vma (suc i) vmas addr in
    if vma.valid && leb vma.addr addr && ltb addr vma.end_addr then some (i, vma) else rest

-- What is written of the length in a step, and what is left of it.
abbrev pub write_length : ℕ → ℕ
write_length length = if ltb pgsize length then pgsize else length

abbrev pub length_left : ℕ → ℕ
length_left length = if ltb pgsize length then length - pgsize else length

-- The loop over the continuations of an area that has grown, from the area `vp` on.
unfoldable pub unmap_chain :
    ℕ → List Vma → (ℕ → Option ℕ) → Vma → ℕ → ℕ → ℕ → List FileWrite → Unmapped
unmap_chain zero vmas pgdir vp addr left off written =
    if vp.next == 0 || left == 0 then unmapped pgdir written else endless
unmap_chain (suc rounds) vmas pgdir vp addr left off written = elim (vp.next == 0 || left == 0) [
  | true ↦ unmapped pgdir written
  | false ↦ elim (get_elem? vmas vp.next) [
    | none ↦ panics
    | some next ↦
        let size = write_length left in
        let at = addr + pgsize in
        let write : FileWrite = record { file = next.pf; addr = at; size = size; offset = off } in
        unmap_chain rounds vmas (deallocuvm pgdir (at + size) at) next at (length_left left)
          (off + pgsize)
          (if has_flag next.flags map_anonymous then written else written ++ write ∷ [])
  ]
]

abbrev is_shared_file : ℕ → Bool
is_shared_file flags = not (has_flag flags map_anonymous) && not (has_flag flags map_private)

-- The write of the first page, and its page table; `table` says whether there is a table for the page.
unfoldable pub unmap_first : Bool → Space → Vma → ℕ → ℕ → (ℕ → Option ℕ) × ℕ × List FileWrite
unmap_first false space vp addr left = (space.pgdir, left, [])
unmap_first true space vp addr left =
    let size = write_length left in
    let write : FileWrite = record {
      file = vp.pf;
      addr = addr;
      size = size;
      offset = addr - vp.addr;
    } in
    (
      deallocuvm space.pgdir (addr + size) addr,
      length_left left,
      (if is_shared_file vp.flags then write ∷ [] else []),
    )

-- The areas themselves stay as they are.
unfoldable pub munmap : ℕ → (ℕ → Bool) → Space → ℕ → ℕ → Unmapped
unfolding unmap_first find_vma unmap_chain
munmap rounds table space addr length = elim (find_vma 0 space.vmas addr) [
  | none ↦ panics
  | some found ↦
      let vp = found.1 in
      let (pgdir, left, written) = unmap_first (table (addr / pgsize)) space vp addr length in
      if has_flag vp.flags map_growsup && is_shared_file vp.flags
      then unmap_chain rounds space.vmas pgdir vp addr left pgsize written
      else unmapped pgdir written
]

-- Areas whose continuation, if they have one, stands in a later slot, as the page fault makes it except in the
-- last slot.
abbrev pub Ordered : List Vma → Type 0
Ordered vmas = (i : ℕ) (vma : Vma) → get_elem? vmas i ≡ some vma → (vma.next ≡ 0) ⊎ (i < vma.next)

next-later :
    (vmas : List Vma) (i left : ℕ) (vp : Vma)
    → Ordered vmas
    → get_elem? vmas i ≡ some vp
    → (vp.next == 0 || left == 0) ≡ false
    → i < vp.next
next-later vmas i left vp ordered at goes_on = elim (ordered i vp at) [
  | inl last ↦ absurd (cc (rw (last) at goes_on))
  | inr later ↦ later
]

-- With as many rounds as there are slots behind the area, the loop comes to its end.
unmap_chain-ends :
    (rounds i : ℕ) (vmas : List Vma) (pgdir : ℕ → Option ℕ) (vp : Vma) (addr left off : ℕ)
    (written : List FileWrite)
    → Ordered vmas
    → get_elem? vmas i ≡ some vp
    → length vmas ≤ i + rounds
    → unmap_chain rounds vmas pgdir vp addr left off written ≢ endless
unfolding unmap_chain
unmap_chain-ends zero i vmas pgdir vp addr left off written ordered at enough =
    absurd (omega (arith, get_elem?-lt vmas i at))
unmap_chain-ends (suc rounds) i vmas pgdir vp addr left off written ordered at enough =
    elim (Bool-cases (vp.next == 0 || left == 0)) [
      | inl ends ↦ rw (unmap_chain, ends) (λ e. cc)
      | inr goes_on ↦
          let later = next-later vmas i left vp ordered at goes_on in
          elim (Option-cases (get_elem? vmas vp.next)) [
            | inl out ↦ rw (unmap_chain, goes_on, out) (λ e. cc)
            | inr (next, there) ↦
                rw (unmap_chain, goes_on, there)
                  (unmap_chain-ends rounds vp.next vmas _ next _ _ _ _ ordered there
                    (omega (arith, later)))
          ]
    ]

find_vma-at :
    (i : ℕ) (vmas : List Vma) (addr : ℕ) {k : ℕ} {vma : Vma}
    → find_vma i vmas addr ≡ some (k, vma)
    → (j : ℕ) × (get_elem? vmas j ≡ some vma)
unfolding find_vma
find_vma-at i [] addr h = absurd (cc)
find_vma-at i (v ∷ vmas) addr {k} {vma} h =
    elim (Bool-cases (v.valid && leb v.addr addr && ltb addr v.end_addr)) [
      | inl found ↦
          let here : some (i, v) ≡ some (k, vma) = rw (found) at h in
          let same : v ≡ vma = cc in (0, ap some same)
      | inr other ↦
          let (j, there) = find_vma-at (suc i) vmas addr (rw (other) at h) in (suc j, there)
    ]

-- Where the continuation of every area stands in a later slot, `munmap` ends: as many rounds as there are
-- slots are enough for its loop.
pub munmap-ends :
    (table : ℕ → Bool) (space : Space) (addr size : ℕ)
    → Ordered space.vmas
    → munmap (length space.vmas) table space addr size ≢ endless
unfolding munmap
munmap-ends table space addr size ordered = elim (Option-cases (find_vma 0 space.vmas addr)) [
  | inl out ↦ rw (munmap, out) (λ e. cc)
  | inr (found, out) ↦
      let (j, there) = find_vma-at 0 space.vmas addr out in
      rw (munmap, out)
        (elim (Bool-cases (has_flag found.1.flags map_growsup && is_shared_file found.1.flags)) [
          | inl grown ↦ rw (grown) (
              unmap_chain-ends (length space.vmas) j space.vmas _ found.1 addr _ pgsize _ ordered
                there (omega arith))
          | inr single ↦ rw (single) (λ e. cc)
        ])
]
