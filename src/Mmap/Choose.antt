-- ===== src/Mmap/Choose.antt =====
-- The address and the slot that `mmap` chooses.
use cs537_operating_system_u.Base.{
  ℕ, zero, suc, ◌+◌, ◌-◌, ◌*◌, ◌%◌, ◌≤◌, ◌<◌, ◌≡◌, ◌⊎◌, refl, ap, sym, ◌∙◌, List, [], ◌∷◌, Option,
  none, some, arith, tests, ◌==◌, ==_iff, if◌then◌else◌, ltb, leb, ◌||◌, not, Bool, true, false,
  Bool-cases, inl, inr, get_elem?,
}
use cs537_operating_system_u.Mmap.{
  pgsize, address_end, vma_start, vma_end, Vma, Space, has_flag, map_fixed, is_present,
  is_region_free, find_region, find_slot, choose_addr,
}
use cs537_operating_system_u.Mmap.Region.{IsFree, is_region_free-IsFree, next_page}

find_region_lem :
    (pgdir : ℕ → Option ℕ) (n rounds q : ℕ)
    → (q + rounds + n) * pgsize < address_end + pgsize
    → (find_region pgdir n rounds (q * pgsize) ≡ none)
      ⊎ ((r : ℕ) × (find_region pgdir n rounds (q * pgsize) ≡ some (r * pgsize))
          × (q ≤ r)
          × (r < q + rounds)
          × IsFree pgdir r n)
unfolding find_region
find_region_lem pgdir n zero q low = inl refl
find_region_lem pgdir n (suc rounds) q low =
    elim (Bool-cases (is_region_free pgdir (q * pgsize) n)) [
      | inl free ↦ inr (
        q,
        rw (find_region, free) refl,
        omega arith,
        omega arith,
        is_region_free-IsFree pgdir q n (omega arith) free,
      )
      | inr used ↦ elim (find_region_lem pgdir n rounds (suc q) (omega arith)) [
        | inl out ↦ inl (rw (find_region, used, next_page q) out)
        | inr (r, out, ge, lt, free) ↦
            inr (r, rw (find_region, used, next_page q) out, omega arith, omega arith, free)
      ]
    ]

pub find_slot_lem :
    (i : ℕ) (vmas : List Vma)
    → (find_slot i vmas ≡ none)
      ⊎ ((k : ℕ) × (vma : Vma) × (find_slot i vmas ≡ some (i + k))
          × (get_elem? vmas k ≡ some vma)
          × (vma.addr ≡ 0))
unfolding find_slot
find_slot_lem i [] = inl refl
find_slot_lem i (vma ∷ vmas) = elim (Bool-cases (vma.addr == 0)) [
  | inl free ↦
      let first : i ≡ i + 0 = omega arith in
      inr (0, vma, rw (free) (ap some first), refl, (==_iff vma.addr 0).0 free)
  | inr used ↦ elim (find_slot_lem (suc i) vmas) [
    | inl out ↦ inl (rw (used) out)
    | inr (k, v, out, at, zero_addr) ↦
        let same : suc i + k ≡ i + suc k = omega arith in
        inr (suc k, v, rw (used) (out ∙ ap some same), at, zero_addr)
  ]
]

-- An address for `n` pages: none of them is there, and all are in the region for mapped memory.
abbrev pub Suits : Space → ℕ → ℕ → Type 0
Suits space p n = (vma_start ≤ p * pgsize) × ((p + n) * pgsize ≤ vma_end) × IsFree space.pgdir p n

||-false : (a b : Bool) → (a || b) ≡ false → (a ≡ false) × (b ≡ false)
||-false true b h = absurd (cc)
||-false false b h = (refl, h)

not-false : (b : Bool) → not b ≡ false → b ≡ true
not-false true h = refl
not-false false h = absurd (cc)

ltb-false : (a b : ℕ) → ltb a b ≡ false → b ≤ a
ltb-false a b h = ground arith

abbrev pub Chosen : Space → ℕ → Option ℕ → Type 0
Chosen space n out = (out ≡ none) ⊎ ((p : ℕ) × (out ≡ some (p * pgsize)) × Suits space p n)

fixed_addr_lem :
    (space : Space) (q n : ℕ) (refused : Bool)
    → (q + n) * pgsize < address_end
    → (ltb (q * pgsize) vma_start
        || ltb vma_end ((q * pgsize + n * pgsize) % address_end)
        || not (is_region_free space.pgdir (q * pgsize) n))
      ≡ refused
    → Chosen space n (if refused then none else some (q * pgsize))
fixed_addr_lem space q n true low e = inl refl
fixed_addr_lem space q n false under e =
    let start = ltb (q * pgsize) vma_start in
    let end = ltb vma_end ((q * pgsize + n * pgsize) % address_end) in
    let used = not (is_region_free space.pgdir (q * pgsize) n) in
    let (low, free) = ||-false (start || end) used e in
    let (above_start, below_end) = ||-false start end low in
    let ge = ltb-false (q * pgsize) vma_start above_start in
    let le = ltb-false vma_end ((q * pgsize + n * pgsize) % address_end) below_end in
    inr (
      q,
      refl,
      (
        ge,
        omega (arith, le, under),
        is_region_free-IsFree space.pgdir q n under
            (not-false (is_region_free space.pgdir (q * pgsize) n) free),
      ),
    )

-- The search ends in front of a page that is there.
find_region-Chosen :
    (space : Space) (n : ℕ)
    → n * pgsize ≤ 0x80000000
    → is_present space.pgdir 0x80000 ≡ true
    → Chosen space n (find_region space.pgdir n 0x20000 vma_start)
find_region-Chosen space n short kernel =
    elim (find_region_lem space.pgdir n 0x20000 0x60000 (omega (arith, short))) [
      | inl out ↦ inl out
      | inr (r, out, ge, lt, free) ↦ inr (r, out, (omega (arith, ge), below_end r ge lt free, free))
    ]
  where
    below_end :
        (r : ℕ)
        → 0x60000 ≤ r
        → r < 0x60000 + 0x20000
        → IsFree space.pgdir r n
        → (r + n) * pgsize ≤ vma_end
    below_end r ge lt free = elim (Bool-cases (leb (r + n) 0x80000)) [
      | inl fits ↦ omega tests
      | inr over ↦
          let inside : 0x80000 - r < n = ground arith in
          let at : r + (0x80000 - r) ≡ 0x80000 = omega arith in
          let away = ap space.pgdir (sym at) ∙ free (0x80000 - r) inside in
          absurd (cc (rw (is_present, away) at kernel))
    ]

pub choose_addr_lem :
    (space : Space) (q flags n : ℕ)
    → n * pgsize ≤ 0x80000000
    → (has_flag flags map_fixed ≡ true → (q + n) * pgsize < address_end)
    → is_present space.pgdir 0x80000 ≡ true
    → Chosen space n (choose_addr space (q * pgsize) flags n)
unfolding choose_addr
choose_addr_lem space q flags n short below kernel = elim (Bool-cases (has_flag flags map_fixed)) [
  | inl fixed ↦ rw (fixed) (fixed_addr_lem space q n _ (below fixed) refl)
  | inr free ↦ rw (free) (find_region-Chosen space n short kernel)
]
