-- ===== src/Mmap/Area.antt =====
-- `mmap` as a whole: the area it records, and what it leaves where it fails.
use cs537_operating_system_u.Base.{
  ℕ, ◌+◌, ◌-◌, ◌*◌, ◌≤◌, ◌<◌, ◌/◌, ◌≡◌, ◌⊎◌, refl, ap, ◌∙◌, Option, none, some, arith, ◌==◌, Bool,
  true, false, Bool-cases, inl, inr, get_elem?, set,
}
use mathlib.Core.Path.{subst}
use cs537_operating_system_u.Mmap.{
  pgsize, address_end, has_flag, map_fixed, Vma, Space, Grant, is_present, find_slot, map_pages,
  fill_slot, map_area, mmap,
}
use cs537_operating_system_u.Mmap.Region.{Mapped, HasFile, Leaves, map_pages_lem}
use cs537_operating_system_u.Mmap.Choose.{Suits, find_slot_lem, choose_addr_lem}

-- `mmap` failed: the page table and the areas are as before.
pub record Failed (space after : Space) : Type 0 where
  pub same_vmas : after.vmas ≡ space.vmas
  pub same_pages : (page : ℕ) → after.pgdir page ≡ space.pgdir page

-- `mmap` gave the address of `n` pages that were not there before: these and no others have been added, and
-- the area is in a slot that was free.
pub record Served (space after : Space) (addr n : ℕ) (area : Vma → Vma) : Type 0 where
  pub page : ℕ
  pub addr_eq : addr ≡ page * pgsize
  pub suits : Suits space page n
  pub mapped : Mapped space.pgdir after.pgdir page n
  pub slot : ℕ
  pub vma : Vma
  pub at : (get_elem? space.vmas slot ≡ some vma) × (vma.addr ≡ 0)
  pub vmas_eq : after.vmas ≡ set space.vmas slot (area vma)

Mapped-nothing : (old : ℕ → Option ℕ) (p : ℕ) → Mapped old old p 0
Mapped-nothing old p = record {
  present = λ k lt. absurd (omega (arith, lt));
  below = λ page lt. refl;
  above = λ page ge. refl;
}

-- What `mmap` may leave.
abbrev pub Answered : Space → ℕ → (ℕ → Vma → Vma) → Option (Option ℕ × Space) → Type 0
Answered space n area outcome =
    (reply : Option ℕ) × (after : Space) × (outcome ≡ some (reply, after))
    × (((reply ≡ none) × Failed space after)
        ⊎ ((addr : ℕ) × (reply ≡ some addr) × Served space after addr n (area addr)))

module _ (grants : ℕ → Grant) (space : Space) (p length prot flags fd offset : ℕ)
    (suits : Suits space p ((length + 4095) / pgsize)) where
  abbrev area : ℕ → Vma → Vma
  area addr = fill_slot space addr length prot flags fd offset

  map_area-slot :
      (k : ℕ) (vma : Vma)
      → find_slot 0 space.vmas ≡ some k
      → get_elem? space.vmas k ≡ some vma
      → vma.addr ≡ 0
      → (all_mapped : Bool) (after : Space)
      → map_pages grants flags fd (p * pgsize) 0 ((length + 4095) / pgsize) space
        ≡ some (all_mapped, after)
      → after.vmas ≡ space.vmas
      → Leaves all_mapped space.pgdir after.pgdir p ((length + 4095) / pgsize)
      → Answered space
          ((length + 4095) / pgsize)
          area
          (map_area grants space (p * pgsize) length prot flags fd offset)
  unfolding map_area
  map_area-slot k vma out at zero_addr false after ran same leaves = (
    none,
    after,
    rw (map_area, out, ran) refl,
    inl (refl, record { same_vmas = same; same_pages = leaves }),
  )
  map_area-slot k vma out at zero_addr true after ran same leaves =
      let there = ap (λ l. get_elem? l k) same ∙ at in
      (
        some (p * pgsize),
        record after { vmas = set after.vmas k (area (p * pgsize) vma) },
        rw (map_area, out, ran, there) refl,
        inr (
          p * pgsize,
          refl,
          record {
            page = p;
            addr_eq = refl;
            suits = suits;
            mapped = leaves;
            slot = k;
            vma = vma;
            at = (at, zero_addr);
            vmas_eq = ap (λ l. set l k (area (p * pgsize) vma)) same;
          },
        ),
      )

  map_area_lem :
      HasFile space flags fd
      → Answered space
          ((length + 4095) / pgsize)
          area
          (map_area grants space (p * pgsize) length prot flags fd offset)
  unfolding map_area
  map_area_lem file = elim (find_slot_lem 0 space.vmas) [
    | inl out ↦ (
      none,
      space,
      rw (map_area, out) refl,
      inl (refl, record { same_vmas = refl; same_pages = λ page. refl }),
    )
    | inr (k, vma, out, at, zero_addr) ↦
        let n = (length + 4095) / pgsize in
        let same : 0 + k ≡ k = omega arith in
        let total : 0 + n ≡ n = omega arith in
        let r =
          map_pages_lem grants flags fd p 0 n space.pgdir space file
            (λ j lt. suits.2 j (omega (arith, lt))) (Mapped-nothing space.pgdir p) in
        map_area-slot k vma (out ∙ ap some same) at zero_addr r.all_mapped r.after r.ran r.same_vmas
          (subst (λ j. Leaves r.all_mapped space.pgdir r.after.pgdir p j) total r.leaves)
  ]

-- `mmap`, with an address that is a multiple of the page size, a length that can be rounded up to pages in
-- an int, and an open file with an inode if the flags ask for one, does not panic while the kernel is
-- mapped behind the region, if with MAP_FIXED the address and the length stay below 2 ^ 32. It gives -1
-- with page table and areas as they were; or an address in the region for all pages of the length, none of
-- which was there before. Then these pages and no others are added, and a slot that was free holds the
-- area.
pub mmap_lem :
    (grants : ℕ → Grant) (space : Space) (q length prot flags fd offset : ℕ)
    → length ≤ 0x80000000 - pgsize
    → (has_flag flags map_fixed ≡ true → (q + (length + 4095) / pgsize) * pgsize < address_end)
    → is_present space.pgdir 0x80000 ≡ true
    → HasFile space flags fd
    → Answered space
        ((length + 4095) / pgsize)
        (λ addr. fill_slot space addr length prot flags fd offset)
        (mmap grants space (q * pgsize) length prot flags fd offset)
unfolding mmap
mmap_lem grants space q length prot flags fd offset short below kernel file =
    elim (Bool-cases (length == 0)) [
      | inl nothing ↦ (
        none,
        space,
        rw (mmap, nothing) refl,
        inl (refl, record { same_vmas = refl; same_pages = λ page. refl }),
      )
      | inr some_length ↦
          elim (choose_addr_lem space q flags ((length + 4095) / pgsize) (omega (arith, short))
            below kernel) [
              | inl out ↦ (
                none,
                space,
                rw (mmap, some_length, out) refl,
                inl (refl, record { same_vmas = refl; same_pages = λ page. refl }),
              )
              | inr (p, out, suits) ↦
                  rw (mmap, some_length, out)
                    (map_area_lem grants space p length prot flags fd offset suits file)
            ]
    ]
