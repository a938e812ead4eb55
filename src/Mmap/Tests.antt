-- ===== src/Mmap/Tests.antt =====
-- Runs of `mmap` and of the copying of areas on a small process.
use cs537_operating_system_u.Base.{
  zero, suc, ◌≢◌, inl, ap, arith, replicate, get_elem?, ℕ, ◌+◌, ◌*◌, ◌/◌, ◌≡◌, refl, List, [], ◌∷◌,
  none, some, ◌==◌, if◌then◌else◌, leb, true, false, All, inr,
}
use cs537_operating_system_u.Mmap.{
  pgsize, Vma, old, Space, granted, fill_slot, mmap, is_region_free, mappages, all_absent,
  choose_addr, find_region, find_slot, map_area, map_pages, fill,
}
use cs537_operating_system_u.Mmap.Area.{Answered, mmap_lem}
use cs537_operating_system_u.Mmap.Fault.{
  page_fault, grow_area, find_grow, map_fault_page, update_vma_structure, copy_page_from_disk,
}
use cs537_operating_system_u.Mmap.Grows.{Faulted, page_fault_lem}
use cs537_operating_system_u.Mmap.Unmap.{Ordered, munmap, endless, munmap-ends}
use cs537_operating_system_u.Mmap.Share.{Inherits, copy_vmas, clean_vma, copy_vmas-clean_vma}

abbrev free_vma : Vma
free_vma = record {
  addr = 0;
  end_addr = 0;
  prot = 0;
  flags = 0;
  fd = 0;
  offset = 0;
  pf = none;
  valid = false;
  next = 0;
}

-- An area of one page at the start of the region, of file 5, that may grow.
abbrev used_vma : Vma
used_vma = record {
  addr = 0x60000000;
  end_addr = 0x60001000;
  prot = 3;
  flags = 18;
  fd = 3;
  offset = 0;
  pf = some 5;
  valid = true;
  next = 0;
}

abbrev vmas : List Vma
vmas = used_vma ∷ free_vma ∷ free_vma ∷ []

abbrev space : Space
space = record {
  pgdir =
      λ page. if leb 0x80000 page then some page else if page == 0x60000 then some 900 else none;
  memory = λ frame. old;
  vmas = vmas;
  ofile = λ fd. if fd == 3 then some 5 else none;
  has_inode = λ file. file == 5;
}

-- Two pages of file 5, with frames for both.
mmap_lem_example :
    Answered space
      ((5000 + 4095) / pgsize)
      (λ addr. fill_slot space addr 5000 3 2 3 0)
      (mmap (λ i. granted (1000 + i / pgsize)) space (0 * pgsize) 5000 3 2 3 0)
mmap_lem_example =
    mmap_lem (λ i. granted (1000 + i / pgsize)) space 0 5000 3 2 3 0 (omega arith)
      (λ fixed. absurd (cc (fixed))) refl (inr (5, refl, refl))

copy_vmas-clean_vma_example :
    (copied : List Vma) × (taken : List ℕ) × (copy_vmas vmas (free_vma ∷ free_vma ∷ free_vma ∷ [])
      ≡ some (copied, taken))
    × Inherits vmas (free_vma ∷ free_vma ∷ free_vma ∷ []) copied
    × ((clean_vma vmas).1 ≡ taken)
    × ((clean_vma copied).1 ≡ taken)
    × All (λ s. s.valid ≡ false) (clean_vma copied).0
copy_vmas-clean_vma_example =
    copy_vmas-clean_vma vmas (free_vma ∷ free_vma ∷ free_vma ∷ []) refl (refl, (refl, (refl, tt)))

-- A process with all its slots, of which the first one holds the area that may grow.
abbrev full_space : Space
full_space = record space { vmas = used_vma ∷ replicate 31 free_vma; ofile = λ fd. some 5 }

-- The page behind the area; it gets frame 901.
page_fault_lem_example :
    Faulted (granted 901) full_space 0x60001234 (page_fault (granted 901) full_space 0x60001234)
page_fault_lem_example =
    page_fault_lem (granted 901) full_space 0x60001234 refl
      (λ i vma at behind grows. inr (5, refl, refl)) refl

-- The area has grown: the page fault is not one that kills.
grown_vma : Vma
grown_vma = record used_vma { addr = 0x60001000; end_addr = 0x60002000; offset = 4096 }

fault-grows :
    (after : Space) × (page_fault (granted 901) full_space 0x60001234 ≡ some (false, after))
    × (after.pgdir 0x60001 ≡ some 901)
    × (get_elem? after.vmas 1 ≡ some grown_vma)
unfolding page_fault grow_area find_grow map_fault_page update_vma_structure copy_page_from_disk
    is_region_free mappages grown_vma
fault-grows = (_, refl, refl, refl)

abbrev link : ℕ → Vma → Vma
link next vma = record vma { next = next }

-- An area that has grown once.
abbrev chained : Space
chained = record space { vmas = link 1 used_vma ∷ free_vma ∷ [] }

chained-Ordered : Ordered chained.vmas
chained-Ordered zero vma e =
    let same : link 1 used_vma ≡ vma = cc in inr (omega (arith, ap (λ v. v.next) same))
chained-Ordered (suc zero) vma e =
    let same : free_vma ≡ vma = cc in inl (omega (arith, ap (λ v. v.next) same))
chained-Ordered (suc (suc i)) vma e = absurd (cc)

munmap-ends_example : munmap 2 (λ page. true) chained 0x60000000 8192 ≢ endless
munmap-ends_example = munmap-ends (λ page. true) chained 0x60000000 8192 chained-Ordered

-- The sum of address and length is 0: the checks of MAP_FIXED let it pass, and `mappages` finds the page of
-- the kernel.
fixed-wraps : mmap (λ i. granted 1000) space 0xfffff000 4096 3 12 0 0 ≡ none
unfolding mmap choose_addr map_area map_pages is_region_free mappages find_slot
fixed-wraps = refl

-- File 5 as a pipe: `ilock` is given its NULL.
mmap-pipe :
    mmap (λ i. granted 1000) (record space { has_inode = λ file. false }) 0 4096 3 2 3 0 ≡ none
unfolding mmap choose_addr find_region map_area map_pages fill is_region_free all_absent mappages
    find_slot
mmap-pipe = refl
