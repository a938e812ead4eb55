-- ===== src/Mmap.antt =====
-- Mapped memory of p5/xv6-public: `mmap` and the functions on areas of proc.c, and the page fault of
-- trap.c. An address is below 2 ^ 32, and a length at most 2 ^ 31 - 4096, since `PGROUNDUP` overflows
-- beyond it; sums of an address and a length wrap at 2 ^ 32 where the code compares them. `deallocuvm` and
-- `mappages` of vm.c are on a page table that gives the frame of each page. `none` is a panic of the kernel
-- or a NULL pointer that is used.
pub mod Region
pub mod Choose
pub mod Area
pub mod Fault
pub mod Grows
pub mod Share
pub mod Unmap
mod Tests
use cs537_operating_system_u.Base.{
  ℕ, zero, suc, ◌+◌, ◌-◌, ◌*◌, ◌/◌, ◌%◌, List, [], ◌∷◌, Option, none, some, ◌==◌, if◌then◌else◌,
  ltb, leb, ◌&&◌, ◌||◌, not, Bool, true, false, get_elem?, set, length, ◌>>=◌,
}

abbrev pub pgsize : ℕ
pgsize = 4096

-- 2 ^ 32
abbrev pub address_end : ℕ
address_end = 0x100000000

abbrev pub vma_start : ℕ
vma_start = 0x60000000

abbrev pub vma_end : ℕ
vma_end = 0x80000000

-- `struct VMA`; a file is a number.
pub record Vma : Type 0 where
  pub addr : ℕ
  pub end_addr : ℕ
  pub prot : ℕ
  pub flags : ℕ
  pub fd : ℕ
  pub offset : ℕ
  pub pf : Option ℕ
  pub valid : Bool
  pub next : ℕ

-- What a frame holds: what was there before, zeros, or a page of a file from an offset on.
pub data Content : Type 0 where
  old : Content
  zeros : Content
  from_file : ℕ → ℕ → Content

-- Of the process: its page table, the frames of memory, its areas, its open files, and which files have an inode:
-- `ilock` panics on the NULL of a pipe.
pub record Space : Type 0 where
  pub pgdir : ℕ → Option ℕ
  pub memory : ℕ → Content
  pub vmas : List Vma
  pub ofile : ℕ → Option ℕ
  pub has_inode : ℕ → Bool

-- What the kernel has for one page: no frame, a frame but no page for the page table, or both. A frame that
-- is given back holds what it held.
pub data Grant : Type 0 where
  no_frame : Grant
  no_table : Grant
  granted : ℕ → Grant

abbrev pub update {ℓ} : {A : Type ℓ} → (ℕ → A) → ℕ → A → ℕ → A
update f k a n = if n == k then a else f n

abbrev pub has_flag : ℕ → ℕ → Bool
has_flag flags flag = (flags / flag) % 2 == 1

abbrev pub map_anonymous : ℕ
map_anonymous = 4

abbrev pub map_fixed : ℕ
map_fixed = 8

abbrev pub map_growsup : ℕ
map_growsup = 16

abbrev pub is_present : (ℕ → Option ℕ) → ℕ → Bool
is_present pgdir page = elim (pgdir page) [ none ↦ false | some frame ↦ true ]

-- The loop over `n` pages from the address `a` on.
unfoldable pub all_absent : (ℕ → Option ℕ) → ℕ → ℕ → Bool
all_absent pgdir a zero = true
all_absent pgdir a (suc n) = elim (is_present pgdir (a / pgsize)) [
  | true ↦ false
  | false ↦ all_absent pgdir (a + pgsize) n
]

-- Where `start + size` wraps, `end` is below `start`, and the loop has no rounds.
unfoldable pub is_region_free : (ℕ → Option ℕ) → ℕ → ℕ → Bool
unfolding all_absent
is_region_free pgdir a n = if ltb (a + n * pgsize) address_end then all_absent pgdir a n else true

-- The search of `mmap` from `addr` on, in so many rounds: `none` if it comes to the end.
unfoldable pub find_region : (ℕ → Option ℕ) → ℕ → ℕ → ℕ → Option ℕ
find_region pgdir n zero addr = none
find_region pgdir n (suc rounds) addr = elim (is_region_free pgdir addr n) [
  | true ↦ some addr
  | false ↦ find_region pgdir n rounds (addr + pgsize)
]

-- The first slot from index `i` on whose address is 0.
unfoldable pub find_slot : ℕ → List Vma → Option ℕ
find_slot i [] = none
find_slot i (vma ∷ vmas) =
    let rest = find_slot (suc i) vmas in if vma.addr == 0 then some i else rest

-- `deallocuvm`: the pages from the rounded up new size on that begin below the old size.
unfoldable pub deallocuvm : (ℕ → Option ℕ) → ℕ → ℕ → ℕ → Option ℕ
deallocuvm pgdir old_size new_size page =
    if leb new_size (page * pgsize) && ltb (page * pgsize) old_size then none else pgdir page

-- `mappages` for one frame: an address inside a page needs the next page too, which gets the next frame.
unfoldable pub mappages : (ℕ → Option ℕ) → ℕ → ℕ → Option (ℕ → Option ℕ)
mappages pgdir a frame =
    let page = a / pgsize in
    let first = update pgdir page (some frame) in
    if is_present pgdir page
    then none
    else if a % pgsize == 0
    then some first
    else if is_present first (suc page)
    then none
    else some (update first (suc page) (some (suc frame)))

-- What a page of the new area holds; a file descriptor that is not open is used all the same, and so is a pipe.
unfoldable pub fill : Space → ℕ → ℕ → ℕ → Option Content
fill space flags fd i = if has_flag flags map_anonymous then some zeros else elim (space.ofile fd) [
  | none ↦ none
  | some file ↦ if space.has_inode file then some (from_file file i) else none
]

-- The loop of `mmap` over pages, from the offset `i` on: the space, and whether all pages are there.
unfoldable pub map_pages : (ℕ → Grant) → ℕ → ℕ → ℕ → ℕ → ℕ → Space → Option (Bool × Space)
unfolding mappages fill deallocuvm
map_pages grants flags fd addr i zero space = some (true, space)
map_pages grants flags fd addr i (suc n) space = elim (grants i) [
  | no_frame ↦ some (false, record space { pgdir = deallocuvm space.pgdir (addr + i) addr })
  | no_table ↦
      some (false, record space { pgdir = deallocuvm space.pgdir (addr + i + pgsize) addr })
  | granted frame ↦ elim (mappages space.pgdir (addr + i) frame) [
    | none ↦ none
    | some pgdir ↦ elim (fill space flags fd i) [
      | none ↦ none
      | some content ↦
          map_pages grants flags fd addr (i + pgsize) n
            (record space { pgdir = pgdir; memory = update space.memory frame content })
    ]
  ]
]

-- The address that `mmap` will use for `n` pages, `none` for -1.
unfoldable pub choose_addr : Space → ℕ → ℕ → ℕ → Option ℕ
choose_addr space addr flags n =
    if has_flag flags map_fixed
    then if ltb addr vma_start
        || ltb vma_end ((addr + n * pgsize) % address_end)
        || not (is_region_free space.pgdir addr n)
      then none
      else some addr
    else find_region space.pgdir n ((vma_end - vma_start) / pgsize) vma_start

-- The assignments to the slot at the end of `mmap`.
unfoldable pub fill_slot : Space → ℕ → ℕ → ℕ → ℕ → ℕ → ℕ → Vma → Vma
fill_slot space addr length prot flags fd offset vma = record vma {
  addr = addr;
  end_addr = addr + length;
  prot = prot;
  flags = flags;
  fd = fd;
  offset = offset;
  valid = true;
  pf = if has_flag flags map_anonymous then vma.pf else space.ofile fd;
}

-- From the search for a slot on.
unfoldable pub map_area : (ℕ → Grant) → Space → ℕ → ℕ → ℕ → ℕ → ℕ → ℕ → Option (Option ℕ × Space)
map_area grants space addr length prot flags fd offset = elim (find_slot 0 space.vmas) [
  | none ↦ some (none, space)
  | some slot ↦ elim (map_pages grants flags fd addr 0 ((length + 4095) / pgsize) space) [
    | none ↦ none
    | some mapped ↦ elim mapped.0 [
      | false ↦ some (none, mapped.1)
      | true ↦ elim (get_elem? mapped.1.vmas slot) [
        | none ↦ none
        | some vma ↦ some (
          some addr,
          record mapped.1 {
            vmas = set mapped.1.vmas slot (fill_slot space addr length prot flags fd offset vma);
          },
        )
      ]
    ]
  ]
]

-- The address, or `none` for -1, and the space; `grants i` is what the kernel has for the page at offset `i`.
unfoldable pub mmap : (ℕ → Grant) → Space → ℕ → ℕ → ℕ → ℕ → ℕ → ℕ → Option (Option ℕ × Space)
mmap grants space addr length prot flags fd offset =
    if length == 0
    then some (none, space)
    else elim (choose_addr space addr flags ((length + 4095) / pgsize)) [
      | none ↦ some (none, space)
      | some a ↦ map_area grants space a length prot flags fd offset
    ]
