-- ===== src/Mmap/Fault.antt =====
-- The page fault of p5/xv6-public/trap.c, which lets an area grow by a page.
use cs537_operating_system_u.Base.{
  ℕ, zero, suc, ◌+◌, ◌-◌, ◌*◌, ◌/◌, ◌%◌, List, Option, none, some, ◌==◌, if◌then◌else◌, ltb, leb,
  ◌&&◌, ◌||◌, not, Bool, true, false, get_elem?, set,
}
use cs537_operating_system_u.Mmap.{
  pgsize, address_end, vma_start, vma_end, Vma, Content, zeros, from_file, Space, Grant, no_frame,
  no_table, granted, update, has_flag, map_anonymous, map_growsup, is_region_free, mappages,
}

-- Whether `vmas[i]` is there and valid.
abbrev pub is_valid_at : List Vma → ℕ → Bool
is_valid_at vmas i = elim (get_elem? vmas i) [ none ↦ false | some vma ↦ vma.valid ]

-- The loop over the slots from `i` on, `rounds` of them: the area that grows.
unfoldable pub find_grow : List Vma → ℕ → ℕ → ℕ → Option ℕ
find_grow vmas addr i zero = none
find_grow vmas addr i (suc rounds) = elim (ltb i 30 && is_valid_at vmas (i + 2)) [
  | true ↦ none
  | false ↦ elim (get_elem? vmas i) [
    | none ↦ none
    | some cur ↦ elim (leb cur.end_addr addr && ltb addr (cur.end_addr + pgsize)) [
      | true ↦ some i
      | false ↦ find_grow vmas addr (suc i) rounds
    ]
  ]
]

-- The slot behind that of `i`; the last one is its own.
abbrev pub next_slot : ℕ → ℕ
next_slot i = if i == 31 then 31 else suc i

unfoldable pub update_vma_structure : List Vma → ℕ → ℕ → Vma → Option (List Vma)
update_vma_structure vmas i next_idx grow =
    elim (get_elem? (set vmas i (record grow { next = next_idx })) next_idx) [
      | none ↦ none
      | some next ↦ some (
          set (set vmas i (record grow { next = next_idx })) next_idx (record next {
            addr = grow.addr + pgsize;
            end_addr = grow.end_addr + pgsize;
            prot = grow.prot;
            flags = grow.flags;
            fd = grow.fd;
            offset = grow.offset + pgsize;
            valid = true;
            pf = grow.pf;
          }))
    ]

-- The frame's content: zeros, or for an area with a file its second page.
unfoldable pub copy_page_from_disk : Space → ℕ → ℕ → Option Content
copy_page_from_disk space flags fd =
    if has_flag flags map_anonymous then some zeros else elim (space.ofile fd) [
      | none ↦ none
      | some file ↦ if space.has_inode file then some (from_file file pgsize) else none
    ]

-- The page table, which stays as it is if it has no room for the page.
unfoldable pub map_fault_page : Grant → Space → ℕ → Option (Bool × (ℕ → Option ℕ))
map_fault_page no_frame space a = some (false, space.pgdir)
map_fault_page no_table space a = some (true, space.pgdir)
map_fault_page (granted frame) space a = elim (mappages space.pgdir a frame) [
  | none ↦ none
  | some pgdir ↦ some (true, pgdir)
]

abbrev pub store_content : Grant → Space → Content → ℕ → Content
store_content (granted frame) space content = update space.memory frame content
store_content no_frame space content = space.memory
store_content no_table space content = space.memory

-- From the choice of the area on: whether the process is killed, and the space.
unfoldable pub grow_area : Grant → Space → ℕ → ℕ → Option (Bool × Space)
unfolding map_fault_page update_vma_structure copy_page_from_disk
grow_area grant space addr i = elim (get_elem? space.vmas i) [
  | none ↦ none
  | some grow ↦
      if not (has_flag grow.flags map_growsup)
      then some (true, space)
      else elim (map_fault_page grant space (addr / pgsize * pgsize)) [
        | none ↦ none
        | some mapped ↦ elim mapped.0 [
          | false ↦ some (true, space)
          | true ↦ elim (update_vma_structure space.vmas i (next_slot i) grow) [
            | none ↦ none
            | some vmas ↦ elim (copy_page_from_disk space grow.flags grow.fd) [
              | none ↦ none
              | some content ↦ some (
                false,
                record space {
                  pgdir = mapped.1;
                  vmas = vmas;
                  memory = store_content grant space content;
                },
              )
            ]
          ]
        ]
      ]
]

-- `killed`, and the space; a page fault at `addr`.
unfoldable pub page_fault : Grant → Space → ℕ → Option (Bool × Space)
unfolding grow_area find_grow
page_fault grant space addr =
    if ltb addr vma_start || ltb vma_end ((addr + pgsize) % address_end)
    then some (true, space)
    else if not (is_region_free space.pgdir ((addr + pgsize) % address_end) 1)
    then some (true, space)
    else if is_region_free space.pgdir (addr - pgsize) 1
    then some (true, space)
    else elim (find_grow space.vmas addr 0 32) [
      | none ↦ some (true, space)
      | some i ↦ grow_area grant space addr i
    ]
