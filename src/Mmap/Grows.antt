-- ===== src/Mmap/Grows.antt =====
-- What the page fault of p5/xv6-public/trap.c leaves: an area with a page more, or a killed process.
use mathlib.Core.Path.{subst}
use cs537_operating_system_u.Base.{
  ℕ, zero, suc, ◌+◌, ◌-◌, ◌*◌, ◌/◌, ◌%◌, ◌≤◌, ◌<◌, ◌≡◌, ◌≢◌, ◌⊎◌, ◌∙◌, refl, sym, List, [], ◌∷◌,
  Option, none, some, arith, ltb, leb, ◌&&◌, ◌||◌, Bool, true, false, Bool-cases, Option-cases, inl,
  inr, get_elem?, set, length, length-set, get_elem?-lt, get_elem?-set_self, get_elem?-set_ne,
}
use cs537_operating_system_u.Mmap.{
  pgsize, address_end, vma_start, vma_end, Vma, Content, zeros, from_file, Space, Grant, no_frame,
  no_table, granted, update, has_flag, map_anonymous, map_growsup, is_region_free,
}
use cs537_operating_system_u.Mmap.Region.{HasFile, mappages_lem, update-other, update-same}
use cs537_operating_system_u.Mmap.Fault.{
  is_valid_at, find_grow, next_slot, update_vma_structure, copy_page_from_disk, map_fault_page,
  store_content, grow_area, page_fault,
}

-- The faulting address stands in the page behind the area.
abbrev pub IsBehind : Vma → ℕ → Type 0
IsBehind vma addr = (vma.end_addr ≤ addr) × (addr < vma.end_addr + pgsize)

find_grow-IsBehind :
    (vmas : List Vma) (addr i rounds : ℕ) {k : ℕ}
    → find_grow vmas addr i rounds ≡ some k
    → (vma : Vma) × (get_elem? vmas k ≡ some vma) × IsBehind vma addr
unfolding find_grow
find_grow-IsBehind vmas addr i zero e = absurd (cc)
find_grow-IsBehind vmas addr i (suc rounds) {k} e =
    elim (Bool-cases (ltb i 30 && is_valid_at vmas (i + 2))) [
      | inl used ↦ absurd (cc (rw (find_grow, used) at (e)))
      | inr unused ↦ elim (Option-cases (get_elem? vmas i)) [
        | inl out ↦ absurd (cc (rw (find_grow, unused, out) at (e)))
        | inr (cur, here) ↦
            elim (Bool-cases (leb cur.end_addr addr && ltb addr (cur.end_addr + pgsize))) [
              | inl behind ↦
                  let same : i ≡ k = cc (rw (find_grow, unused, here, behind) at (e)) in
                  subst (λ j. (vma : Vma) × (get_elem? vmas j ≡ some vma) × IsBehind vma addr) same
                    (cur, here, ground (arith, behind))
              | inr away ↦
                  find_grow-IsBehind vmas addr (suc i) rounds
                    (rw (find_grow, unused, here, away) at (e))
            ]
      ]
    ]

-- The area `vma` one page further.
abbrev pub IsContinuation : Vma → Vma → Type 0
IsContinuation vma next =
    (next.addr ≡ vma.addr + pgsize)
    × (next.end_addr ≡ vma.end_addr + pgsize)
    × (next.valid ≡ true)
    × (next.pf ≡ vma.pf)

-- The slot behind `i` holds the continuation, and the slots other than these two are as before.
pub record Continued (vmas vmas' : List Vma) (i : ℕ) (vma : Vma) : Type 0 where
  pub next : Vma
  pub there : get_elem? vmas' (next_slot i) ≡ some next
  pub further : IsContinuation vma next
  pub others : (j : ℕ) → j ≢ i → j ≢ next_slot i → get_elem? vmas' j ≡ get_elem? vmas j

get_elem?-there {ℓ} :
    {A : Type ℓ} (xs : List A) (i : ℕ) → i < length xs → (x : A) × (get_elem? xs i ≡ some x)
get_elem?-there [] i h = absurd (omega (arith, h))
get_elem?-there (x ∷ xs) zero h = (x, refl)
get_elem?-there (x ∷ xs) (suc i) h = get_elem?-there xs i (omega (arith, h))

next_slot-lt : (i : ℕ) → i < 32 → next_slot i < 32
next_slot-lt i less = ground (arith, less)

update_vma_structure-Continued :
    (vmas : List Vma) (i : ℕ) (vma : Vma)
    → length vmas ≡ 32
    → i < 32
    → (vmas' : List Vma) × (update_vma_structure vmas i (next_slot i) vma ≡ some vmas')
      × Continued vmas vmas' i vma
unfolding update_vma_structure
update_vma_structure-Continued vmas i vma size less =
    let linked = set vmas i (record vma { next = next_slot i }) in
    let inside : next_slot i < length linked =
      omega
        (arith, next_slot-lt i less, size, length-set vmas i (record vma { next = next_slot i })) in
    let (old, here) = get_elem?-there linked (next_slot i) inside in
    let next : Vma = record old {
      addr = vma.addr + pgsize;
      end_addr = vma.end_addr + pgsize;
      prot = vma.prot;
      flags = vma.flags;
      fd = vma.fd;
      offset = vma.offset + pgsize;
      valid = true;
      pf = vma.pf;
    } in
    (
      set linked (next_slot i) next,
      rw (update_vma_structure, here) refl,
      record {
        next = next;
        there = get_elem?-set_self linked (next_slot i) next inside;
        further = (refl, refl, refl, refl);
        others = λ j other behind.
            get_elem?-set_ne linked next (λ e. behind (sym e))
            ∙ get_elem?-set_ne vmas (record vma { next = next_slot i }) (λ e. other (sym e));
      },
    )

-- The page table has the page in the frame that was granted, if there was room for it, and else is as before.
abbrev pub Has : Grant → (ℕ → Option ℕ) → (ℕ → Option ℕ) → ℕ → Type 0
Has (granted frame) old new page = (new page ≡ some frame) × ((q : ℕ) → q ≢ page → new q ≡ old q)
Has no_table old new page = (q : ℕ) → new q ≡ old q
Has no_frame old new page = (q : ℕ) → new q ≡ old q

map_fault_page-Has :
    (grant : Grant) (space : Space) (page : ℕ)
    → space.pgdir page ≡ none
    → (pgdir : ℕ → Option ℕ) × (enough : Bool) × (map_fault_page grant space (page * pgsize)
        ≡ some (enough, pgdir))
      × Has grant space.pgdir pgdir page
      × ((enough ≡ true) ⊎ (pgdir ≡ space.pgdir))
unfolding map_fault_page
map_fault_page-Has no_frame space page away = (space.pgdir, false, refl, (λ q. refl), inr refl)
map_fault_page-Has no_table space page away = (space.pgdir, true, refl, (λ q. refl), inl refl)
map_fault_page-Has (granted frame) space page away = (
  update space.pgdir page (some frame),
  true,
  rw (map_fault_page, mappages_lem space.pgdir page frame away) refl,
  (
    update-same space.pgdir page page (some frame) refl,
    (λ q other. update-other space.pgdir page q (some frame) other),
  ),
  inl refl,
)

copy_page_lem :
    (space : Space) (flags fd : ℕ)
    → HasFile space flags fd
    → (content : Content) × (copy_page_from_disk space flags fd ≡ some content)
unfolding copy_page_from_disk
copy_page_lem space flags fd (inl anonymous) = (zeros, rw (anonymous) refl)
copy_page_lem space flags fd (inr (file, opened, inode)) =
    elim (Bool-cases (has_flag flags map_anonymous)) [
      | inl anonymous ↦ (zeros, rw (anonymous) refl)
      | inr backed ↦ (from_file file pgsize, rw (copy_page_from_disk, backed, opened, inode) refl)
    ]

-- An area of the space, behind whose end `addr` stands, has grown by the page of `addr`.
pub record Grew (grant : Grant) (space after : Space) (addr : ℕ) : Type 0 where
  pub index : ℕ
  pub vma : Vma
  pub at : get_elem? space.vmas index ≡ some vma
  pub behind : IsBehind vma addr
  pub may_grow : has_flag vma.flags map_growsup ≡ true
  pub continued : Continued space.vmas after.vmas index vma
  pub page : Has grant space.pgdir after.pgdir (addr / pgsize)

-- The process is killed and nothing else is changed, or it goes on with a page more.
abbrev pub Faulted : Grant → Space → ℕ → Option (Bool × Space) → Type 0
Faulted grant space addr outcome =
    (outcome ≡ some (true, space))
    ⊎ ((after : Space) × (outcome ≡ some (false, after)) × Grew grant space after addr)

grow_area-Faulted :
    (grant : Grant) (space : Space) (addr i : ℕ) (vma : Vma)
    → length space.vmas ≡ 32
    → get_elem? space.vmas i ≡ some vma
    → IsBehind vma addr
    → (has_flag vma.flags map_growsup ≡ true → HasFile space vma.flags vma.fd)
    → space.pgdir (addr / pgsize) ≡ none
    → Faulted grant space addr (grow_area grant space addr i)
unfolding grow_area
grow_area-Faulted grant space addr i vma size here behind file away =
    elim (Bool-cases (has_flag vma.flags map_growsup)) [
      | inr fixed ↦ inl (rw (grow_area, here, fixed) refl)
      | inl grows ↦
          let (pgdir, enough, mapped, has, same) =
            map_fault_page-Has grant space (addr / pgsize) away in
          elim (Bool-cases enough) [
            | inr short ↦ inl (rw (grow_area, here, grows, mapped, short) refl)
            | inl room ↦
                let less : i < 32 = omega (arith, size, get_elem?-lt space.vmas i here) in
                let (vmas, updated, continued) =
                  update_vma_structure-Continued space.vmas i vma size less in
                let (content, copied) = copy_page_lem space vma.flags vma.fd (file grows) in
                let after : Space = record space {
                  pgdir = pgdir;
                  vmas = vmas;
                  memory = store_content grant space content;
                } in
                inr (
                  after,
                  rw (grow_area, here, grows, mapped, room, updated, copied) refl,
                  record {
                    index = i;
                    vma = vma;
                    at = here;
                    behind = behind;
                    may_grow = grows;
                    continued = continued;
                    page = has;
                  },
                )
          ]
    ]

-- A page fault at an address whose page is absent, in a process with 32 slots, does not panic if each slot
-- that may grow and ends within a page before the address is anonymous or has its file open, with an inode:
-- the process is killed with its areas and pages as they were, or such a slot goes on in the next slot one
-- page further and no slot but these two is changed. Then the page of the address is the only one that is
-- new if the kernel has a frame and room in the page table for it; where it has a frame and no room, no
-- page is new.
pub page_fault_lem :
    (grant : Grant) (space : Space) (addr : ℕ)
    → length space.vmas ≡ 32
    → ((i : ℕ) (vma : Vma)
        → get_elem? space.vmas i ≡ some vma
        → IsBehind vma addr
        → has_flag vma.flags map_growsup ≡ true
        → HasFile space vma.flags vma.fd)
    → space.pgdir (addr / pgsize) ≡ none
    → Faulted grant space addr (page_fault grant space addr)
unfolding page_fault
page_fault_lem grant space addr size files away =
    elim (Bool-cases (ltb addr vma_start || ltb vma_end ((addr + pgsize) % address_end))) [
      | inl outside ↦ inl (rw (page_fault, outside) refl)
      | inr inside ↦
          elim (Bool-cases (is_region_free space.pgdir ((addr + pgsize) % address_end) 1)) [
            | inr used ↦ inl (rw (page_fault, inside, used) refl)
            | inl free ↦ elim (Bool-cases (is_region_free space.pgdir (addr - pgsize) 1)) [
              | inl alone ↦ inl (rw (page_fault, inside, free, alone) refl)
              | inr joined ↦ elim (Option-cases (find_grow space.vmas addr 0 32)) [
                | inl nowhere ↦ inl (rw (page_fault, inside, free, joined, nowhere) refl)
                | inr (i, found) ↦
                    let (vma, here, behind) = find_grow-IsBehind space.vmas addr 0 32 found in
                    rw (page_fault, inside, free, joined, found)
                      (grow_area-Faulted grant space addr i vma size here behind
                        (files i vma here behind) away)
              ]
            ]
          ]
    ]
