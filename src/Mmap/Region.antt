-- ===== src/Mmap/Region.antt =====
-- The pages that `mmap` maps, and what it leaves where it fails.
use cs537_operating_system_u.Base.{
  ℕ, zero, suc, ◌+◌, ◌-◌, ◌*◌, ◌/◌, ◌%◌, ◌≤◌, ◌<◌, ◌≡◌, ◌≢◌, ◌⊎◌, refl, ap, ap₂, sym, ◌∙◌, Option,
  none, some, arith, ◌==◌, ==_iff, ltb, leb, ◌&&◌, Bool, true, false, Bool-cases, Option-cases, inl,
  inr, ℕ_discrete,
}
use mathlib.Core.Path.{subst}
use cs537_operating_system_u.Mmap.{
  pgsize, Content, zeros, from_file, Space, Grant, no_frame, no_table, granted, update, has_flag,
  map_anonymous, is_present, address_end, all_absent, is_region_free, deallocuvm, mappages, fill,
  map_pages,
}

-- No page from `p` on, `n` of them, is there.
abbrev pub IsFree : (ℕ → Option ℕ) → ℕ → ℕ → Type 0
IsFree pgdir p n = (k : ℕ) → k < n → pgdir (p + k) ≡ none

is_present-none :
    (pgdir : ℕ → Option ℕ) (page : ℕ) → is_present pgdir page ≡ false → pgdir page ≡ none
is_present-none pgdir page h = elim (Option-cases (pgdir page)) [
  | inl out ↦ out
  | inr (frame, at) ↦ absurd (cc (rw (is_present, at) at h))
]

first_page : (p : ℕ) → (p * pgsize) / pgsize ≡ p
first_page p = omega arith

pub next_page : (p : ℕ) → p * pgsize + pgsize ≡ suc p * pgsize
next_page p = omega arith

all_absent-suc :
    (pgdir : ℕ → Option ℕ) (p n : ℕ)
    → all_absent pgdir (p * pgsize) (suc n)
      ≡ elim (is_present pgdir p) [ true ↦ false | false ↦ all_absent pgdir (suc p * pgsize) n ]
unfolding all_absent
all_absent-suc pgdir p n =
    ap₂ (λ q b. elim (is_present pgdir q) [ true ↦ false | false ↦ all_absent pgdir b n ])
      (first_page p) (next_page p)

all_absent-IsFree :
    (pgdir : ℕ → Option ℕ) (p n : ℕ) → all_absent pgdir (p * pgsize) n ≡ true → IsFree pgdir p n
all_absent-IsFree pgdir p zero h k below = absurd (omega arith)
all_absent-IsFree pgdir p (suc n) h k below =
    go (all_absent-IsFree pgdir (suc p) n) (is_present pgdir p) refl
      (sym (all_absent-suc pgdir p n) ∙ h) k below
  where
    go :
        (all_absent pgdir (suc p * pgsize) n ≡ true → IsFree pgdir (suc p) n)
        → (there : Bool) → is_present pgdir p ≡ there
        → elim there [ true ↦ false | false ↦ all_absent pgdir (suc p * pgsize) n ] ≡ true
        → (k : ℕ) → k < suc n
        → pgdir (p + k) ≡ none
    go ih true e h k below = absurd (cc)
    go ih false e h zero below =
        let same : p + 0 ≡ p = omega arith in ap pgdir same ∙ is_present-none pgdir p e
    go ih false e h (suc k) below =
        let same : p + suc k ≡ suc p + k = omega arith in ap pgdir same ∙ ih h k (omega arith)

pub is_region_free-IsFree :
    (pgdir : ℕ → Option ℕ) (p n : ℕ)
    → (p + n) * pgsize < address_end
    → is_region_free pgdir (p * pgsize) n ≡ true
    → IsFree pgdir p n
unfolding is_region_free
is_region_free-IsFree pgdir p n below h =
    let inside : ltb (p * pgsize + n * pgsize) address_end ≡ true = ground (arith, below) in
    all_absent-IsFree pgdir p n (rw (is_region_free, inside) at (h))

-- `new` has the `n` pages from `p` on besides those of `old`.
pub record Mapped (old new : ℕ → Option ℕ) (p n : ℕ) : Type 0 where
  pub present : (k : ℕ) → k < n → (frame : ℕ) × (new (p + k) ≡ some frame)
  pub below : (page : ℕ) → page < p → new page ≡ old page
  pub above : (page : ℕ) → p + n ≤ page → new page ≡ old page

abbrev inside : ℕ → ℕ → ℕ → Bool
inside p m page = leb (p * pgsize) (page * pgsize) && ltb (page * pgsize) ((p + m) * pgsize)

inside-le : (p m page : ℕ) → inside p m page ≡ true → (p ≤ page) × (page < p + m)
inside-le p m page h = ground arith

outside-lt : (p m page : ℕ) → inside p m page ≡ false → (page < p) ⊎ (p + m ≤ page)
outside-lt p m page h = ground arith

deallocuvm-restores :
    (old new : ℕ → Option ℕ) (p j m : ℕ)
    → Mapped old new p j
    → IsFree old p m
    → j ≤ m
    → (page : ℕ) → deallocuvm new ((p + m) * pgsize) (p * pgsize) page ≡ old page
unfolding deallocuvm
deallocuvm-restores old new p j m mapped free le page = elim (Bool-cases (inside p m page)) [
  | inl yes_inside ↦ rw (yes_inside) (
      let (ge, lt) = inside-le p m page yes_inside in
      let at : p + (page - p) ≡ page = omega (arith, ge) in
      sym (free (page - p) (omega (arith, ge, lt))) ∙ ap old at)
  | inr outside ↦ rw (outside) (elim (outside-lt p m page outside) [
    | inl lt ↦ mapped.below page lt
    | inr ge ↦ mapped.above page (omega arith)
  ])
]

pub mappages_lem :
    (pgdir : ℕ → Option ℕ) (q frame : ℕ)
    → pgdir q ≡ none
    → mappages pgdir (q * pgsize) frame ≡ some (update pgdir q (some frame))
unfolding mappages
mappages_lem pgdir q frame away =
    let rest : (q * pgsize) % pgsize ≡ 0 = omega arith in
    let aligned : ((q * pgsize) % pgsize == 0) ≡ true = (==_iff ((q * pgsize) % pgsize) 0).1 rest in
    let absent : is_present pgdir q ≡ false = rw (is_present, away) refl in
    rw (mappages, first_page q, absent, aligned) refl

pub update-other : (f : ℕ → Option ℕ) (k n : ℕ) (a : Option ℕ) → n ≢ k → update f k a n ≡ f n
update-other f k n a ne = let other : (n == k) ≡ false = ground arith in rw (other) refl

pub update-same : (f : ℕ → Option ℕ) (k n : ℕ) (a : Option ℕ) → n ≡ k → update f k a n ≡ a
update-same f k n a e = rw ((==_iff n k).1 e) refl

-- One page more.
Mapped-update :
    (old new : ℕ → Option ℕ) (p j frame : ℕ)
    → Mapped old new p j
    → Mapped old (update new (p + j) (some frame)) p (suc j)
Mapped-update old new p j frame mapped = record {
  present = λ k lt. elim (ℕ_discrete k j) [
    | yes same ↦ (frame, update-same new (p + j) (p + k) (some frame) (omega (arith, same)))
    | no other ↦
        let (g, at) = mapped.present k (ground arith) in
        (g, update-other new (p + j) (p + k) (some frame) (λ e. other (omega (arith, e))) ∙ at)
  ];
  below = λ page lt.
      update-other new (p + j) page (some frame) (λ e. absurd (omega (arith, e, lt)))
      ∙ mapped.below page lt;
  above = λ page ge.
      update-other new (p + j) page (some frame) (λ e. absurd (omega (arith, e, ge)))
      ∙ mapped.above page (omega (arith, ge));
}

-- An area that needs no file, or whose file is open and has an inode.
abbrev pub HasFile : Space → ℕ → ℕ → Type 0
HasFile space flags fd =
    (has_flag flags map_anonymous ≡ true)
    ⊎ ((file : ℕ) × (space.ofile fd ≡ some file) × (space.has_inode file ≡ true))

fill_lem :
    (space : Space) (flags fd i : ℕ)
    → HasFile space flags fd
    → (content : Content) × (fill space flags fd i ≡ some content)
unfolding fill
fill_lem space flags fd i (inl anonymous) = (zeros, rw (anonymous) refl)
fill_lem space flags fd i (inr (file, opened, inode)) =
    elim (Bool-cases (has_flag flags map_anonymous)) [
      | inl anonymous ↦ (zeros, rw (anonymous) refl)
      | inr backed ↦ (from_file file i, rw (fill, backed, opened, inode) refl)
    ]

-- What the page table is after the loop: with the pages, or as it was.
abbrev pub Leaves : Bool → (ℕ → Option ℕ) → (ℕ → Option ℕ) → ℕ → ℕ → Type 0
Leaves true old new p n = Mapped old new p n
Leaves false old new p n = (page : ℕ) → new page ≡ old page

pub record Ran (old : ℕ → Option ℕ) (space : Space) (p n : ℕ) (outcome : Option (Bool × Space))
    : Type 0 where
  pub all_mapped : Bool
  pub after : Space
  pub ran : outcome ≡ some (all_mapped, after)
  pub same_vmas : after.vmas ≡ space.vmas
  pub leaves : Leaves all_mapped old after.pgdir p n

pub map_pages_lem :
    (grants : ℕ → Grant) (flags fd p j n : ℕ) (old : ℕ → Option ℕ) (space : Space)
    → HasFile space flags fd
    → IsFree old p (j + n)
    → Mapped old space.pgdir p j
    → Ran old space p (j + n) (map_pages grants flags fd (p * pgsize) (j * pgsize) n space)
unfolding map_pages
map_pages_lem grants flags fd p j zero old space file free mapped =
    let same : j ≡ j + 0 = omega arith in
    record {
      all_mapped = true;
      after = space;
      ran = refl;
      same_vmas = refl;
      leaves = subst (λ k. Mapped old space.pgdir p k) same mapped;
    }
map_pages_lem grants flags fd p j (suc n) old space file free mapped =
    go
      (λ next file' mapped'.
        map_pages_lem grants flags fd p (suc j) n old next file' (λ k lt. free k (omega arith))
          mapped')
      (grants (j * pgsize)) refl
  where
    go :
        ((next : Space)
          → HasFile next flags fd
          → Mapped old next.pgdir p (suc j)
          → Ran old next p
              (suc j + n)
              (map_pages grants flags fd (p * pgsize) (suc j * pgsize) n next))
        → (grant : Grant) → grants (j * pgsize) ≡ grant
        → Ran old space p
            (j + suc n)
            (map_pages grants flags fd (p * pgsize) (j * pgsize) (suc n) space)
    go ih no_frame e =
        let at : p * pgsize + j * pgsize ≡ (p + j) * pgsize = omega arith in
        record {
          all_mapped = false;
          after = record space {
            pgdir = deallocuvm space.pgdir (p * pgsize + j * pgsize) (p * pgsize);
          };
          ran = rw (map_pages, e) refl;
          same_vmas = refl;
          leaves = λ page.
              ap (λ a. deallocuvm space.pgdir a (p * pgsize) page) at
              ∙ deallocuvm-restores old space.pgdir p j j mapped (λ k lt. free k (omega arith))
                  (omega arith) page;
        }
    go ih no_table e =
        let at : p * pgsize + j * pgsize + pgsize ≡ (p + suc j) * pgsize = omega arith in
        record {
          all_mapped = false;
          after = record space {
            pgdir = deallocuvm space.pgdir (p * pgsize + j * pgsize + pgsize) (p * pgsize);
          };
          ran = rw (map_pages, e) refl;
          same_vmas = refl;
          leaves = λ page.
              ap (λ a. deallocuvm space.pgdir a (p * pgsize) page) at
              ∙ deallocuvm-restores old space.pgdir p j (suc j) mapped
                  (λ k lt. free k (omega arith)) (omega arith) page;
        }
    go ih (granted frame) e =
        let at : p * pgsize + j * pgsize ≡ (p + j) * pgsize = omega arith in
        let away = mapped.above (p + j) (omega arith) ∙ free j (omega arith) in
        let (content, filled) = fill_lem space flags fd (j * pgsize) file in
        let pgdir = update space.pgdir (p + j) (some frame) in
        let next = record space { pgdir = pgdir; memory = update space.memory frame content } in
        let r = ih next file (Mapped-update old space.pgdir p j frame mapped) in
        let one = next_page j in
        let total : suc j + n ≡ j + suc n = omega arith in
        let made =
          ap (λ a. mappages space.pgdir a frame) at ∙ mappages_lem space.pgdir (p + j) frame away in
        record {
          all_mapped = r.all_mapped;
          after = r.after;
          ran = rw (map_pages, e, made, filled, one) r.ran;
          same_vmas = r.same_vmas;
          leaves = subst (λ k. Leaves r.all_mapped old r.after.pgdir p k) total r.leaves;
        }
