-- ===== src/Wfs/Lookup/Latest.antt =====
-- The log keeps every version of an inode; the walk finds the latest that is not deleted.
use cs537_operating_system_u.Base.{
  ℕ, suc, ◌+◌, ◌≤◌, ◌<◌, ◌≡◌, ◌⊎◌, refl, ap, sym, ◌∙◌, List, [], ◌∷◌, ◌++◌, Option, none, some,
  arith, if◌then◌else◌, ltb, ◌&&◌, true, false, Bool-cases, inl, inr, length, All,
}
use mathlib.Core.Path.{subst}
use native.Mathlib.Nat.{add-zero, add-suc, suc-add, zero-add}
use cs537_operating_system_u.Wfs.Log.{LogEntry, Disk}
use cs537_operating_system_u.Wfs.Lookup.{
  Found, matches, is_live, find_last, get_log_entry, max_from, max_inode_num,
}

pub find_last-append :
    (ino i : ℕ) (xs ys : List LogEntry) (res : Option Found)
    → find_last ino i (xs ++ ys) res ≡ find_last ino (i + length xs) ys (find_last ino i xs res)
unfolding find_last
find_last-append ino i [] ys res = rw add-zero
find_last-append ino i (x ∷ xs) ys res =
    rw (add-suc, ← suc-add)
      (find_last-append ino (suc i) xs ys (if matches ino x then some (i, x) else res))

-- Entries that do not match leave the result.
pub find_last-none :
    (ino i : ℕ) (xs : List LogEntry) (res : Option Found)
    → All (λ e. matches ino e ≡ false) xs
    → find_last ino i xs res ≡ res
unfolding find_last
find_last-none ino i [] res h = refl
find_last-none ino i (x ∷ xs) res h = rw h.0 (find_last-none ino (suc i) xs res h.1)

-- What `find_last` has found: an entry that matches, at its place, and no match behind it.
pub record IsLatest (ino : ℕ) (log : List LogEntry) (found : Found) : Type 0 where
  pub before : List LogEntry
  pub after : List LogEntry
  pub split : log ≡ before ++ found.1 ∷ after
  pub index : found.0 ≡ length before
  pub live : matches ino found.1 ≡ true
  pub newest : All (λ e. matches ino e ≡ false) after

-- Either nothing matches and the result stays, or the result is the latest match.
abbrev Searched : ℕ → ℕ → List LogEntry → Option Found → Option Found → Type 0
Searched ino i log res out =
    (All (λ e. matches ino e ≡ false) log × (out ≡ res))
    ⊎ ((found : Found) × (out ≡ some (i + found.0, found.1)) × IsLatest ino log found)

IsLatest-cons :
    (ino : ℕ) (e : LogEntry) (es : List LogEntry) (found : Found)
    → IsLatest ino es found
    → IsLatest ino (e ∷ es) (suc found.0, found.1)
IsLatest-cons ino e es found latest = record {
  before = e ∷ latest.before;
  after = latest.after;
  split = ap (λ l. e ∷ l) latest.split;
  index = ap suc latest.index;
  live = latest.live;
  newest = latest.newest;
}

shift_index :
    (i j : ℕ) (e : LogEntry) → ◌≡◌ {A = Option Found} (some (suc i + j, e)) (some (i + suc j, e))
shift_index i j e = ap (λ k. some (k, e)) (omega arith)

find_last-Searched :
    (ino i : ℕ) (log : List LogEntry) (res : Option Found)
    → Searched ino i log res (find_last ino i log res)
unfolding find_last
find_last-Searched ino i [] res = inl (tt, refl)
find_last-Searched ino i (e ∷ es) res = elim (Bool-cases (matches ino e)) [
  | inl hit ↦ rw hit (elim (find_last-Searched ino (suc i) es (some (i, e))) [
    | inl (others, out) ↦ inr (
      (0, e),
      out ∙ ap (λ k. some (k, e)) (sym (add-zero i)),
      record { before = []; after = es; split = refl; index = refl; live = hit; newest = others },
    )
    | inr (found, out, latest) ↦ inr (
      (suc found.0, found.1),
      out ∙ shift_index i found.0 found.1,
      IsLatest-cons ino e es found latest,
    )
  ])
  | inr miss ↦ rw miss (elim (find_last-Searched ino (suc i) es res) [
    | inl (others, out) ↦ inl ((refl, others), out)
    | inr (found, out, latest) ↦ inr (
      (suc found.0, found.1),
      out ∙ shift_index i found.0 found.1,
      IsLatest-cons ino e es found latest,
    )
  ])
]

-- `get_log_entry` gives the latest live entry of the inode, and NULL exactly if it has none.
pub get_log_entry-IsLatest :
    (disk : Disk) (ino : ℕ)
    → (All (λ e. matches ino e ≡ false) disk.log × (get_log_entry disk ino ≡ none))
      ⊎ ((found : Found) × (get_log_entry disk ino ≡ some found) × IsLatest ino disk.log found)
unfolding get_log_entry
get_log_entry-IsLatest disk ino = elim (find_last-Searched ino 0 disk.log none) [
  | inl (others, out) ↦ inl (others, out)
  | inr (found, out, latest) ↦ inr (found, out ∙ ap (λ k. some (k, found.1)) (omega arith), latest)
]

-- The latest entry of an inode in a log that ends in an entry of it, or of another one.
pub find_last-snoc :
    (ino : ℕ) (log : List LogEntry) (e : LogEntry)
    → find_last ino 0 (log ++ e ∷ []) none
      ≡ (if matches ino e then some (length log, e) else find_last ino 0 log none)
unfolding find_last
find_last-snoc ino log e = find_last-append ino 0 log (e ∷ []) none ∙ rw zero-add

max_from-ge : (n : ℕ) (es : List LogEntry) → n ≤ max_from n es
unfolding max_from
max_from-ge n [] = omega arith
max_from-ge n (e ∷ es) = ground (
  arith,
  max_from-ge (if ltb n e.inode.inode_number && is_live e then e.inode.inode_number else n) es,
)

abbrev pub Below : ℕ → LogEntry → Type 0
Below n e = is_live e ≡ true → e.inode.inode_number ≤ n

max_from-Below : (n : ℕ) (es : List LogEntry) → All (Below (max_from n es)) es
unfolding max_from
max_from-Below n [] = tt
max_from-Below n (e ∷ es) = (
  λ live. ground (
    arith,
    max_from-ge (if ltb n e.inode.inode_number && is_live e then e.inode.inode_number else n) es,
  ),
  max_from-Below (if ltb n e.inode.inode_number && is_live e then e.inode.inode_number else n) es,
)

-- No live inode has a number above `Max_InodeNum`.
max_inode_num-Below : (disk : Disk) → All (Below (max_inode_num disk)) disk.log
unfolding max_inode_num
max_inode_num-Below disk = max_from-Below 0 disk.log

All-map {ℓ κ μ} :
    {A : Type ℓ} {P : A → Type κ} {Q : A → Type μ}
    → ((x : A) → P x → Q x)
    → (xs : List A) → All P xs
    → All Q xs
All-map f [] h = tt
All-map f (x ∷ xs) h = (f x h.0, All-map f xs h.1)

-- A number above `Max_InodeNum` belongs to no live entry: `get_log_entry` does not find it.
pub get_log_entry-above :
    (disk : Disk) (n : ℕ) → max_inode_num disk < n → get_log_entry disk n ≡ none
unfolding get_log_entry
get_log_entry-above disk n above =
    find_last-none n 0 disk.log none
      (All-map (λ e below. ground (arith, below)) disk.log (max_inode_num-Below disk))

-- Where an entry is found, it is the latest.
pub get_log_entry-found :
    (disk : Disk) (ino : ℕ) {found : Found}
    → get_log_entry disk ino ≡ some found
    → IsLatest ino disk.log found
get_log_entry-found disk ino {found} e = elim (get_log_entry-IsLatest disk ino) [
  | inl (others, out) ↦ absurd (cc)
  | inr (found', out, latest) ↦
      let same : found' ≡ found = cc in subst (IsLatest ino disk.log) same latest
]

pub All-middle {ℓ κ} :
    {A : Type ℓ} (P : A → Type κ) (xs : List A) (y : A) (ys : List A) → All P (xs ++ y ∷ ys) → P y
All-middle P [] y ys h = h.0
All-middle P (x ∷ xs) y ys h = All-middle P xs y ys h.1

-- Each entry that is found has the number, is live, and has what all entries of the log have.
pub get_log_entry-All {κ} :
    (P : LogEntry → Type κ) (disk : Disk) (ino : ℕ) {found : Found}
    → All P disk.log
    → get_log_entry disk ino ≡ some found
    → P found.1 × (matches ino found.1 ≡ true)
get_log_entry-All P disk ino {found} h e =
    let latest = get_log_entry-found disk ino e in
    (All-middle P latest.before found.1 latest.after (subst (All P) latest.split h), latest.live)
