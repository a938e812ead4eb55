-- ===== src/Wfs/Rewrite/Unlink.antt =====
-- `wfs_unlink` marks one version of the file, the latest: the one before it takes its place.
use cs537_operating_system_u.Base.{
  ℕ, ◌+◌, ◌≡◌, ◌≢◌, refl, ap, sym, ◌∙◌, List, [], ◌∷◌, ◌++◌, none, some, arith, length, take, set,
  set-append, take-length, true, false, All,
}
use mathlib.Core.Path.{subst}
use cs537_operating_system_u.Wfs.Log.{LogEntry, Disk, log_size, IsWhole, IsValid}
use cs537_operating_system_u.Wfs.Lookup.{matches, find_last, get_log_entry}
use cs537_operating_system_u.Wfs.Lookup.Latest.{
  get_log_entry-found, find_last-append, find_last-none,
}
use cs537_operating_system_u.Wfs.Create.{ok}
use cs537_operating_system_u.Wfs.Rewrite.{is_directory, delete_entry, unlink_found}

-- The disk with one entry marked.
abbrev pub marked : Disk → ℕ → LogEntry → Disk
marked disk i e = record disk { log = set disk.log i (delete_entry e) }

delete_entry-matches : (ino : ℕ) (e : LogEntry) → matches ino (delete_entry e) ≡ false
delete_entry-matches ino e = ground arith

log_size-middle :
    (xs : List LogEntry) (e : LogEntry) (ys : List LogEntry)
    → log_size (xs ++ delete_entry e ∷ ys) ≡ log_size (xs ++ e ∷ ys)
log_size-middle [] e ys = refl
log_size-middle (x ∷ xs) e ys = omega (arith, log_size-middle xs e ys)

All-middle_marked :
    (xs : List LogEntry) (e : LogEntry) (ys : List LogEntry)
    → All IsWhole (xs ++ e ∷ ys)
    → All IsWhole (xs ++ delete_entry e ∷ ys)
All-middle_marked [] e ys h = h
All-middle_marked (x ∷ xs) e ys h = (h.0, All-middle_marked xs e ys h.1)

-- Behind the marked entry nothing of the inode is live: the search comes to what it has before it.
find_last-marked :
    (ino : ℕ) (xs : List LogEntry) (e : LogEntry) (ys : List LogEntry)
    → All (λ y. matches ino y ≡ false) ys
    → find_last ino 0 (xs ++ delete_entry e ∷ ys) none ≡ find_last ino 0 xs none
find_last-marked ino xs e ys newest =
    find_last-append ino 0 xs (delete_entry e ∷ ys) none
    ∙ find_last-none ino (0 + length xs) (delete_entry e ∷ ys) (find_last ino 0 xs none)
        (delete_entry-matches ino e, newest)

-- The search for another inode passes over the entry, marked or not.
find_last-other :
    (x : ℕ) (xs : List LogEntry) (e : LogEntry) (ys : List LogEntry)
    → matches x e ≡ false
    → find_last x 0 (xs ++ delete_entry e ∷ ys) none ≡ find_last x 0 (xs ++ e ∷ ys) none
find_last-other x xs e ys miss =
    find_last-append x 0 xs (delete_entry e ∷ ys) none
    ∙ step
    ∙ sym (find_last-append x 0 xs (e ∷ ys) none)
  where
    step :
        find_last x (0 + length xs) (delete_entry e ∷ ys) (find_last x 0 xs none)
        ≡ find_last x (0 + length xs) (e ∷ ys) (find_last x 0 xs none)
    step = unfold find_last in rw (miss, delete_entry-matches x e)

-- What an unlink leaves: a valid disk, on which the inode's latest version is the latest one before
-- the version that was marked, and no other inode has changed.
pub record Unlinked (disk : Disk) (ino i : ℕ) (disk' : Disk) : Type 0 where
  pub valid : IsValid disk'
  pub previous : get_log_entry disk' ino ≡ find_last ino 0 (take i disk.log) none
  pub others : (x : ℕ) → x ≢ ino → get_log_entry disk' x ≡ get_log_entry disk x

module _ (disk : Disk) (ino i : ℕ) (e : LogEntry) (before after : List LogEntry)
    (split : disk.log ≡ before ++ e ∷ after) (index : i ≡ length before) where
  log_marked : set disk.log i (delete_entry e) ≡ before ++ delete_entry e ∷ after
  log_marked = rw (split, index) (set-append before e (delete_entry e) after)

  take_before : take i disk.log ≡ before
  take_before = rw (split, index) (take-length (length before) before (e ∷ after) refl)

  marked-IsValid : IsValid disk → IsValid (marked disk i e)
  marked-IsValid v = record {
    head_eq = omega (
      arith,
      v.head_eq,
      log_size-middle before e after,
      ap log_size split,
      ap log_size log_marked,
    );
    fits = v.fits;
    small = v.small;
    whole = rw log_marked (All-middle_marked before e after (subst (All IsWhole) split v.whole));
  }

  marked-Unlinked :
      IsValid disk
      → matches ino e ≡ true
      → All (λ y. matches ino y ≡ false) after
      → Unlinked disk ino i (marked disk i e)
  unfolding get_log_entry
  marked-Unlinked v live newest = record {
    valid = marked-IsValid v;
    previous = rw (log_marked, take_before) (find_last-marked ino before e after newest);
    others = λ x ne. rw log_marked (
        find_last-other x before e after (ground (arith, live))
        ∙ sym (ap (λ l. find_last x 0 l none) split));
  }

-- The unlink of a file that was found marks its latest version. `get_log_entry` then gives the
-- latest live version before that one, so a file that was written since it was made is still there.
pub unlink_found_lem :
    (disk : Disk) (ino i : ℕ) (e : LogEntry)
    → IsValid disk
    → get_log_entry disk ino ≡ some (i, e)
    → is_directory e.inode.mode ≡ false
    → (disk' : Disk) × (unlink_found disk (some (i, e)) ≡ ok 0 disk') × Unlinked disk ino i disk'
unlink_found_lem disk ino i e v found file =
    let latest = get_log_entry-found disk ino found in
    (
      marked disk i e,
      unfold unlink_found in rw file,
      marked-Unlinked disk ino i e latest.before latest.after latest.split latest.index v
          latest.live latest.newest,
    )
