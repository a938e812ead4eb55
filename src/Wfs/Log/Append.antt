-- ===== src/Wfs/Log/Append.antt =====
-- What a new entry at `head` changes: the lookups of its own inode, and the space that is left.
use cs537_operating_system_u.Base.{
  ℕ, ◌+◌, ◌≤◌, ◌≡◌, sym, List, [], ◌∷◌, ◌++◌, some, arith, if◌then◌else◌, leb, leb→le, length,
  Bool-cases, inl, inr, All,
}
use mathlib.Core.Path.{subst}
use cs537_operating_system_u.Wfs.Log.{
  LogEntry, Disk, append_entry, entry_size, log_size, IsWhole, IsValid,
}
use cs537_operating_system_u.Wfs.Lookup.{matches, get_log_entry}
use cs537_operating_system_u.Wfs.Lookup.Latest.{find_last-snoc}

log_size-append :
    (log : List LogEntry) (e : LogEntry) → log_size (log ++ e ∷ []) ≡ log_size log + entry_size e
log_size-append [] e = omega arith
log_size-append (x ∷ log) e = omega (arith, log_size-append log e)

pub All-snoc {ℓ κ} :
    {A : Type ℓ} (P : A → Type κ) (xs : List A) (x : A) → All P xs → P x → All P (xs ++ x ∷ [])
All-snoc P [] x h p = (p, tt)
All-snoc P (y ∷ xs) x h p = (h.0, All-snoc P xs x h.1 p)

-- The disk behind the new entry, where it fits.
abbrev pub appended : Disk → LogEntry → Disk
appended disk e = record disk { head = disk.head + entry_size e; log = disk.log ++ e ∷ [] }

pub append_entry-appended :
    (disk : Disk) (e : LogEntry)
    → IsValid disk
    → disk.head + entry_size e ≤ disk.disk_size
    → append_entry disk e ≡ some (appended disk e)
unfolding append_entry
append_entry-appended disk e v fits = ground (arith, v.small)

pub appended-IsValid :
    (disk : Disk) (e : LogEntry)
    → IsValid disk
    → IsWhole e
    → disk.head + entry_size e ≤ disk.disk_size
    → IsValid (appended disk e)
appended-IsValid disk e v w fits = record {
  head_eq = omega (arith, v.head_eq, log_size-append disk.log e);
  fits = fits;
  small = v.small;
  whole = All-snoc IsWhole disk.log e v.whole w;
}

-- A disk that takes a whole entry keeps the invariant: the walk over the log goes on to end at `head`.
pub append_entry-IsValid :
    (disk : Disk) (e : LogEntry) {disk' : Disk}
    → IsValid disk
    → IsWhole e
    → append_entry disk e ≡ some disk'
    → IsValid disk' × (disk' ≡ appended disk e)
unfolding append_entry
append_entry-IsValid disk e {disk'} v w h =
    elim (Bool-cases (leb (disk.head + entry_size e) disk.disk_size)) [
      | inl fits ↦
          let le : disk.head + entry_size e ≤ disk.disk_size = leb→le _ _ fits in
          let same : appended disk e ≡ disk' = ground (arith, append_entry-appended disk e v le) in
          (subst IsValid same (appended-IsValid disk e v w le), sym same)
      | inr full ↦ absurd (ground arith)
    ]

-- The new entry is the latest of its inode, and no other lookup changes.
pub get_log_entry-append :
    (disk : Disk) (e : LogEntry) (ino : ℕ)
    → get_log_entry (appended disk e) ino
      ≡ (if matches ino e then some (length disk.log, e) else get_log_entry disk ino)
unfolding get_log_entry
get_log_entry-append disk e ino = find_last-snoc ino disk.log e
