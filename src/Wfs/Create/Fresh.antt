-- ===== src/Wfs/Create/Fresh.antt =====
-- What `my_mknod` and `my_mkdir` leave on the disk.
use cs537_operating_system_u.Base.{
  ℕ, suc, ◌+◌, ◌^◌, ◌≤◌, ◌<◌, ◌≡◌, ◌≢◌, refl, ◌∙◌, List, [], ◌∷◌, ◌++◌, some, arith, ◌==◌,
  if◌then◌else◌, length, drop, true, All, append_assoc, length-append, length-drop, drop-append_le,
}
use native.Mathlib.Numerals.{add-one}
use cs537_operating_system_u.Wfs.Log.{
  LogEntry, Disk, entry_size, IsWhole, IsValid, free_bytes, encode_le, dentry_size,
  max_file_name_len, inode_size,
}
use cs537_operating_system_u.Wfs.Log.Bytes.{overwrite-append, length-free_bytes}
use cs537_operating_system_u.Wfs.Log.Append.{
  appended, append_entry-appended, appended-IsValid, get_log_entry-append,
}
use cs537_operating_system_u.Wfs.Lookup.{matches, is_live, get_log_entry}
use cs537_operating_system_u.Wfs.Path.Dentries.{
  Dentry, IsDentry, encode, encode_all, length-encode_le,
}
use cs537_operating_system_u.Wfs.Create.{Caller, dentry_bytes, with_dentry, new_entry, add_entries}

-- The dentry that the code writes, as data: the name, the old bytes behind it, the number.
abbrev pub made : List ℕ → ℕ → List ℕ → Dentry
made name num stale = record { name = name; junk = drop (length name + 1) stale; number = num }

-- A name that fits the array gives a dentry of that name and number.
dentry_bytes-encode :
    (name : List ℕ) (num : ℕ) (stale : List ℕ)
    → length stale ≡ max_file_name_len
    → length name < max_file_name_len
    → dentry_bytes name num stale ≡ some (encode (made name num stale))
unfolding dentry_bytes
dentry_bytes-encode name num stale full short =
    let len : length (name ++ 0 ∷ []) ≡ length name + 1 = length-append name (0 ∷ []) in
    overwrite-append (name ++ 0 ∷ []) (stale ++ encode_le 8 num)
      (omega (arith, len, length-append stale (encode_le 8 num)))
    ∙ rw (
      len,
      drop-append_le (length name + 1) stale (encode_le 8 num) (omega arith),
      append_assoc name (0 ∷ []),
    )

pub made-IsDentry :
    (name : List ℕ) (num : ℕ) (stale : List ℕ)
    → All (λ c. c ≢ 0) name
    → length stale ≡ max_file_name_len
    → length name < max_file_name_len
    → num < 2 ^ 32
    → IsDentry (made name num stale)
made-IsDentry name num stale no_nul full short small = record {
  no_nul = no_nul;
  name_size = omega (arith, length-drop (length name + 1) stale);
  number_small = small;
}

-- What stands in the new dentry's place before it is written.
abbrev pub stale : Disk → LogEntry → List ℕ
stale disk parent =
    free_bytes disk.free (disk.head + inode_size + parent.inode.size) max_file_name_len

pub length-stale :
    (disk : Disk) (parent : LogEntry) → length (stale disk parent) ≡ max_file_name_len
length-stale disk parent =
    length-free_bytes disk.free (disk.head + inode_size + parent.inode.size) max_file_name_len

-- The parent's new version.
abbrev pub new_parent : Disk → LogEntry → List ℕ → ℕ → LogEntry
new_parent disk parent name num =
    let inode = parent.inode in
    record {
      inode = record inode { size = inode.size + dentry_size };
      bytes = parent.bytes ++ encode (made name num (stale disk parent));
    }

with_dentry-new_parent :
    (disk : Disk) (parent : LogEntry) (name : List ℕ) (num : ℕ)
    → length name < max_file_name_len
    → with_dentry disk parent name num ≡ some (new_parent disk parent name num)
unfolding with_dentry
with_dentry-new_parent disk parent name num short =
    rw (dentry_bytes-encode name num (stale disk parent) (length-stale disk parent) short)

-- A directory: its data are dentries.
pub record IsDir (parent : LogEntry) (ds : List Dentry) : Type 0 where
  pub dentries : All IsDentry ds
  pub bytes_eq : parent.bytes ≡ encode_all ds

module _ (disk : Disk) (caller : Caller) (parent : LogEntry) (name : List ℕ) (num mode : ℕ) where
  -- The disk with both entries.
  abbrev pub both : Disk
  both = appended (appended disk (new_parent disk parent name num)) (new_entry caller num mode)

  new_parent-IsWhole :
      length name < max_file_name_len → IsWhole parent → IsWhole (new_parent disk parent name num)
  new_parent-IsWhole short w = omega (
    arith,
    w,
    length-append parent.bytes (encode (made name num (stale disk parent))),
    length-append name (0 ∷ (drop (length name + 1) (stale disk parent) ++ encode_le 8 num)),
    length-append (drop (length name + 1) (stale disk parent)) (encode_le 8 num),
    length-drop (length name + 1) (stale disk parent),
    length-stale disk parent,
    length-encode_le 8 num,
  )

  pub add_entries-both :
      IsValid disk
      → length name < max_file_name_len
      → IsWhole parent
      → disk.head + entry_size parent + dentry_size + inode_size ≤ disk.disk_size
      → (add_entries disk caller parent name num mode ≡ some both) × IsValid both
  unfolding add_entries new_entry
  add_entries-both v short w room =
      let whole = new_parent-IsWhole short w in
      let v' = appended-IsValid disk (new_parent disk parent name num) v whole (omega arith) in
      (
        rw
            (
              with_dentry-new_parent disk parent name num short,
              append_entry-appended disk (new_parent disk parent name num) v (omega arith),
            )
            (append_entry-appended (appended disk (new_parent disk parent name num))
              (new_entry caller num mode) v' (omega arith)),
        appended-IsValid (appended disk (new_parent disk parent name num))
            (new_entry caller num mode) v' refl (omega arith),
      )

new_entry-matches :
    (caller : Caller) (num mode ino : ℕ) → matches ino (new_entry caller num mode) ≡ (num == ino)
unfolding new_entry
new_entry-matches caller num mode ino = ground arith

matches-number : (ino : ℕ) (e : LogEntry) → matches ino e ≡ true → e.inode.inode_number ≡ ino
matches-number ino e h = ground arith

-- The lookups on the disk with both entries.
pub record Looks (disk : Disk) (caller : Caller) (parent : LogEntry) (name : List ℕ) (num mode : ℕ)
    (disk' : Disk) : Type 0 where
  pub own : get_log_entry disk' num ≡ some (suc (length disk.log), new_entry caller num mode)
  pub dir :
      get_log_entry disk' parent.inode.inode_number
      ≡ some (length disk.log, new_parent disk parent name num)
  pub others :
      (ino : ℕ)
      → ino ≢ num
      → ino ≢ parent.inode.inode_number
      → get_log_entry disk' ino ≡ get_log_entry disk ino

module _ (disk : Disk) (caller : Caller) (parent : LogEntry) (name : List ℕ) (num mode : ℕ) where
  get_log_entry-both :
      (ino : ℕ)
      → get_log_entry (both disk caller parent name num mode) ino ≡ (
          if num == ino
          then some (suc (length disk.log), new_entry caller num mode)
          else if matches ino (new_parent disk parent name num)
          then some (length disk.log, new_parent disk parent name num)
          else get_log_entry disk ino)
  get_log_entry-both ino = rw (
    get_log_entry-append (appended disk (new_parent disk parent name num))
        (new_entry caller num mode) ino,
    new_entry-matches caller num mode ino,
    get_log_entry-append disk (new_parent disk parent name num) ino,
    length-append disk.log (new_parent disk parent name num ∷ []),
    add-one,
  )

  pub both-Looks :
      is_live parent ≡ true
      → parent.inode.inode_number ≢ num
      → Looks disk caller parent name num mode (both disk caller parent name num mode)
  both-Looks live ne = record {
    own = get_log_entry-both num ∙ ground arith;
    dir = get_log_entry-both parent.inode.inode_number ∙ ground arith;
    others = λ ino ne_num ne_parent. get_log_entry-both ino ∙ ground arith;
  }
