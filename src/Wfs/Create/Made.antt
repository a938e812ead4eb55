-- ===== src/Wfs/Create/Made.antt =====
-- `my_mknod` and `my_mkdir` as a whole: the file that they make is found by its name and number.
use cs537_operating_system_u.Base.{
  ℕ, ◌+◌, ◌^◌, ◌≤◌, ◌<◌, ◌≡◌, ◌≢◌, refl, ap, ◌∙◌, List, [], ◌∷◌, ◌++◌, none, some, arith, ◌==◌,
  length, true, false, All,
}
use cs537_operating_system_u.Wfs.Log.{
  LogEntry, Disk, entry_size, IsWhole, IsValid, dentry_size, max_file_name_len, inode_size, u32,
}
use cs537_operating_system_u.Wfs.Log.Append.{All-snoc}
use cs537_operating_system_u.Wfs.Lookup.{matches, get_log_entry, max_inode_num}
use cs537_operating_system_u.Wfs.Lookup.Latest.{get_log_entry-above}
use cs537_operating_system_u.Wfs.Path.{get_inode_number, find_parent_log_path, file_name, not_found}
use cs537_operating_system_u.Wfs.Path.Dentries.{
  Dentry, IsDentry, encode, encode_all, lookup, get_inode_number-eq-lookup, encode_all-append,
  lookup-append,
}
use cs537_operating_system_u.Wfs.Create.{Caller, ok, err, eexist, create}
use cs537_operating_system_u.Wfs.Create.Fresh.{
  IsDir, Looks, both, both-Looks, add_entries-both, new_parent, made, made-IsDentry, stale,
  length-stale,
}

ne-== : (a b : ℕ) → a ≢ b → (a == b) ≡ false
ne-== a b h = ground arith

-- The directory that the path's file goes into, as the lookups of the code find it.
pub record Parent (disk : Disk) (path : List ℕ) (parent : LogEntry) (ds : List Dentry)
    : Type 0 where
  pub index : ℕ
  pub number : ℕ
  pub resolved : find_parent_log_path disk path ≡ some (some (index, parent))
  pub latest : get_log_entry disk number ≡ some (index, parent)
  pub whole : IsWhole parent
  pub live : matches number parent ≡ true
  pub is_dir : IsDir parent ds

-- A new name that is short enough for the array, a free number, and room for both entries.
pub record CanMake (disk : Disk) (path : List ℕ) (parent : LogEntry) : Type 0 where
  pub no_nul : All (λ c. c ≢ 0) (file_name path)
  pub short : length (file_name path) < max_file_name_len
  pub number_left : max_inode_num disk + 1 < 2 ^ 32
  pub room : disk.head + entry_size parent + dentry_size + inode_size ≤ disk.disk_size

module _ (disk : Disk) (caller : Caller) (path : List ℕ) (mode : ℕ) (parent : LogEntry)
    (ds : List Dentry) where
  abbrev num : ℕ
  num = u32 (max_inode_num disk + 1)

  number_ne :
      Parent disk path parent ds → CanMake disk path parent → parent.inode.inode_number ≢ num
  number_ne p c e = cc (get_log_entry-above disk num above, p.latest, same)
    where
      above : max_inode_num disk < num
      above = omega (arith, c.number_left)

      same : p.number ≡ num
      same = ground (arith, p.live)

  create-both :
      IsValid disk
      → Parent disk path parent ds
      → CanMake disk path parent
      → lookup (file_name path) ds ≡ not_found
      → create disk caller path mode
        ≡ some (ok 0 (both disk caller parent (file_name path) num mode))
  unfolding create
  create-both v p c missing = rw (
    p.resolved,
    get_inode_number-eq-lookup (file_name path) ds parent p.is_dir.dentries p.is_dir.bytes_eq,
    missing,
    (add_entries-both disk caller parent (file_name path) num mode v c.short p.whole c.room).0,
  )

  new_parent-lookup :
      Parent disk path parent ds
      → CanMake disk path parent
      → lookup (file_name path) ds ≡ not_found
      → get_inode_number (file_name path) (new_parent disk parent (file_name path) num) ≡ some num
  new_parent-lookup p c missing =
      let d = made (file_name path) num (stale disk parent) in
      let bytes_eq : parent.bytes ++ encode d ≡ encode_all (ds ++ d ∷ []) =
        rw (encode_all-append ds d, p.is_dir.bytes_eq) in
      get_inode_number-eq-lookup (file_name path) (ds ++ d ∷ [])
        (new_parent disk parent (file_name path) num)
        (All-snoc IsDentry ds d p.is_dir.dentries (
          made-IsDentry (file_name path) num (stale disk parent) c.no_nul (length-stale disk parent)
            c.short (omega arith)))
        bytes_eq
      ∙ ap some (lookup-append (file_name path) ds d missing p.is_dir.dentries refl)

  -- A file that is not there yet is made: the call returns 0, the disk stays valid, the parent's latest
  -- version has the name with the new number, get_log_entry of that number gives the new entry, of the
  -- parent's number the parent's new version, and of every other inode number what it gave before.
  pub create_lem :
      IsValid disk
      → Parent disk path parent ds
      → CanMake disk path parent
      → lookup (file_name path) ds ≡ not_found
      → (disk' : Disk) × (create disk caller path mode ≡ some (ok 0 disk'))
        × IsValid disk'
        × Looks disk caller parent (file_name path) num mode disk'
        × (get_inode_number (file_name path) (new_parent disk parent (file_name path) num)
            ≡ some num)
  create_lem v p c missing = (
    both disk caller parent (file_name path) num mode,
    create-both v p c missing,
    (add_entries-both disk caller parent (file_name path) num mode v c.short p.whole c.room).1,
    both-Looks disk caller parent (file_name path) num mode (ground (arith, p.live))
        (number_ne p c),
    new_parent-lookup p c missing,
  )

  -- A name that the directory has already is refused, and nothing is written.
  pub create-eexist :
      Parent disk path parent ds
      → lookup (file_name path) ds ≢ not_found
      → create disk caller path mode ≡ some (err eexist)
  unfolding create
  create-eexist p there = rw (
    p.resolved,
    get_inode_number-eq-lookup (file_name path) ds parent p.is_dir.dentries p.is_dir.bytes_eq,
    ne-== (lookup (file_name path) ds) not_found there,
  )

-- A path whose parent does not exist makes the program read through NULL.
pub create-faults :
    (disk : Disk) (caller : Caller) (path : List ℕ) (mode : ℕ)
    → find_parent_log_path disk path ≡ some none
    → create disk caller path mode ≡ none
unfolding create
create-faults disk caller path mode e = rw e
