-- ===== src/Wfs/Readdir.antt =====
-- `my_readdir` of p7/mount.wfs.c. FUSE's `filler` is a parameter: whether it takes one more name
-- where it has taken some already (its result 0).
pub mod Listing
use cs537_operating_system_u.Base.{
  ℕ, zero, suc, ◌+◌, List, [], ◌∷◌, ◌++◌, Option, none, some, ◌==◌, if◌then◌else◌, length, drop,
  ◌>>=◌, Bool, true, false,
}
use cs537_operating_system_u.Base.CString.{chars, c_str}
use cs537_operating_system_u.Wfs.Log.{
  LogEntry, Disk, dentry_size, max_file_name_len, decode_le, u32,
}
use cs537_operating_system_u.Wfs.Lookup.{Found, get_log_entry}
use cs537_operating_system_u.Wfs.Path.{path_to_log_entry, find_parent_log_path}

-- A name given to `filler`, with the fields of `struct stat` that are set.
pub record Listed : Type 0 where
  pub name : List ℕ
  pub st_ino : ℕ
  pub st_mode : ℕ

abbrev pub Filler : Type 0
Filler = List Listed → Listed → Bool

-- The loop over the rest of the directory's data, with the names that the filler has; the entry of a
-- number that has none is NULL, which is a fault.
unfoldable pub fill_dentries : ℕ → Disk → Filler → List Listed → List ℕ → Option (List Listed)
fill_dentries zero disk filler listed bytes = some listed
fill_dentries (suc fuel) disk filler listed [] = some listed
fill_dentries (suc fuel) disk filler listed (b ∷ bytes) = do
  number ← decode_le 8 (drop max_file_name_len (b ∷ bytes))
  (i, entry) ← get_log_entry disk (u32 number)
  let entry_listed : Listed = record {
    name = c_str (b ∷ bytes);
    st_ino = number;
    st_mode = entry.inode.mode;
  }
  let after = drop dentry_size (b ∷ bytes)
  let skipped = fill_dentries fuel disk filler listed after
  let further = fill_dentries fuel disk filler (listed ++ entry_listed ∷ []) after
  if entry.inode.deleted == 0
      then if filler listed entry_listed then further else some listed
      else skipped

-- `.`, `..` and the directory's names. A call whose result is not 0 ends the listing.
unfoldable pub list_dir : Disk → Filler → LogEntry → LogEntry → Option (List Listed)
list_dir disk filler current parent =
    let dot : Listed = record {
      name = chars ".";
      st_ino = current.inode.inode_number;
      st_mode = current.inode.mode;
    } in
    let dotdot : Listed = record {
      name = chars "..";
      st_ino = parent.inode.inode_number;
      st_mode = parent.inode.mode;
    } in
    let further =
      fill_dentries (length current.bytes) disk filler (dot ∷ dotdot ∷ []) current.bytes in
    if filler [] dot then if filler (dot ∷ []) dotdot then further else some (dot ∷ []) else some []

-- The inner `none` is -ENOENT.
unfoldable pub my_readdir : Disk → Filler → List ℕ → Option (Option (List Listed))
my_readdir disk filler path = do
  current ← path_to_log_entry disk path
  parent ← find_parent_log_path disk path
  elim current [
    | none ↦ some none
    | some (i, current_log) ↦ elim parent [
      | none ↦ some none
      | some (j, parent_log) ↦
          list_dir disk filler current_log parent_log >>= λ listed. some (some listed)
    ]
  ]
