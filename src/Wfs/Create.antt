-- ===== src/Wfs/Create.antt =====
-- `my_mknod` and `my_mkdir` of p7/mount.wfs.c. They differ in the file type bit and the order of
-- assignments alone, so both are `create` with their bit.
pub mod Fresh
pub mod Made
use Prim.Native.Nat.{bit_or}
use cs537_operating_system_u.Base.{
  ℕ, zero, suc, ◌+◌, List, [], ◌∷◌, ◌++◌, Option, none, some, ◌==◌, if◌then◌else◌, length, ◌>>=◌,
  Bool, true, false,
}
use cs537_operating_system_u.Wfs.Log.{
  Inode, LogEntry, Disk, append_entry, free_bytes, overwrite, encode_le, dentry_size,
  max_file_name_len, inode_size, u32,
}
use cs537_operating_system_u.Wfs.Lookup.{Found, max_inode_num}
use cs537_operating_system_u.Wfs.Path.{get_inode_number, find_parent_log_path, file_name, not_found}

-- What the program takes from the system: `getuid()` and `time(NULL)`.
pub record Caller : Type 0 where
  pub uid : ℕ
  pub now : ℕ

pub data Errno : Type 0 where
  enoent eexist eisdir : Errno

-- The result of an operation: the value it returns, and the disk.
pub data Reply : Type 0 where
  ok : ℕ → Disk → Reply
  err : Errno → Reply

abbrev pub s_ifreg : ℕ
s_ifreg = 0o100000

abbrev pub s_ifdir : ℕ
s_ifdir = 0o040000

-- The bytes of a new `wfs_dentry`: the number first, then `strcpy` of the name over the old bytes
-- `stale` of the name and, where it is too long, over the number.
unfoldable pub dentry_bytes : List ℕ → ℕ → List ℕ → Option (List ℕ)
dentry_bytes name num stale = overwrite (stale ++ encode_le 8 num) (name ++ 0 ∷ [])

-- The parent's new version, with one dentry more.
unfoldable pub with_dentry : Disk → LogEntry → List ℕ → ℕ → Option LogEntry
with_dentry disk parent name num = do
  dentry ←
      dentry_bytes name num
        (free_bytes disk.free (disk.head + inode_size + parent.inode.size) max_file_name_len)
  let inode = parent.inode
  some (record {
    inode = record inode { size = inode.size + dentry_size };
    bytes = parent.bytes ++ dentry;
  })

-- The new file's or directory's first version.
unfoldable pub new_entry : Caller → ℕ → ℕ → LogEntry
new_entry caller num mode = record {
  inode = record {
    inode_number = num;
    deleted = 0;
    mode = mode;
    uid = caller.uid;
    gid = caller.uid;
    flags = 0;
    size = 0;
    atime = u32 caller.now;
    mtime = u32 caller.now;
    ctime = u32 caller.now;
    links = 1;
  };
  bytes = [];
}

-- Both entries are written: the parent's, then the new one.
unfoldable pub add_entries : Disk → Caller → LogEntry → List ℕ → ℕ → ℕ → Option Disk
add_entries disk caller parent name num mode = do
  new_parent ← with_dentry disk parent name num
  disk' ← append_entry disk new_parent
  append_entry disk' (new_entry caller num mode)

-- `get_inode_number` dereferences a parent that is NULL.
unfoldable pub create : Disk → Caller → List ℕ → ℕ → Option Reply
create disk caller path mode = do
  parent_log ← find_parent_log_path disk path
  (i, parent) ← parent_log
  found ← get_inode_number (file_name path) parent
  let num = u32 (max_inode_num disk + 1)
  let created =
      add_entries disk caller parent (file_name path) num mode >>= λ disk'. some (ok 0 disk')
  if found == not_found then created else some (err eexist)

unfoldable pub my_mknod : Disk → Caller → List ℕ → ℕ → Option Reply
my_mknod disk caller path mode = create disk caller path (bit_or mode s_ifreg)

unfoldable pub my_mkdir : Disk → Caller → List ℕ → ℕ → Option Reply
my_mkdir disk caller path mode = create disk caller path (bit_or s_ifdir mode)
