-- ===== src/Wfs/Rewrite.antt =====
-- The operations of p7/mount.wfs.c on one entry: `my_getattr`, `my_read`, `my_write`, `wfs_unlink`.
pub mod Versions
pub mod Unlink
pub mod Paths
use Prim.Native.Nat.{bit_and}
use cs537_operating_system_u.Base.{
  ℕ, zero, suc, ◌+◌, ◌-◌, List, [], ◌∷◌, ◌++◌, Option, none, some, ◌==◌, if◌then◌else◌, ltb, length,
  take, drop, set, ◌>>=◌, Bool, true, false,
}
use cs537_operating_system_u.Base.Int.{ℤ, pos, negsuc}
use cs537_operating_system_u.Wfs.Log.{
  Inode, LogEntry, Disk, append_entry, free_bytes, overwrite, inode_size, u32,
}
use cs537_operating_system_u.Wfs.Lookup.{Found}
use cs537_operating_system_u.Wfs.Path.{path_to_log_entry}
use cs537_operating_system_u.Wfs.Create.{Caller, Errno, enoent, eisdir, Reply, ok, err, s_ifdir}

-- The fields of `struct stat` that `my_getattr` sets.
pub record Stat : Type 0 where
  pub st_size : ℕ
  pub st_nlink : ℕ
  pub st_mode : ℕ
  pub st_mtime : ℕ
  pub st_gid : ℕ
  pub st_uid : ℕ

-- The outer `none` is a fault, the inner one -ENOENT.
unfoldable pub my_getattr : Disk → List ℕ → Option (Option Stat)
my_getattr disk path = path_to_log_entry disk path >>= λ found. some (elim found [
  | none ↦ none
  | some (i, log) ↦ some (record {
    st_size = log.inode.size;
    st_nlink = log.inode.links;
    st_mode = log.inode.mode;
    st_mtime = log.inode.mtime;
    st_gid = log.inode.gid;
    st_uid = log.inode.uid;
  })
])

-- What `my_read` returns, and the bytes of the entry that it copied: where they are fewer than
-- `count`, it copied on from what the disk holds behind the entry.
pub record ReadBytes : Type 0 where
  pub count : ℕ
  pub bytes : List ℕ

unfoldable pub read_entry : LogEntry → ℕ → ℕ → ReadBytes
read_entry log size offset =
    if ltb offset log.inode.size
    then record { count = size; bytes = take size (drop offset log.bytes) }
    else record { count = 0; bytes = [] }

unfoldable pub my_read : Disk → List ℕ → ℕ → ℕ → Option (Option ReadBytes)
my_read disk path size offset = path_to_log_entry disk path >>= λ found.
    some (elim found [ none ↦ none | some (i, log) ↦ some (read_entry log size offset) ])

-- `buffer` written over `bytes` from an offset on, which the bytes reach.
unfoldable pub write_at : List ℕ → ℕ → List ℕ → Option (List ℕ)
write_at bytes offset buffer =
    overwrite (drop offset bytes) buffer >>= λ changed. some (take offset bytes ++ changed)

-- The entry's new version: its data, as far as `size` goes the free bytes of the disk, and the
-- buffer over them.
unfoldable pub new_version : Disk → ℕ → LogEntry → ℕ → List ℕ → Option LogEntry
new_version disk now current offset buffer =
    let inode = current.inode in
    let end_offset = offset + length buffer in
    let size = if ltb inode.size end_offset then end_offset else inode.size in
    let beyond = free_bytes disk.free (disk.head + inode_size + inode.size) (size - inode.size) in
    write_at (current.bytes ++ beyond) offset buffer >>= λ bytes.
    some (record { inode = record inode { size = size; mtime = u32 now }; bytes = bytes })

unfoldable pub write_found : Disk → Caller → List ℕ → ℕ → Option Found → Option Reply
write_found disk caller buffer offset none = some (err enoent)
write_found disk caller buffer offset (some (i, current)) = do
  version ← new_version disk caller.now current offset buffer
  disk' ← append_entry disk version
  some (ok (length buffer) disk')

unfoldable pub my_write : Disk → Caller → List ℕ → List ℕ → ℤ → Option Reply
my_write disk caller path buffer (negsuc n) = some (ok 0 disk)
my_write disk caller path buffer (pos offset) =
    path_to_log_entry disk path >>= λ found. write_found disk caller buffer offset found

abbrev pub is_directory : ℕ → Bool
is_directory mode = bit_and mode 0o170000 == s_ifdir

-- The entry with its `deleted` set.
abbrev pub delete_entry : LogEntry → LogEntry
delete_entry e = let inode = e.inode in record e { inode = record inode { deleted = 1 } }

unfoldable pub unlink_found : Disk → Option Found → Reply
unlink_found disk none = err enoent
unlink_found disk (some (i, file_entry)) =
    if is_directory file_entry.inode.mode
    then err eisdir
    else ok 0 (record disk { log = set disk.log i (delete_entry file_entry) })

unfoldable pub wfs_unlink : Disk → List ℕ → Option Reply
wfs_unlink disk path = path_to_log_entry disk path >>= λ found. some (unlink_found disk found)
