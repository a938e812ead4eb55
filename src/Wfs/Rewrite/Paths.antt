-- ===== src/Wfs/Rewrite/Paths.antt =====
-- `my_write` and `wfs_unlink` by path.
use cs537_operating_system_u.Base.{ℕ, ◌+◌, ◌≤◌, ◌≡◌, List, some, false, length}
use cs537_operating_system_u.Base.Int.{pos}
use cs537_operating_system_u.Wfs.Log.{LogEntry, Disk, IsValid, inode_size}
use cs537_operating_system_u.Wfs.Path.{path_to_log_entry}
use cs537_operating_system_u.Wfs.Path.Walk.{path_to_log_entry-own}
use cs537_operating_system_u.Wfs.Create.{Caller, ok}
use cs537_operating_system_u.Wfs.Rewrite.{my_write, wfs_unlink, is_directory}
use cs537_operating_system_u.Wfs.Rewrite.Versions.{new_size, Written, write_found_lem}
use cs537_operating_system_u.Wfs.Rewrite.Unlink.{Unlinked, unlink_found_lem}

-- A write to a path that leads to an entry, at an offset that is not negative and with room for the
-- new version: it returns the number of bytes, and the new version is the latest of that inode.
pub my_write_lem :
    (disk : Disk) (caller : Caller) (path buffer : List ℕ) (offset i : ℕ) (current : LogEntry)
    → IsValid disk
    → path_to_log_entry disk path ≡ some (some (i, current))
    → disk.head + inode_size + new_size current offset buffer ≤ disk.disk_size
    → (disk' : Disk) × (my_write disk caller path buffer (pos offset)
        ≡ some (ok (length buffer) disk'))
      × Written disk caller current offset buffer current.inode.inode_number disk'
unfolding my_write
my_write_lem disk caller path buffer offset i current v found room = rw found (
    write_found_lem disk caller current offset buffer current.inode.inode_number i v
      (path_to_log_entry-own disk path found) room)

-- The unlink of a path that leads to a file marks its latest version. The lookup then gives the latest
-- live version before that one, so a file that was written since it was made is still there.
pub wfs_unlink_lem :
    (disk : Disk) (path : List ℕ) (i : ℕ) (entry : LogEntry)
    → IsValid disk
    → path_to_log_entry disk path ≡ some (some (i, entry))
    → is_directory entry.inode.mode ≡ false
    → (disk' : Disk) × (wfs_unlink disk path ≡ some (ok 0 disk'))
      × Unlinked disk entry.inode.inode_number i disk'
unfolding wfs_unlink
wfs_unlink_lem disk path i entry v found file =
    let (disk', e, unlinked) =
      unlink_found_lem disk entry.inode.inode_number i entry v
        (path_to_log_entry-own disk path found) file in
    (disk', rw (found, e), unlinked)
