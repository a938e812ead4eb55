-- ===== src/Wfs/Lookup.antt =====
-- `get_log_entry` and `Max_InodeNum` of p7/mount.wfs.c: walks over the whole log.
pub mod Latest
use cs537_operating_system_u.Base.{
  ℕ, suc, ◌+◌, List, [], ◌∷◌, Option, none, some, ◌==◌, if◌then◌else◌, ltb, ◌&&◌, Bool,
}
use cs537_operating_system_u.Wfs.Log.{Inode, LogEntry, Disk}

-- A pointer into the log: the index, and the entry there.
abbrev pub Found : Type 0
Found = ℕ × LogEntry

abbrev pub is_live : LogEntry → Bool
is_live e = e.inode.deleted == 0

abbrev pub matches : ℕ → LogEntry → Bool
matches ino e = e.inode.inode_number == ino && is_live e

-- The loop of `get_log_entry` from index `i` on, with the result so far.
unfoldable pub find_last : ℕ → ℕ → List LogEntry → Option Found → Option Found
find_last ino i [] res = res
find_last ino i (e ∷ es) res = find_last ino (suc i) es (if matches ino e then some (i, e) else res)

unfoldable pub get_log_entry : Disk → ℕ → Option Found
get_log_entry disk ino = find_last ino 0 disk.log none

unfoldable pub max_from : ℕ → List LogEntry → ℕ
max_from max_inode_num [] = max_inode_num
max_from max_inode_num (e ∷ es) =
    max_from
      (if ltb max_inode_num e.inode.inode_number && is_live e
        then e.inode.inode_number
        else max_inode_num)
      es

unfoldable pub max_inode_num : Disk → ℕ
max_inode_num disk = max_from 0 disk.log
