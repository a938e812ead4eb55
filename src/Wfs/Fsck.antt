-- ===== src/Wfs/Fsck.antt =====
-- p7/fsck.wfs.c, which moves the entries that are not deleted to the front of the log. The disk is its bytes;
-- `none` is an access outside the mapping. Opening and mapping the file succeed.
pub mod Faults
mod Tests
use cs537_operating_system_u.Base.{
  ℕ, zero, suc, ◌+◌, List, ◌++◌, Option, none, some, ◌==◌, if◌then◌else◌, ltb, leb, length, take,
  drop, ◌>>=◌, true, false,
}
use cs537_operating_system_u.Wfs.Log.{sb_size, inode_size, u32, overwrite, encode_le, decode_le}

-- `sizeof(struct wfs_log_entry)`: its array `data` counts for nothing.
abbrev pub block_size : ℕ
block_size = inode_size

-- `inode.deleted` of the entry at an offset.
unfoldable pub deleted_at : List ℕ → ℕ → Option ℕ
deleted_at disk offset = decode_le 4 (drop (offset + 4) disk)

-- Bytes written over the disk from an offset on.
unfoldable pub write_at : List ℕ → ℕ → List ℕ → Option (List ℕ)
write_at disk offset bytes = do
  tail ← overwrite (drop offset disk) bytes
  some (take offset disk ++ tail)

-- `memcpy` of the inode at `read_offset` to `write_offset`.
unfoldable pub move_entry : List ℕ → ℕ → ℕ → Option (List ℕ)
unfolding write_at
move_entry disk write_offset read_offset =
    if leb (read_offset + block_size) (length disk)
    then write_at disk write_offset (take block_size (drop read_offset disk))
    else none

-- One round of the loop: the disk and `write_offset`.
unfoldable pub visit : List ℕ → ℕ → ℕ → Option (List ℕ × ℕ)
unfolding deleted_at move_entry
visit disk read_offset write_offset = deleted_at disk read_offset >>= λ deleted.
    let moved = move_entry disk write_offset read_offset >>= λ disk'.
    some (disk', write_offset + block_size) in
    if deleted == 0
    then if read_offset == write_offset then some (disk, read_offset + block_size) else moved
    else some (disk, write_offset)

-- The loop, in at most so many rounds.
unfoldable pub compact : ℕ → ℕ → List ℕ → ℕ → ℕ → Option (List ℕ × ℕ)
unfolding visit
compact zero disk_size disk read_offset write_offset = some (disk, write_offset)
compact (suc rounds) disk_size disk read_offset write_offset = elim (ltb read_offset disk_size) [
  | false ↦ some (disk, write_offset)
  | true ↦ visit disk read_offset write_offset >>= λ (disk', write_offset').
      compact rounds disk_size disk' (read_offset + block_size) write_offset'
]

-- The rounds are as many as the bytes; `sb->head` is the second word.
unfoldable pub compact_entries : List ℕ → ℕ → Option (List ℕ)
unfolding compact write_at
compact_entries disk disk_size = do
  (disk', write_offset) ← compact disk_size disk_size disk sb_size sb_size
  write_at disk' 4 (encode_le 4 (u32 write_offset))

-- `fsck_wfs` behind the mapping: whatever the size of the file is, it goes on with 1 MB.
abbrev pub fsck_wfs : List ℕ → Option (List ℕ)
fsck_wfs disk = compact_entries disk 1048576
