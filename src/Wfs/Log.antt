-- ===== src/Wfs/Log.antt =====
-- The data of p7/wfs.h, and the log of a mounted disk. The disk between the superblock and `head` is
-- the list of its log entries, each with the bytes behind its inode; a pointer to an entry is its
-- index. The bytes behind `head` are `free`, by their offset. `none` is a fault: an access outside the
-- disk, outside an entry's data, or through NULL.
pub mod Append
pub mod Bytes
use cs537_operating_system_u.Base.{
  ℕ, zero, suc, ◌+◌, ◌-◌, ◌*◌, ◌/◌, ◌%◌, ◌^◌, ◌≤◌, ◌<◌, List, [], ◌∷◌, ◌++◌, Option, none, some,
  ◌==◌, if◌then◌else◌, length, take, drop, leb, ◌>>=◌, Bool, true, false, All, ◌≡◌,
}

-- `struct wfs_inode`: eleven `unsigned int`.
pub record Inode : Type 0 where
  pub inode_number : ℕ
  pub deleted : ℕ
  pub mode : ℕ
  pub uid : ℕ
  pub gid : ℕ
  pub flags : ℕ
  pub size : ℕ
  pub atime : ℕ
  pub mtime : ℕ
  pub ctime : ℕ
  pub links : ℕ

-- `struct wfs_log_entry`
pub record LogEntry : Type 0 where
  pub inode : Inode
  pub bytes : List ℕ

-- `sizeof(struct wfs_sb)`, `sizeof(struct wfs_inode)` and `sizeof(struct wfs_dentry)`
abbrev pub sb_size : ℕ
sb_size = 8

abbrev pub inode_size : ℕ
inode_size = 44

abbrev pub dentry_size : ℕ
dentry_size = 40

abbrev pub max_file_name_len : ℕ
max_file_name_len = 32

abbrev pub u32 : ℕ → ℕ
u32 n = n % 2 ^ 32

-- `disk` and `sb` of mount.wfs.c.
pub record Disk : Type 0 where
  pub disk_size : ℕ
  pub head : ℕ
  pub log : List LogEntry
  pub free : ℕ → ℕ

-- What the code adds to a pointer to step over an entry, and over the whole log.
abbrev pub entry_size : LogEntry → ℕ
entry_size e = inode_size + e.inode.size

abbrev pub log_size : List LogEntry → ℕ
log_size [] = 0
log_size (e ∷ es) = entry_size e + log_size es

-- The new entry at `head`, which moves behind it.
unfoldable pub append_entry : Disk → LogEntry → Option Disk
append_entry disk e =
    if leb (disk.head + entry_size e) disk.disk_size
    then some (record disk { head = u32 (disk.head + entry_size e); log = disk.log ++ e ∷ [] })
    else none

-- An entry's data are as long as its inode says.
abbrev pub IsWhole : LogEntry → Type 0
IsWhole e = length e.bytes ≡ e.inode.size

-- `head` stands behind the last entry, so that a walk over the log meets the entries and no more.
pub record IsValid (disk : Disk) : Type 0 where
  pub head_eq : disk.head ≡ sb_size + log_size disk.log
  pub fits : disk.head ≤ disk.disk_size
  pub small : disk.disk_size < 2 ^ 32
  pub whole : All IsWhole disk.log

-- `n` bytes of the free part, from an offset on.
unfoldable pub free_bytes : (ℕ → ℕ) → ℕ → ℕ → List ℕ
free_bytes free offset zero = []
free_bytes free offset (suc n) = free offset ∷ free_bytes free (offset + 1) n

-- The bytes of `over` written over the front of `bytes`; `none` if they do not fit.
abbrev pub overwrite : List ℕ → List ℕ → Option (List ℕ)
overwrite bytes [] = some bytes
overwrite [] (o ∷ over) = none
overwrite (b ∷ bytes) (o ∷ over) = overwrite bytes over >>= λ rest. some (o ∷ rest)

-- An `unsigned long` in memory, lowest byte first; `none` if less than `n` bytes are there.
unfoldable pub encode_le : ℕ → ℕ → List ℕ
encode_le zero v = []
encode_le (suc n) v = (v % 256) ∷ encode_le n (v / 256)

unfoldable pub decode_le : ℕ → List ℕ → Option ℕ
decode_le zero bytes = some 0
decode_le (suc n) [] = none
decode_le (suc n) (b ∷ bytes) = decode_le n bytes >>= λ v. some (b + 256 * v)

-- `init_wfs` of mkfs.wfs.c: the superblock and the root's entry on a disk of 1 MB.
unfoldable pub init_wfs : (ℕ → ℕ) → ℕ → Disk
init_wfs free now = record {
  disk_size = 1048576;
  head = sb_size + inode_size;
  log =
      record {
        inode = record {
          inode_number = 0;
          deleted = 0;
          mode = 0o040000;
          uid = 0;
          gid = 0;
          flags = 0;
          size = 0;
          atime = u32 now;
          mtime = u32 now;
          ctime = u32 now;
          links = 1;
        };
        bytes = [];
      }
      ∷ [];
  free = free;
}
