-- ===== src/Wfs/Tests.antt =====
-- Runs of the file system's functions on a small disk.
use cs537_operating_system_u.Base.{
  ℕ, ◌≡◌, ◌⊎◌, refl, ap, arith, ◌>>=◌, List, [], ◌∷◌, none, some, false, All, replicate,
}
use cs537_operating_system_u.Wfs.Log.{
  free_bytes, append_entry, Inode, LogEntry, Disk, IsWhole, IsValid, encode_le, decode_le,
}
use cs537_operating_system_u.Wfs.Lookup.{
  Found, matches, find_last, get_log_entry, max_from, max_inode_num,
}
use cs537_operating_system_u.Wfs.Lookup.Latest.{IsLatest, get_log_entry-IsLatest}
use cs537_operating_system_u.Wfs.Path.{
  path_to_log_entry, walk, walk_token, find_dentry, get_inode_number, find_parent_log_path,
  file_name,
}
use cs537_operating_system_u.Wfs.Path.Dentries.{Dentry, encode_all, get_inode_number-eq-lookup}
use cs537_operating_system_u.Wfs.Create.{
  add_entries, with_dentry, dentry_bytes, new_entry, Caller, ok, err, eexist, create,
}
use cs537_operating_system_u.Wfs.Create.Fresh.{IsDir, Looks, new_parent}
use cs537_operating_system_u.Wfs.Create.Made.{Parent, CanMake, create_lem, create-eexist}
use cs537_operating_system_u.Wfs.Rewrite.{delete_entry, my_write, wfs_unlink}
use cs537_operating_system_u.Wfs.Rewrite.Paths.{my_write_lem, wfs_unlink_lem}
use cs537_operating_system_u.Base.Int.{pos}
use cs537_operating_system_u.Wfs.Readdir.{my_readdir}
use cs537_operating_system_u.Wfs.Readdir.Listing.{takes_all, listing, my_readdir-eq-listing}
use cs537_operating_system_u.Base.CString.{chars, strtok_all}
use cs537_operating_system_u.Wfs.Rewrite.Versions.{Written}
use cs537_operating_system_u.Wfs.Rewrite.Unlink.{Unlinked}

abbrev inode : ℕ → ℕ → ℕ → Inode
inode inode_number mode size = record {
  inode_number = inode_number;
  deleted = 0;
  mode = mode;
  uid = 0;
  gid = 0;
  flags = 0;
  size = size;
  atime = 0;
  mtime = 0;
  ctime = 0;
  links = 1;
}

abbrev dentry_b : Dentry
dentry_b = record { name = 98 ∷ []; junk = replicate 30 0; number = 1 }

-- The root, which holds the file `b`, and that file, with the byte 7.
abbrev root : LogEntry
root = record { inode = inode 0 0o040000 40; bytes = encode_all (dentry_b ∷ []) }

abbrev file_b : LogEntry
file_b = record { inode = inode 1 0o100000 1; bytes = 7 ∷ [] }

abbrev disk : Disk
disk = record { disk_size = 1000; head = 137; log = root ∷ file_b ∷ []; free = λ offset. 0 }

abbrev caller : Caller
caller = record { uid = 5; now = 9 }

root-IsWhole : IsWhole root
unfolding encode_le
root-IsWhole = refl

disk-IsValid : IsValid disk
disk-IsValid = record {
  head_eq = refl;
  fits = omega arith;
  small = omega arith;
  whole = (root-IsWhole, (refl, tt));
}

root-IsDir : IsDir root (dentry_b ∷ [])
root-IsDir = record {
  dentries =
      (record { no_nul = (omega arith, tt); name_size = refl; number_small = omega arith }, tt);
  bytes_eq = refl;
}

get_log_entry-IsLatest_example :
    (All (λ e. matches 1 e ≡ false) disk.log × (get_log_entry disk 1 ≡ none))
    ⊎ ((found : Found) × (get_log_entry disk 1 ≡ some found) × IsLatest 1 disk.log found)
get_log_entry-IsLatest_example = get_log_entry-IsLatest disk 1

get_inode_number-eq-lookup_example : get_inode_number (98 ∷ []) root ≡ some 1
get_inode_number-eq-lookup_example =
    get_inode_number-eq-lookup (98 ∷ []) (dentry_b ∷ []) root root-IsDir.dentries refl

-- The paths `/a` and `/b`.
abbrev path_a : List ℕ
path_a = 47 ∷ 97 ∷ []

abbrev path_b : List ℕ
path_b = 47 ∷ 98 ∷ []

root-found : get_log_entry disk 0 ≡ some (0, root)
unfolding get_log_entry find_last
root-found = refl

b-found : get_log_entry disk 1 ≡ some (1, file_b)
unfolding get_log_entry find_last
b-found = refl

root-Parent_a : Parent disk path_a root (dentry_b ∷ [])
root-Parent_a = record {
  index = 0;
  number = 0;
  resolved = unfold find_parent_log_path in ap some root-found;
  latest = root-found;
  whole = root-IsWhole;
  live = refl;
  is_dir = root-IsDir;
}

root-Parent_b : Parent disk path_b root (dentry_b ∷ [])
root-Parent_b = record {
  index = 0;
  number = 0;
  resolved = unfold find_parent_log_path in ap some root-found;
  latest = root-found;
  whole = root-IsWhole;
  live = refl;
  is_dir = root-IsDir;
}

a-CanMake : CanMake disk path_a root
unfolding file_name max_inode_num max_from
a-CanMake = record {
  no_nul = (omega arith, tt);
  short = omega arith;
  number_left = omega arith;
  room = omega arith;
}

create_lem_example :
    (disk' : Disk) × (create disk caller path_a 0o100644 ≡ some (ok 0 disk'))
    × IsValid disk'
    × Looks disk caller root (file_name path_a) 2 0o100644 disk'
    × (get_inode_number (file_name path_a) (new_parent disk root (file_name path_a) 2) ≡ some 2)
unfolding max_inode_num max_from file_name
create_lem_example =
    create_lem disk caller path_a 0o100644 root (dentry_b ∷ []) disk-IsValid root-Parent_a a-CanMake
      refl

create-eexist_example : create disk caller path_b 0o100644 ≡ some (err eexist)
unfolding file_name
create-eexist_example =
    create-eexist disk caller path_b 0o100644 root (dentry_b ∷ []) root-Parent_b (omega arith)

-- The root's own path.
abbrev path_root : List ℕ
path_root = 47 ∷ []

root-path : path_to_log_entry disk path_root ≡ some (some (0, root))
unfolding path_to_log_entry walk strtok_all
root-path = ap some root-found

root-parent : find_parent_log_path disk path_root ≡ some (some (0, root))
unfolding find_parent_log_path
root-parent = ap some root-found

my_readdir-eq-listing_example : my_readdir disk takes_all path_root ≡ (
    listing disk (dentry_b ∷ []) >>= λ names. some (
      some (
        record { name = chars "."; st_ino = 0; st_mode = 0o040000 }
        ∷ record { name = chars ".."; st_ino = 0; st_mode = 0o040000 }
        ∷ names)))
my_readdir-eq-listing_example =
    my_readdir-eq-listing disk path_root 0 0 root root (dentry_b ∷ []) root-path root-parent
      root-IsDir

-- The disk when `b` is unlinked.
abbrev unlinked : Disk
unlinked = record disk { log = root ∷ delete_entry file_b ∷ [] }

unlinked-root : get_log_entry unlinked 0 ≡ some (0, root)
unfolding get_log_entry find_last
unlinked-root = refl

unlinked-path : path_to_log_entry unlinked path_root ≡ some (some (0, root))
unfolding path_to_log_entry walk strtok_all
unlinked-path = ap some unlinked-root

unlinked-parent : find_parent_log_path unlinked path_root ≡ some (some (0, root))
unfolding find_parent_log_path
unlinked-parent = ap some unlinked-root

unlinked-lost : get_log_entry unlinked 1 ≡ none
unfolding get_log_entry find_last
unlinked-lost = refl

b-path : path_to_log_entry disk path_b ≡ some (some (1, file_b))
unfolding path_to_log_entry walk strtok_all walk_token get_inode_number find_dentry decode_le
    encode_le get_log_entry find_last
b-path = refl

my_write_lem_example :
    (disk' : Disk) × (my_write disk caller path_b (1 ∷ 2 ∷ []) (pos 3) ≡ some (ok 2 disk'))
    × Written disk caller file_b 3 (1 ∷ 2 ∷ []) 1 disk'
my_write_lem_example =
    my_write_lem disk caller path_b (1 ∷ 2 ∷ []) 3 1 file_b disk-IsValid b-path (omega arith)

wfs_unlink_lem_example :
    (disk' : Disk) × (wfs_unlink disk path_b ≡ some (ok 0 disk')) × Unlinked disk 1 1 disk'
wfs_unlink_lem_example = wfs_unlink_lem disk path_b 1 file_b disk-IsValid b-path refl

-- The name `b` leads nowhere after the unlinking; once `/a` is made, with the same number, it leads to the
-- file of `a`.
unlinked-b : path_to_log_entry unlinked path_b ≡ some none
unfolding path_to_log_entry walk strtok_all walk_token get_inode_number find_dentry decode_le
    encode_le get_log_entry find_last
unlinked-b = refl

number_reused :
    (disk' : Disk) × (i : ℕ) × (file : LogEntry) × (create unlinked caller path_a 0o100644
      ≡ some (ok 0 disk'))
    × (path_to_log_entry disk' path_a ≡ some (some (i, file)))
    × (path_to_log_entry disk' path_b ≡ some (some (i, file)))
unfolding create file_name free_bytes append_entry find_parent_log_path max_inode_num max_from
    add_entries with_dentry dentry_bytes new_entry path_to_log_entry walk strtok_all walk_token
    get_inode_number find_dentry decode_le encode_le get_log_entry find_last
number_reused = (_, _, _, refl, refl, refl)
