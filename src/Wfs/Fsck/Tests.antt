-- ===== src/Wfs/Fsck/Tests.antt =====
-- Runs of fsck on small disks.
use cs537_operating_system_u.Base.{
  ℕ, ◌≡◌, refl, List, [], ◌∷◌, ◌++◌, none, some, replicate, length-replicate,
}
use cs537_operating_system_u.Wfs.Log.{encode_le, decode_le}
use cs537_operating_system_u.Wfs.Fsck.{
  deleted_at, write_at, move_entry, visit, compact, compact_entries, fsck_wfs,
}
use cs537_operating_system_u.Wfs.Fsck.Faults.{fsck_wfs-faults}

-- An entry without data.
abbrev block : ℕ → ℕ → List ℕ
block number deleted = number ∷ 0 ∷ 0 ∷ 0 ∷ deleted ∷ replicate 39 0

abbrev magic : List ℕ
magic = 0xef ∷ 0xbe ∷ 0xad ∷ 0xde ∷ []

abbrev head : List ℕ
head = 184 ∷ 0 ∷ 0 ∷ 0 ∷ []

-- The entries that stay, and the last block twice.
small_disk :
    compact_entries (magic ++ (head ++ (block 0 0 ++ block 1 1 ++ block 2 0 ++ block 1 0))) 184
    ≡ some (magic ++ (140 ∷ 0 ∷ 0 ∷ 0 ∷ []) ++ (block 0 0 ++ block 2 0 ++ block 1 0 ++ block 1 0))
unfolding compact_entries compact visit deleted_at move_entry write_at encode_le decode_le
small_disk = refl

fsck_wfs-faults_example : fsck_wfs (replicate 1048576 0) ≡ none
fsck_wfs-faults_example =
    fsck_wfs-faults (replicate 1048576 0) (length-replicate {0} {A = ℕ} 1048576 0)
