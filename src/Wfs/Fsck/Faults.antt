-- ===== src/Wfs/Fsck/Faults.antt =====
-- fsck reads past the end of a disk of 1 MB.
use cs537_operating_system_u.Base.{
  ℕ, zero, suc, ◌+◌, ◌*◌, ◌≤◌, ◌<◌, ◌≡◌, refl, List, [], ◌∷◌, ◌++◌, none, some, arith, ◌==◌, ltb,
  leb, length, take, drop, length-append, length-take, length-drop, true, Bool-cases, inl, inr,
  Option-cases, ap,
}
use cs537_operating_system_u.Wfs.Log.{overwrite, decode_le}
use cs537_operating_system_u.Wfs.Fsck.{
  block_size, deleted_at, write_at, move_entry, visit, compact, compact_entries, fsck_wfs,
}

pub decode_le-short : (n : ℕ) (bytes : List ℕ) → length bytes < n → decode_le n bytes ≡ none
unfolding decode_le
decode_le-short zero bytes h = absurd (omega (arith, h))
decode_le-short (suc n) [] h = refl
decode_le-short (suc n) (b ∷ bytes) h = rw (decode_le-short n bytes (omega (arith, h))) refl

length-overwrite :
    (bytes over : List ℕ) {bytes' : List ℕ}
    → overwrite bytes over ≡ some bytes'
    → length bytes' ≡ length bytes
length-overwrite bytes [] {bytes'} e =
    let same : bytes ≡ bytes' = cc in omega (arith, ap length same)
length-overwrite [] (o ∷ over) e = absurd (cc)
length-overwrite (b ∷ bytes) (o ∷ over) {bytes'} e = elim (Option-cases (overwrite bytes over)) [
  | inl out ↦ absurd (cc (rw (out) at (e)))
  | inr (rest, fits) ↦
      let same : o ∷ rest ≡ bytes' = cc (rw (fits) at (e)) in
      omega (arith, ap length same, length-overwrite bytes over fits)
]

length-write_at :
    (disk : List ℕ) (offset : ℕ) (bytes : List ℕ) {disk' : List ℕ}
    → offset ≤ length disk
    → write_at disk offset bytes ≡ some disk'
    → length disk' ≡ length disk
unfolding write_at
length-write_at disk offset bytes {disk'} h e =
    elim (Option-cases (overwrite (drop offset disk) bytes)) [
      | inl out ↦ absurd (cc (rw (out) at (e)))
      | inr (tail, fits) ↦
          let same : take offset disk ++ tail ≡ disk' = cc (rw (fits) at (e)) in
          omega (
            arith,
            ap length same,
            length-append (take offset disk) tail,
            length-take offset disk h,
            length-overwrite (drop offset disk) bytes fits,
            length-drop offset disk,
          )
    ]

length-move_entry :
    (disk : List ℕ) (write_offset read_offset : ℕ) {disk' : List ℕ}
    → write_offset ≤ read_offset
    → move_entry disk write_offset read_offset ≡ some disk'
    → length disk' ≡ length disk
unfolding move_entry
length-move_entry disk write_offset read_offset h e =
    elim (Bool-cases (leb (read_offset + block_size) (length disk))) [
      | inr out ↦ absurd (cc (rw (out) at (e)))
      | inl inside ↦
          length-write_at disk write_offset (take block_size (drop read_offset disk))
            (ground (arith, h, inside)) (rw (inside) at (e))
    ]

-- A round leaves a disk of the same size, and at most one more block in front of `write_offset`.
visit-length :
    (disk : List ℕ) (r w : ℕ) {disk' : List ℕ} {w' : ℕ}
    → w ≤ r
    → visit disk r w ≡ some (disk', w')
    → (length disk' ≡ length disk) × (w' ≤ r + block_size)
unfolding visit
visit-length disk r w {disk'} {w'} le e = elim (Option-cases (deleted_at disk r)) [
  | inl cut ↦ absurd (cc (rw (cut) at (e)))
  | inr (deleted, there) ↦ elim (Bool-cases (deleted == 0)) [
    | inr gone ↦
        let same : disk ≡ disk' = cc (rw (there, gone) at (e)) in
        let stays : w ≡ w' = cc (rw (there, gone) at (e)) in
        (omega (arith, ap length same), omega (arith, le, stays))
    | inl live ↦ elim (Bool-cases (r == w)) [
      | inl front ↦
          let same : disk ≡ disk' = cc (rw (there, live, front) at (e)) in
          let further : r + block_size ≡ w' = cc (rw (there, live, front) at (e)) in
          (omega (arith, ap length same), omega (arith, further))
      | inr behind ↦ elim (Option-cases (move_entry disk w r)) [
        | inl out ↦ absurd (cc (rw (there, live, behind, out) at (e)))
        | inr (moved, fits) ↦
            let same : moved ≡ disk' = cc (rw (there, live, behind, fits) at (e)) in
            let further : w + block_size ≡ w' = cc (rw (there, live, behind, fits) at (e)) in
            (
              omega (arith, ap length same, length-move_entry disk w r le fits),
              omega (arith, further, le),
            )
      ]
    ]
  ]
]

-- Where the entry's second word is not on the disk.
visit-cut : (disk : List ℕ) (r w : ℕ) → length disk < r + 8 → visit disk r w ≡ none
unfolding visit deleted_at
visit-cut disk r w h =
    rw (decode_le-short 4 (drop (r + 4) disk) (omega (arith, length-drop (r + 4) disk, h))) refl

-- One to seven bytes are left behind the last whole block.
compact-faults :
    (blocks left rounds disk_size : ℕ) (disk : List ℕ) (r w : ℕ)
    → blocks < rounds
    → length disk ≡ disk_size
    → disk_size ≡ r + blocks * block_size + left
    → 0 < left
    → left < 8
    → w ≤ r
    → compact rounds disk_size disk r w ≡ none
unfolding compact
compact-faults blocks left zero n disk r w more whole size some_left few le =
    absurd (omega (arith, more))
compact-faults zero left (suc rounds) n disk r w more whole size some_left few le =
    let inside : ltb r n ≡ true = ground (arith, size, some_left) in
    rw (compact, inside, visit-cut disk r w (omega (arith, whole, size, few))) refl
compact-faults (suc blocks) left (suc rounds) n disk r w more whole size some_left few le =
    let inside : ltb r n ≡ true = ground (arith, size, some_left) in
    elim (Option-cases (visit disk r w)) [
      | inl cut ↦ rw (compact, inside, cut) refl
      | inr ((disk', w'), went) ↦
          let (same, le') = visit-length disk r w le went in
          rw (compact, inside, went)
            (compact-faults blocks left rounds n disk' (r + block_size) w' (omega (arith, more))
              (omega (arith, same, whole)) (omega (arith, size)) some_left few le')
    ]

-- On a disk of 1 MB, with whatever it holds, fsck reads behind the end of the mapping: the entries that it goes over
-- are 44 bytes each behind a superblock of 8, and 4 bytes are left of the last one.
pub fsck_wfs-faults : (disk : List ℕ) → length disk ≡ 1048576 → fsck_wfs disk ≡ none
unfolding compact_entries
fsck_wfs-faults disk size =
    rw
      (compact-faults 23831 4 1048576 1048576 disk 8 8 (omega arith) size (omega arith)
        (omega arith) (omega arith) (omega arith))
      refl
