-- ===== src/Wfs/Readdir/Listing.antt =====
-- What a listing shows of a directory, by its dentries.
use cs537_operating_system_u.Base.{
  ℕ, zero, suc, ◌≤◌, ◌<◌, ◌≡◌, ap, sym, ◌∙◌, List, [], ◌∷◌, ◌++◌, Option, none, some, arith, ◌==◌,
  length, drop, ◌>>=◌, true, Option-cases, inl, inr, All, append_assoc, drop-length, length-append,
  append-nil,
}
use cs537_operating_system_u.Base.CString.{chars, c_str}
use cs537_operating_system_u.Wfs.Log.{
  LogEntry, Disk, dentry_size, max_file_name_len, decode_le, encode_le, u32,
}
use cs537_operating_system_u.Wfs.Lookup.{get_log_entry}
use cs537_operating_system_u.Wfs.Lookup.Latest.{get_log_entry-found}
use cs537_operating_system_u.Wfs.Path.{path_to_log_entry, find_parent_log_path}
use cs537_operating_system_u.Wfs.Path.Dentries.{
  Dentry, IsDentry, encode, encode_all, length-encode, length-encode_all, name_field, regroup,
  decode-encode, c_str-name,
}
use cs537_operating_system_u.Wfs.Create.Fresh.{IsDir}
use cs537_operating_system_u.Wfs.Readdir.{Listed, Filler, fill_dentries, list_dir, my_readdir}

abbrev pub listed_as : Dentry → LogEntry → Listed
listed_as d entry = record { name = d.name; st_ino = d.number; st_mode = entry.inode.mode }

-- The names of the dentries in order, each with the mode of its file's latest version; `none` if one
-- of them has no live version.
unfoldable pub listing : Disk → List Dentry → Option (List Listed)
listing disk [] = some []
listing disk (d ∷ ds) = get_log_entry disk d.number >>= λ (i, entry).
    (listing disk ds >>= λ rest. some (listed_as d entry ∷ rest))

-- A filler with room for all names.
abbrev pub takes_all : Filler
takes_all listed entry = true

found-live :
    (disk : Disk) (n i : ℕ) (entry : LogEntry)
    → get_log_entry disk n ≡ some (i, entry)
    → (entry.inode.deleted == 0) ≡ true
found-live disk n i entry e =
    let latest = get_log_entry-found disk n e in ground (arith, latest.live)

-- One round of the loop at a text that is not empty.
fill_dentries-round :
    (fuel : ℕ) (disk : Disk) (listed : List Listed) (bytes : List ℕ) (number i : ℕ)
    (entry : LogEntry)
    → 0 < length bytes
    → decode_le 8 (drop max_file_name_len bytes) ≡ some number
    → get_log_entry disk (u32 number) ≡ some (i, entry)
    → fill_dentries (suc fuel) disk takes_all listed bytes
      ≡ fill_dentries fuel disk takes_all
          (listed
            ++ record { name = c_str bytes; st_ino = number; st_mode = entry.inode.mode } ∷ [])
          (drop dentry_size bytes)
unfolding fill_dentries
fill_dentries-round fuel disk listed [] number i entry h num found = absurd (omega arith)
fill_dentries-round fuel disk listed (b ∷ bytes) number i entry h num found =
    rw (num, found, found-live disk (u32 number) i entry found)

fill_dentries-null :
    (fuel : ℕ) (disk : Disk) (listed : List Listed) (bytes : List ℕ) (number : ℕ)
    → 0 < length bytes
    → decode_le 8 (drop max_file_name_len bytes) ≡ some number
    → get_log_entry disk (u32 number) ≡ none
    → fill_dentries (suc fuel) disk takes_all listed bytes ≡ none
unfolding fill_dentries
fill_dentries-null fuel disk listed [] number h num lost = absurd (omega arith)
fill_dentries-null fuel disk listed (b ∷ bytes) number h num lost = rw (num, lost)

module _ (d : Dentry) (rest : List ℕ) (h : IsDentry d) where
  number_field : decode_le 8 (drop max_file_name_len (encode d ++ rest)) ≡ some d.number
  number_field =
      rw (name_field d h rest) (decode-encode 8 d.number rest (omega (arith, h.number_small)))

  not_empty : 0 < length (encode d ++ rest)
  not_empty = omega (arith, length-append (encode d) rest, length-encode d h)

  small : u32 d.number ≡ d.number
  small = omega (arith, h.number_small)

  name_is : c_str (encode d ++ rest) ≡ d.name
  name_is =
      rw (regroup d rest) (c_str-name d.name (d.junk ++ (encode_le 8 d.number ++ rest)) h.no_nul)

  rest_is : drop dentry_size (encode d ++ rest) ≡ rest
  rest_is = drop-length dentry_size (encode d) rest (sym (length-encode d h))

-- A round at a dentry whose file has a live version.
fill_dentries-dentry :
    (fuel : ℕ) (disk : Disk) (listed : List Listed) (d : Dentry) (rest : List ℕ) (i : ℕ)
    (entry : LogEntry)
    → IsDentry d
    → get_log_entry disk d.number ≡ some (i, entry)
    → fill_dentries (suc fuel) disk takes_all listed (encode d ++ rest)
      ≡ fill_dentries fuel disk takes_all (listed ++ listed_as d entry ∷ []) rest
fill_dentries-dentry fuel disk listed d rest i entry h found =
    rw (name_is d rest h, rest_is d rest h) at
      (fill_dentries-round fuel disk listed (encode d ++ rest) d.number i entry (not_empty d rest h)
        (number_field d rest h) (ap (get_log_entry disk) (small d rest h) ∙ found))

-- The loop gives the filler what the list of dentries says, and faults where it has no answer.
fill_dentries-listing :
    (fuel : ℕ) (disk : Disk) (listed : List Listed) (ds : List Dentry)
    → All IsDentry ds
    → length ds ≤ fuel
    → fill_dentries fuel disk takes_all listed (encode_all ds)
      ≡ (listing disk ds >>= λ names. some (listed ++ names))
unfolding listing fill_dentries
fill_dentries-listing zero disk listed [] h enough = ap some (sym (append-nil listed))
fill_dentries-listing zero disk listed (d ∷ ds) h enough = absurd (omega arith)
fill_dentries-listing (suc fuel) disk listed [] h enough = ap some (sym (append-nil listed))
fill_dentries-listing (suc fuel) disk listed (d ∷ ds) h enough =
    elim (Option-cases (get_log_entry disk d.number)) [
      | inl lost ↦ rw lost (
          fill_dentries-null fuel disk listed (encode d ++ encode_all ds) d.number
            (not_empty d (encode_all ds) h.0) (number_field d (encode_all ds) h.0)
            (ap (get_log_entry disk) (small d (encode_all ds) h.0) ∙ lost))
      | inr ((i, entry), found) ↦
          let x = listed_as d entry in
          fill_dentries-dentry fuel disk listed d (encode_all ds) i entry h.0 found
          ∙ fill_dentries-listing fuel disk (listed ++ x ∷ []) ds h.1 (omega arith)
          ∙ rw found (elim (Option-cases (listing disk ds)) [
            | inl lost ↦ rw lost
            | inr (names, all) ↦ rw all (ap some (append_assoc listed (x ∷ []) names))
          ])
    ]

-- `my_readdir` of a directory with a filler that takes all names: `.`, `..`, and the dentries' names
-- in order, each with its number and the mode of its file's latest version. If one of them has no
-- live version, it reads through NULL.
pub my_readdir-eq-listing :
    (disk : Disk) (path : List ℕ) (i j : ℕ) (current parent : LogEntry) (ds : List Dentry)
    → path_to_log_entry disk path ≡ some (some (i, current))
    → find_parent_log_path disk path ≡ some (some (j, parent))
    → IsDir current ds
    → my_readdir disk takes_all path ≡ (
        listing disk ds >>= λ names. some (
          some (
            record {
              name = chars ".";
              st_ino = current.inode.inode_number;
              st_mode = current.inode.mode;
            }
            ∷ record {
              name = chars "..";
              st_ino = parent.inode.inode_number;
              st_mode = parent.inode.mode;
            }
            ∷ names)))
unfolding my_readdir list_dir
my_readdir-eq-listing disk path i j current parent ds here above dir =
    let dots : List Listed =
      record { name = chars "."; st_ino = current.inode.inode_number; st_mode = current.inode.mode }
      ∷ record {
        name = chars "..";
        st_ino = parent.inode.inode_number;
        st_mode = parent.inode.mode;
      }
      ∷ [] in
    let filled = rw (← dir.bytes_eq) at (
      fill_dentries-listing (length (encode_all ds)) disk dots ds dir.dentries
        (length-encode_all ds dir.dentries)) in
    rw (here, above, filled)
      (elim (Option-cases (listing disk ds)) [ inl lost ↦ rw lost | inr (names, all) ↦ rw all ])

listing-none :
    (disk : Disk) (before : List Dentry) (d : Dentry) (after : List Dentry)
    → get_log_entry disk d.number ≡ none
    → listing disk (before ++ d ∷ after) ≡ none
unfolding listing
listing-none disk [] d after lost = rw lost
listing-none disk (x ∷ before) d after lost = elim (Option-cases (get_log_entry disk x.number)) [
  | inl lost' ↦ rw lost'
  | inr ((i, entry), found) ↦ rw (found, listing-none disk before d after lost)
]
