-- ===== src/Wfs/Rewrite/Versions.antt =====
-- A write adds a version of the file, and what was written is read back; an unlink marks the latest
-- version alone.
use cs537_operating_system_u.Base.{
  ℕ, ◌+◌, ◌-◌, ◌≤◌, ◌<◌, ◌≡◌, ◌≢◌, refl, sym, ◌∙◌, List, ◌++◌, some, arith, if◌then◌else◌, ltb,
  length, take, drop, length-append, length-take, length-drop, take-length, drop-length, drop-drop,
  true,
}
use cs537_operating_system_u.Wfs.Log.{LogEntry, Disk, IsWhole, IsValid, free_bytes, inode_size, u32}
use cs537_operating_system_u.Wfs.Log.Append.{
  appended, append_entry-appended, appended-IsValid, get_log_entry-append,
}
use cs537_operating_system_u.Wfs.Log.Bytes.{overwrite-append, length-free_bytes}
use cs537_operating_system_u.Wfs.Lookup.{matches, get_log_entry}
use cs537_operating_system_u.Wfs.Lookup.Latest.{get_log_entry-All}
use cs537_operating_system_u.Wfs.Create.{Caller, ok}
use cs537_operating_system_u.Wfs.Rewrite.{read_entry, write_at, new_version, write_found}

-- The bytes of `base` with the buffer over them.
abbrev pub patched : List ℕ → ℕ → List ℕ → List ℕ
patched base offset buffer = take offset base ++ (buffer ++ drop (length buffer) (drop offset base))

write_at-patched :
    (base : List ℕ) (offset : ℕ) (buffer : List ℕ)
    → offset + length buffer ≤ length base
    → write_at base offset buffer ≡ some (patched base offset buffer)
unfolding write_at
write_at-patched base offset buffer h =
    rw (overwrite-append buffer (drop offset base) (omega (arith, length-drop offset base)))

-- The window that was written, and what stands on either side of it.
pub record Patched (base : List ℕ) (offset : ℕ) (buffer : List ℕ) (out : List ℕ) : Type 0 where
  pub window : take (length buffer) (drop offset out) ≡ buffer
  pub front : take offset out ≡ take offset base
  pub back : drop (offset + length buffer) out ≡ drop (offset + length buffer) base
  pub same_length : length out ≡ length base

patched-Patched :
    (base : List ℕ) (offset : ℕ) (buffer : List ℕ)
    → offset + length buffer ≤ length base
    → Patched base offset buffer (patched base offset buffer)
patched-Patched base offset buffer h = record {
  window =
      rw
        (drop-length offset (take offset base) (buffer ++ drop (length buffer) (drop offset base))
          front_len)
        (take-length (length buffer) buffer (drop (length buffer) (drop offset base)) refl);
  front =
      take-length offset (take offset base) (buffer ++ drop (length buffer) (drop offset base))
        front_len;
  back =
      sym (drop-drop offset (length buffer) (patched base offset buffer))
      ∙ rw
          (drop-length offset (take offset base) (buffer ++ drop (length buffer) (drop offset base))
            front_len)
          (drop-length (length buffer) buffer (drop (length buffer) (drop offset base)) refl
            ∙ drop-drop offset (length buffer) base);
  same_length = omega (
    arith,
    front_len,
    length-append (take offset base) (buffer ++ drop (length buffer) (drop offset base)),
    length-append buffer (drop (length buffer) (drop offset base)),
    length-drop (length buffer) (drop offset base),
    length-drop offset base,
  );
}
  where
    front_len : offset ≡ length (take offset base)
    front_len = sym (length-take offset base (omega arith))

abbrev pub new_size : LogEntry → ℕ → List ℕ → ℕ
new_size current offset buffer =
    if ltb current.inode.size (offset + length buffer)
    then offset + length buffer
    else current.inode.size

-- The entry's bytes, as long as the new size asks for, from the free part of the disk.
abbrev pub base_bytes : Disk → LogEntry → ℕ → List ℕ → List ℕ
base_bytes disk current offset buffer =
    current.bytes
    ++ free_bytes disk.free (disk.head + inode_size + current.inode.size)
        (new_size current offset buffer - current.inode.size)

abbrev pub version : Disk → ℕ → LogEntry → ℕ → List ℕ → LogEntry
version disk now current offset buffer =
    let inode = current.inode in
    record {
      inode = record inode { size = new_size current offset buffer; mtime = u32 now };
      bytes = patched (base_bytes disk current offset buffer) offset buffer;
    }

module _ (disk : Disk) (caller : Caller) (current : LogEntry) (offset : ℕ) (buffer : List ℕ) where
  length-base_bytes :
      IsWhole current
      → length (base_bytes disk current offset buffer) ≡ new_size current offset buffer
  length-base_bytes w = ground (
    arith,
    w,
    length-append current.bytes (
        free_bytes disk.free (disk.head + inode_size + current.inode.size)
          (new_size current offset buffer - current.inode.size)),
    length-free_bytes disk.free (disk.head + inode_size + current.inode.size)
        (new_size current offset buffer - current.inode.size),
  )

  end_in_size : offset + length buffer ≤ new_size current offset buffer
  end_in_size = ground arith

  new_version-version :
      IsWhole current
      → new_version disk caller.now current offset buffer
        ≡ some (version disk caller.now current offset buffer)
  unfolding new_version
  new_version-version w = rw (
      write_at-patched (base_bytes disk current offset buffer) offset buffer
        (omega (arith, length-base_bytes w, end_in_size)))

  version-Patched :
      IsWhole current
      → Patched
          (base_bytes disk current offset buffer)
          offset
          buffer
          (version disk caller.now current offset buffer).bytes
  version-Patched w =
      patched-Patched (base_bytes disk current offset buffer) offset buffer
        (omega (arith, length-base_bytes w, end_in_size))

  -- What a write leaves: a valid disk, on which the inode's latest version has the buffer at the
  -- offset and the old bytes elsewhere, is read back as the buffer, and no other inode has changed.
  pub record Written (ino : ℕ) (disk' : Disk) : Type 0 where
    pub valid : IsValid disk'
    pub latest :
        get_log_entry disk' ino
        ≡ some (length disk.log, version disk caller.now current offset buffer)
    pub contents :
        Patched
          (base_bytes disk current offset buffer)
          offset
          buffer
          (version disk caller.now current offset buffer).bytes
    pub read_back :
        0 < length buffer
        → read_entry (version disk caller.now current offset buffer) (length buffer) offset
          ≡ record { count = length buffer; bytes = buffer }
    pub others : (x : ℕ) → x ≢ ino → get_log_entry disk' x ≡ get_log_entry disk x

  write_found-appended :
      (i : ℕ)
      → IsValid disk
      → IsWhole current
      → disk.head + inode_size + new_size current offset buffer ≤ disk.disk_size
      → write_found disk caller buffer offset (some (i, current))
        ≡ some (ok (length buffer) (appended disk (version disk caller.now current offset buffer)))
  unfolding write_found
  write_found-appended i v w room = rw (
    new_version-version w,
    append_entry-appended disk (version disk caller.now current offset buffer) v (omega arith),
  )

  read_entry-version :
      IsWhole current
      → 0 < length buffer
      → read_entry (version disk caller.now current offset buffer) (length buffer) offset
        ≡ record { count = length buffer; bytes = buffer }
  unfolding read_entry
  read_entry-version w some_bytes = rw (version-Patched w).window (ground (arith, end_in_size))

  -- A write to a file that was found, with room for the new version, succeeds with the whole buffer.
  pub write_found_lem :
      (ino i : ℕ)
      → IsValid disk
      → get_log_entry disk ino ≡ some (i, current)
      → disk.head + inode_size + new_size current offset buffer ≤ disk.disk_size
      → (disk' : Disk) × (write_found disk caller buffer offset (some (i, current))
          ≡ some (ok (length buffer) disk'))
        × Written ino disk'
  write_found_lem ino i v found room = (
    appended disk (version disk caller.now current offset buffer),
    write_found-appended i v w room,
    record {
      valid =
          appended-IsValid disk (version disk caller.now current offset buffer) v
            (omega (arith, (version-Patched w).same_length, length-base_bytes w)) (omega arith);
      latest =
          get_log_entry-append disk (version disk caller.now current offset buffer) ino ∙ rw live;
      contents = version-Patched w;
      read_back = read_entry-version w;
      others = λ x ne.
          get_log_entry-append disk (version disk caller.now current offset buffer) x
          ∙ ground (arith, live);
    },
  )
    where
      w : IsWhole current
      w = (get_log_entry-All IsWhole disk ino v.whole found).0

      live : matches ino current ≡ true
      live = (get_log_entry-All IsWhole disk ino v.whole found).1
