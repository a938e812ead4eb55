-- ===== src/Wfs/Path.antt =====
-- `get_inode_number`, `path_to_log_entry` and `find_parent_log_path` of p7/mount.wfs.c. The outer
-- `none` of a result is a fault; an inner one is the NULL that the function returns.
pub mod Dentries
pub mod Walk
use cs537_operating_system_u.Base.{
  ℕ, zero, suc, ◌+◌, ◌-◌, ◌^◌, ◌%◌, List, [], ◌∷◌, ◌++◌, Option, none, some, ◌==◌, if◌then◌else◌,
  length, take, drop, ◌>>=◌, Bool, true, false, ◌||◌,
}
use cs537_operating_system_u.Base.CString.{chars, c_str, strcmp_eq, strrchr, strtok_all}
use cs537_operating_system_u.Wfs.Log.{
  LogEntry, Disk, dentry_size, max_file_name_len, decode_le, u32,
}
use cs537_operating_system_u.Wfs.Lookup.{Found, get_log_entry}

-- `(unsigned long)-1`
abbrev pub not_found : ℕ
not_found = 2 ^ 64 - 1

-- The loop of `get_inode_number` over the rest of an entry's data; each round steps over one
-- `wfs_dentry`, so as many rounds as there are bytes suffice.
unfoldable pub find_dentry : ℕ → List ℕ → List ℕ → Option ℕ
find_dentry zero name bytes = some not_found
find_dentry (suc fuel) name [] = some not_found
find_dentry (suc fuel) name (b ∷ bytes) =
    let further = find_dentry fuel name (drop dentry_size (b ∷ bytes)) in
    if strcmp_eq name (c_str (b ∷ bytes))
    then decode_le 8 (drop max_file_name_len (b ∷ bytes))
    else further

unfoldable pub get_inode_number : List ℕ → LogEntry → Option ℕ
get_inode_number name log_entry = find_dentry (length log_entry.bytes) name log_entry.bytes

abbrev pub is_slash : ℕ → Bool
is_slash c = c == b'/'

-- One token of the path, from the entry that the tokens before it lead to.
unfoldable pub walk_token : Disk → List ℕ → Option Found → Option (Option Found)
walk_token disk token none = some none
walk_token disk token (some (i, entry)) = do
  inode_num ← get_inode_number token entry
  some (if inode_num == not_found then none else get_log_entry disk (u32 inode_num))

-- The loop over the tokens. After a NULL entry the next token, if there is one, makes it return NULL.
unfoldable pub walk : Disk → List (List ℕ × Option (List ℕ)) → Option Found → Option (Option Found)
walk disk [] current = some current
walk disk ((token, rest) ∷ tokens) current =
    walk_token disk token current >>= λ next. walk disk tokens next

unfoldable pub path_to_log_entry : Disk → List ℕ → Option (Option Found)
path_to_log_entry disk path = walk disk (strtok_all is_slash path) (get_log_entry disk 0)

abbrev pub max_path_length : ℕ
max_path_length = 128

-- The text in front of a slash that stands neither nowhere nor at the start.
abbrev pub parent_text : List ℕ → Option (List ℕ) → Option (List ℕ)
parent_text path none = none
parent_text path (some slash) =
    if length path - length slash == 0 then none else some (take (length path - length slash) path)

unfoldable pub find_parent_log_path : Disk → List ℕ → Option (Option Found)
find_parent_log_path disk path =
    let parent_path = take (max_path_length - 1) path in
    let from_parent : Option (Option Found) =
      elim (parent_text parent_path (strrchr parent_path b'/')) [
        | none ↦ some (get_log_entry disk 0)
        | some text ↦ path_to_log_entry disk text
      ] in
    if strcmp_eq path (chars "/") || strcmp_eq path []
    then some (get_log_entry disk 0)
    else from_parent

-- `strrchr(path, '/') + 1`, or the path where it has no slash.
unfoldable pub file_name : List ℕ → List ℕ
file_name path = elim (strrchr path b'/') [ none ↦ path | some slash ↦ drop 1 slash ]
