-- ===== src/Wfs/Path/Walk.antt =====
-- The entry that a path leads to is the latest version of its own inode.
use cs537_operating_system_u.Base.{
  ℕ, ◌≡◌, refl, ap, ◌∙◌, List, [], ◌∷◌, Option, none, some, arith, ◌==◌, Bool-cases, Option-cases,
  inl, inr,
}
use mathlib.Core.Path.{subst}
use cs537_operating_system_u.Base.CString.{strtok_all}
use cs537_operating_system_u.Wfs.Log.{Disk, u32}
use cs537_operating_system_u.Wfs.Lookup.{Found, get_log_entry}
use cs537_operating_system_u.Wfs.Lookup.Latest.{get_log_entry-found}
use cs537_operating_system_u.Wfs.Path.{
  get_inode_number, not_found, is_slash, walk_token, walk, path_to_log_entry,
}

-- Where there is an entry, the lookup of its own number finds it.
abbrev FromLog : Disk → Option Found → Type 0
FromLog disk current =
    (f : Found) → current ≡ some f → get_log_entry disk f.1.inode.inode_number ≡ some f

get_log_entry-FromLog : (disk : Disk) (n : ℕ) → FromLog disk (get_log_entry disk n)
get_log_entry-FromLog disk n f e =
    let latest = get_log_entry-found disk n e in
    let own : f.1.inode.inode_number ≡ n = ground (arith, latest.live) in
    ap (get_log_entry disk) own ∙ e

walk_token-FromLog :
    (disk : Disk) (token : List ℕ) (current : Option Found) {found : Option Found}
    → walk_token disk token current ≡ some found
    → FromLog disk found
unfolding walk_token
walk_token-FromLog disk token none {found} h = λ f e. absurd (cc)
walk_token-FromLog disk token (some (i, entry)) {found} h =
    elim (Option-cases (get_inode_number token entry)) [
      | inl out ↦ absurd (cc (rw (out, walk_token) at h))
      | inr (n, e) ↦ elim (Bool-cases (n == not_found)) [
        | inl missing ↦
            let same : none ≡ found = cc (rw (e, walk_token, missing) at h) in
            subst (FromLog disk) same (λ f no. absurd (cc))
        | inr there ↦
            let same : get_log_entry disk (u32 n) ≡ found = cc (rw (e, walk_token, there) at h) in
            subst (FromLog disk) same (get_log_entry-FromLog disk (u32 n))
      ]
    ]

walk-FromLog :
    (disk : Disk) (tokens : List (List ℕ × Option (List ℕ))) (current : Option Found)
    {found : Option Found}
    → FromLog disk current
    → walk disk tokens current ≡ some found
    → FromLog disk found
unfolding walk
walk-FromLog disk [] current {found} from h =
    let same : current ≡ found = cc in subst (FromLog disk) same from
walk-FromLog disk ((token, rest) ∷ tokens) current from h =
    elim (Option-cases (walk_token disk token current)) [
      | inl out ↦ absurd (cc (rw (out, walk) at h))
      | inr (following, e) ↦
          walk-FromLog disk tokens following (walk_token-FromLog disk token current e)
            (rw (e, walk) at h)
    ]

-- An entry that `path_to_log_entry` gives is what `get_log_entry` gives for the number in it.
pub path_to_log_entry-own :
    (disk : Disk) (path : List ℕ) {found : Found}
    → path_to_log_entry disk path ≡ some (some found)
    → get_log_entry disk found.1.inode.inode_number ≡ some found
unfolding path_to_log_entry
path_to_log_entry-own disk path {found} h =
    walk-FromLog disk (strtok_all is_slash path) (get_log_entry disk 0)
      (get_log_entry-FromLog disk 0) h found refl
