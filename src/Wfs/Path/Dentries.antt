-- ===== src/Wfs/Path/Dentries.antt =====
-- A directory's data as a list of dentries, and the search through it.
use cs537_operating_system_u.Base.{
  ℕ, zero, suc, ◌+◌, ◌/◌, ◌^◌, ◌≤◌, ◌<◌, ◌≡◌, ◌≢◌, refl, ap, sym, ◌∙◌, List, [], ◌∷◌, ◌++◌, some,
  arith, if◌then◌else◌, length, drop, Bool, true, false, Bool-cases, inl, inr, All, append_assoc,
  drop-length, append-nil, length-append,
}
use native.Mathlib.Nat.{pow-suc}
use cs537_operating_system_u.Base.CString.{c_str, strcmp_eq}
use cs537_operating_system_u.Wfs.Log.{
  LogEntry, dentry_size, max_file_name_len, encode_le, decode_le,
}
use cs537_operating_system_u.Wfs.Path.{find_dentry, get_inode_number, not_found}

-- A dentry: the name, what stands behind its NUL in the array of 32 bytes, and the inode's number.
pub record Dentry : Type 0 where
  pub name : List ℕ
  pub junk : List ℕ
  pub number : ℕ

pub record IsDentry (d : Dentry) : Type 0 where
  pub no_nul : All (λ c. c ≢ 0) d.name
  pub name_size : length d.name + 1 + length d.junk ≡ max_file_name_len
  pub number_small : d.number < 2 ^ 32

abbrev pub encode : Dentry → List ℕ
encode d = d.name ++ 0 ∷ (d.junk ++ encode_le 8 d.number)

abbrev pub encode_all : List Dentry → List ℕ
encode_all [] = []
encode_all (d ∷ ds) = encode d ++ encode_all ds

-- The number of the first dentry of that name, as the function returns it.
abbrev pub lookup : List ℕ → List Dentry → ℕ
lookup name [] = not_found
lookup name (d ∷ ds) = if strcmp_eq name d.name then d.number else lookup name ds

pub decode-encode :
    (n v : ℕ) (rest : List ℕ) → v < 256 ^ n → decode_le n (encode_le n v ++ rest) ≡ some v
unfolding decode_le encode_le
decode-encode zero v rest h = ap some (omega arith)
decode-encode (suc n) v rest h =
    rw (decode-encode n (v / 256) rest (omega (arith, pow-suc 256 n))) (ap some (omega arith))

pub c_str-name : (name rest : List ℕ) → All (λ c. c ≢ 0) name → c_str (name ++ 0 ∷ rest) ≡ name
c_str-name [] rest h = refl
c_str-name (c ∷ name) rest h = ground (arith, h.0, c_str-name name rest h.1)

pub length-encode_le : (n v : ℕ) → length (encode_le n v) ≡ n
unfolding encode_le
length-encode_le zero v = refl
length-encode_le (suc n) v = ap suc (length-encode_le n (v / 256))

pub length-encode : (d : Dentry) → IsDentry d → length (encode d) ≡ dentry_size
length-encode d h = omega (
  arith,
  h.name_size,
  length-append d.name (0 ∷ (d.junk ++ encode_le 8 d.number)),
  length-append d.junk (encode_le 8 d.number),
  length-encode_le 8 d.number,
)

-- One round of the loop at a text that is not empty.
find_dentry-round :
    (fuel : ℕ) (name bytes : List ℕ)
    → 0 < length bytes
    → find_dentry (suc fuel) name bytes ≡ (
        if strcmp_eq name (c_str bytes)
        then decode_le 8 (drop max_file_name_len bytes)
        else find_dentry fuel name (drop dentry_size bytes))
unfolding find_dentry
find_dentry-round fuel name [] h = absurd (omega arith)
find_dentry-round fuel name (b ∷ bytes) h = refl

pub regroup :
    (d : Dentry) (rest : List ℕ)
    → encode d ++ rest ≡ d.name ++ 0 ∷ (d.junk ++ (encode_le 8 d.number ++ rest))
regroup d rest =
    append_assoc d.name (0 ∷ (d.junk ++ encode_le 8 d.number)) rest
    ∙ ap (λ l. d.name ++ 0 ∷ l) (append_assoc d.junk (encode_le 8 d.number) rest)

pub name_field :
    (d : Dentry)
    → IsDentry d
    → (rest : List ℕ) → drop max_file_name_len (encode d ++ rest) ≡ encode_le 8 d.number ++ rest
name_field d h rest =
    rw (regroup d rest, ← append_assoc d.name (0 ∷ d.junk) (encode_le 8 d.number ++ rest))
      (drop-length max_file_name_len (d.name ++ 0 ∷ d.junk) (encode_le 8 d.number ++ rest)
        (omega (arith, h.name_size, length-append d.name (0 ∷ d.junk))))

-- A round at a dentry.
find_dentry-dentry :
    (fuel : ℕ) (name : List ℕ) (d : Dentry) (rest : List ℕ)
    → IsDentry d
    → find_dentry (suc fuel) name (encode d ++ rest)
      ≡ (if strcmp_eq name d.name then some d.number else find_dentry fuel name rest)
find_dentry-dentry fuel name d rest h = rw (
  find_dentry-round fuel name (encode d ++ rest)
      (omega (arith, length-append (encode d) rest, length-encode d h)),
  name_field d h rest,
  decode-encode 8 d.number rest (omega (arith, h.number_small)),
  drop-length dentry_size (encode d) rest (sym (length-encode d h)),
  regroup d rest,
  c_str-name d.name (d.junk ++ (encode_le 8 d.number ++ rest)) h.no_nul,
)

-- The loop over the bytes of the dentries finds what the list of dentries has.
pub find_dentry-eq-lookup :
    (fuel : ℕ) (name : List ℕ) (ds : List Dentry)
    → All IsDentry ds
    → length ds ≤ fuel
    → find_dentry fuel name (encode_all ds) ≡ some (lookup name ds)
find_dentry-eq-lookup zero name [] h enough = unfold find_dentry in refl
find_dentry-eq-lookup zero name (d ∷ ds) h enough = absurd (omega arith)
find_dentry-eq-lookup (suc fuel) name [] h enough = unfold find_dentry in refl
find_dentry-eq-lookup (suc fuel) name (d ∷ ds) h enough =
    find_dentry-dentry fuel name d (encode_all ds) h.0
    ∙ rw (find_dentry-eq-lookup fuel name ds h.1 (omega arith)) (if-some (strcmp_eq name d.name))
  where
    if-some :
        (b : Bool)
        → (if b then some d.number else some (lookup name ds))
          ≡ some (if b then d.number else lookup name ds)
    if-some true = refl
    if-some false = refl

pub length-encode_all : (ds : List Dentry) → All IsDentry ds → length ds ≤ length (encode_all ds)
length-encode_all [] h = omega arith
length-encode_all (d ∷ ds) h =
    omega (
      arith,
      length-encode d h.0,
      length-append (encode d) (encode_all ds),
      length-encode_all ds h.1,
    )

-- A directory whose data are the dentries `ds` is searched as the list is.
pub get_inode_number-eq-lookup :
    (name : List ℕ) (ds : List Dentry) (log_entry : LogEntry)
    → All IsDentry ds
    → log_entry.bytes ≡ encode_all ds
    → get_inode_number name log_entry ≡ some (lookup name ds)
unfolding get_inode_number
get_inode_number-eq-lookup name ds log_entry h e =
    rw e (find_dentry-eq-lookup (length (encode_all ds)) name ds h (length-encode_all ds h))

pub encode_all-append :
    (ds : List Dentry) (d : Dentry) → encode_all (ds ++ d ∷ []) ≡ encode_all ds ++ encode d
encode_all-append [] d = append-nil (encode d)
encode_all-append (x ∷ ds) d =
    rw (encode_all-append ds d) (sym (append_assoc (encode x) (encode_all ds) (encode d)))

strcmp_eq_refl : (s : List ℕ) → strcmp_eq s s ≡ true
strcmp_eq_refl [] = refl
strcmp_eq_refl (c ∷ s) = ground (arith, strcmp_eq_refl s)

-- A dentry that is added behind the others is found, if there was none of its name.
pub lookup-append :
    (name : List ℕ) (ds : List Dentry) (d : Dentry)
    → lookup name ds ≡ not_found
    → All IsDentry ds
    → d.name ≡ name
    → lookup name (ds ++ d ∷ []) ≡ d.number
lookup-append name [] d missing h e = rw (e, strcmp_eq_refl name)
lookup-append name (x ∷ ds) d missing h e = elim (Bool-cases (strcmp_eq name x.name)) [
  | inl same ↦ absurd (omega (arith, h.0.number_small, (rw same at missing)))
  | inr other ↦ rw other (lookup-append name ds d (rw other at missing) h.1 e)
]
