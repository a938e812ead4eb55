-- ===== src/Base/CString.antt =====
-- The part of <string.h> and <stdlib.h> that the programs use, on texts as lists of bytes without
-- the terminating NUL.
use Prim.Native.Char.{code}
use Prim.Native.String.{String}
use Prim.Native.Nat.{ℕ, zero, suc, ◌+◌, ◌-◌, ◌*◌, ◌/◌, ◌%◌}
use mathlib.Core.Path.{◌≡◌, refl}
use mathlib.Core.Bool.{Bool, true, false, ◌&&◌, ◌||◌, not}
use mathlib.Core.Option.{Option, none, some}
use mathlib.Core.List.{List, [], ◌∷◌, reverse}
use cs537_operating_system_u.Base.Tests.{leb, ◌==◌, if◌then◌else◌}
use cs537_operating_system_u.Base.Int.{ℤ, pos, sub_ℕ}

-- The bytes of a literal.
abbrev pub chars : String → List ℕ
chars String.[] = []
chars (String.◌∷◌ c s) = code c ∷ chars s

-- What a buffer holds as a C string: its bytes up to the first NUL.
abbrev pub c_str : List ℕ → List ℕ
c_str [] = []
c_str (c ∷ s) = let rest = c_str s in if c == 0 then [] else c ∷ rest

-- `strcmp(a, b) == 0`
abbrev pub strcmp_eq : List ℕ → List ℕ → Bool
strcmp_eq [] [] = true
strcmp_eq (a ∷ s) (b ∷ t) = a == b && strcmp_eq s t
strcmp_eq _ _ = false

-- `strncmp(a, b, n) == 0`
abbrev pub strncmp_eq : ℕ → List ℕ → List ℕ → Bool
strncmp_eq zero s t = true
strncmp_eq (suc n) [] [] = true
strncmp_eq (suc n) (a ∷ s) (b ∷ t) = a == b && strncmp_eq n s t
strncmp_eq (suc n) _ _ = false

abbrev pub starts_with : List ℕ → List ℕ → Bool
starts_with [] s = true
starts_with (p ∷ ps) (c ∷ s) = p == c && starts_with ps s
starts_with (p ∷ ps) [] = false

-- `strstr`: the text from the first occurrence on, `none` for NULL.
abbrev pub strstr : List ℕ → List ℕ → Option (List ℕ)
strstr [] needle = if starts_with needle [] then some [] else none
strstr (c ∷ s) needle =
    let rest = strstr s needle in if starts_with needle (c ∷ s) then some (c ∷ s) else rest

-- `strchr`: the text from the first occurrence of a byte on.
abbrev pub strchr : List ℕ → ℕ → Option (List ℕ)
strchr [] b = none
strchr (c ∷ s) b = let rest = strchr s b in if c == b then some (c ∷ s) else rest

-- `strrchr`: the text from the last occurrence of a byte on.
abbrev pub strrchr : List ℕ → ℕ → Option (List ℕ)
strrchr [] b = none
strrchr (c ∷ s) b = elim (strrchr s b) [
  | some t ↦ some t
  | none ↦ if c == b then some (c ∷ s) else none
]

is_empty {ℓ} : {A : Type ℓ} → List A → Bool
is_empty [] = true
is_empty (x ∷ xs) = false

-- The tokens that `strtok` gives one after another, each with the text that is left behind the
-- delimiter that ended it (`none`: the text ended there). `acc` is the token so far, reversed.
unfoldable pub tokens_from : (ℕ → Bool) → List ℕ → List ℕ → List (List ℕ × Option (List ℕ))
unfolding is_empty
tokens_from is_delim acc [] = if is_empty acc then [] else (reverse acc, none) ∷ []
tokens_from is_delim acc (c ∷ s) =
    let rest = tokens_from is_delim (if is_delim c then [] else c ∷ acc) s in
    if is_delim c && not (is_empty acc) then (reverse acc, some s) ∷ rest else rest

unfoldable pub strtok_all : (ℕ → Bool) → List ℕ → List (List ℕ × Option (List ℕ))
unfolding tokens_from
strtok_all is_delim s = tokens_from is_delim [] s

abbrev pub is_digit : ℕ → Bool
is_digit c = leb 48 c && leb c 57

abbrev pub is_space : ℕ → Bool
is_space c = c == 32 || (leb 9 c && leb c 13)

-- The digits at the front, behind those that give `n`.
unfoldable pub digits_from : ℕ → List ℕ → ℕ
digits_from n [] = n
digits_from n (c ∷ s) =
    let rest = digits_from (n * 10 + (c - 48)) s in if is_digit c then rest else n

-- `atoi` behind white space and sign. Where the value does not fit an `int` the C standard leaves it
-- undefined; here it stays exact.
unfoldable pub atoi : List ℕ → ℤ
unfolding digits_from
atoi [] = pos 0
atoi (c ∷ s) =
    let rest = atoi s in
    if is_space c
    then rest
    else if c == b'-'
    then sub_ℕ 0 (digits_from 0 s)
    else if c == b'+'
    then pos (digits_from 0 s)
    else pos (digits_from 0 (c ∷ s))

-- `%d` of a number that is not negative; `fuel` bounds the digits.
unfoldable pub decimal_from : ℕ → ℕ → List ℕ → List ℕ
decimal_from zero n acc = acc
decimal_from (suc fuel) n acc =
    let acc' = (48 + n % 10) ∷ acc in
    let more = decimal_from fuel (n / 10) acc' in if n / 10 == 0 then acc' else more

unfoldable pub decimal : ℕ → List ℕ
unfolding decimal_from
decimal n = decimal_from (suc n) n []

tokens_test :
    strtok_all (λ c. c == 32) (chars "  ab c ")
    ≡ (chars "ab", some (chars "c ")) ∷ (chars "c", some []) ∷ []
unfolding strtok_all
tokens_test = refl

decimal_test : decimal 404 ≡ chars "404"
unfolding decimal
decimal_test = refl

atoi_test : atoi (chars " -42x") ≡ ℤ.negsuc 41
unfolding atoi
atoi_test = refl
