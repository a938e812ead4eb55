-- ===== src/Wgroff/Body.antt =====
-- The page that `wgroff` writes, from the lines of its source on: comments, the heads of sections and text.
use cs537_operating_system_u.Base.{
  ℕ, ◌<◌, ◌≡◌, refl, ap, ◌∙◌, List, [], ◌∷◌, ◌++◌, none, some, arith, ltb, false, length,
}
use cs537_operating_system_u.Base.CString.{chars, strstr}
use cs537_operating_system_u.Wgroff.{sgr, remove_trailing_newline, to_uppercase, body_line}
use cs537_operating_system_u.Wgroff.Format.{Piece, source, printed}

-- A line of the source behind the first one.
pub data Line : Type 0 where
  comment : List ℕ → Line
  heading : List ℕ → Line
  text : List Piece → Line

abbrev pub source_line : Line → List ℕ
source_line (comment line) = line
source_line (heading name) = chars ".SH " ++ name
source_line (text pieces) = source pieces

-- What the page has for a line: nothing, the name in upper case and bold behind a blank line, or the text as
-- the terminal gets it, behind seven blanks.
abbrev pub printed_line : Line → List ℕ
printed_line (comment line) = []
printed_line (heading name) = 10 ∷ sgr b'1' ++ to_uppercase name ++ sgr b'0' ++ 10 ∷ []
printed_line (text pieces) = chars "       " ++ (printed pieces ++ 10 ∷ [])

abbrev pub printed_lines : List Line → List ℕ
printed_lines [] = []
printed_lines (l ∷ ls) = printed_line l ++ printed_lines ls

-- A comment has a '#' and no other line has one; a text has no ".SH"; the name of a section fits into its array.
abbrev pub IsLine : Line → Type 0
IsLine (comment line) = (rest : List ℕ) × (strstr (line ++ 10 ∷ []) (chars "#") ≡ some rest)
IsLine (heading name) =
    (strstr (name ++ 10 ∷ []) (chars "#") ≡ none) × (length (to_uppercase name) < 502)
IsLine (text pieces) =
    (strstr (source pieces ++ 10 ∷ []) (chars "#") ≡ none)
    × (strstr (source pieces ++ 10 ∷ []) (chars ".SH") ≡ none)

to_uppercase-end : (s : List ℕ) → to_uppercase (s ++ 10 ∷ []) ≡ to_uppercase s ++ 10 ∷ []
unfolding to_uppercase
to_uppercase-end [] = refl
to_uppercase-end (c ∷ s) = rw (to_uppercase-end s) refl

remove_trailing_newline-end : (s : List ℕ) → remove_trailing_newline (s ++ 10 ∷ []) ≡ s
unfolding remove_trailing_newline
remove_trailing_newline-end [] = refl
remove_trailing_newline-end (c ∷ []) = refl
remove_trailing_newline-end (c ∷ d ∷ s) = rw (remove_trailing_newline-end (d ∷ s)) refl

pub body_line-heading :
    (name : List ℕ)
    → strstr (name ++ 10 ∷ []) (chars "#") ≡ none
    → length (to_uppercase name) < 502
    → body_line ((chars ".SH " ++ name) ++ 10 ∷ [])
      ≡ some (10 ∷ sgr b'1' ++ to_uppercase name ++ sgr b'0' ++ 10 ∷ [])
unfolding body_line
body_line-heading name no_comment short =
    let upper : remove_trailing_newline (to_uppercase (name ++ 10 ∷ [])) ≡ to_uppercase name =
      ap remove_trailing_newline (to_uppercase-end name)
      ∙ remove_trailing_newline-end (to_uppercase name) in
    let fits : ltb 501 (length (to_uppercase name)) ≡ false = ground (arith, short) in
    rw (no_comment, upper, fits) refl
