-- ===== src/Wgroff.antt =====
-- The formatter of manual pages: p1/wgroff.c. The input is a text without NUL; `toupper` is the one of the
-- C locale; memory and the file to write are there.
pub mod Format
pub mod Page
pub mod Source
pub mod Written
pub mod Body
mod Tests
use cs537_operating_system_u.Base.{
  ℕ, zero, suc, ◌+◌, ◌-◌, ◌*◌, ◌/◌, ◌%◌, ◌^◌, List, [], ◌∷◌, ◌++◌, Option, none, some, ◌==◌,
  if◌then◌else◌, ltb, leb, ◌&&◌, ◌||◌, not, Bool, true, false, length, map, reverse, take, ◌>>=◌,
}
use cs537_operating_system_u.Base.Int.{ℤ, pos, negsuc}
use cs537_operating_system_u.Base.CString.{chars, strncmp_eq, strstr, strchr, atoi, strtok_all}

unfoldable pub remove_trailing_newline : List ℕ → List ℕ
remove_trailing_newline [] = []
remove_trailing_newline (c ∷ []) = if c == 10 then [] else c ∷ []
remove_trailing_newline (c ∷ d ∷ s) = c ∷ remove_trailing_newline (d ∷ s)

abbrev pub toupper : ℕ → ℕ
toupper c = if leb b'a' c && leb c b'z' then c - 32 else c

unfoldable pub to_uppercase : List ℕ → List ℕ
to_uppercase [] = []
to_uppercase (c ∷ s) = toupper c ∷ to_uppercase s

-- An escape sequence "\033[…m".
abbrev pub sgr : ℕ → List ℕ
sgr digit = 27 ∷ b'[' ∷ digit ∷ b'm' ∷ []

-- What the first four tests of the loop of `format_line` append.
unfoldable pub font_at : List ℕ → Option (List ℕ)
font_at line =
    if strncmp_eq 3 line (chars "/fB")
    then some (sgr b'1')
    else if strncmp_eq 3 line (chars "/fI")
    then some (sgr b'3')
    else if strncmp_eq 3 line (chars "/fU")
    then some (sgr b'4')
    else if strncmp_eq 3 line (chars "/fP")
    then some (sgr b'0')
    else none

unfoldable pub double_slash : List ℕ → Bool
double_slash line = strncmp_eq 2 line (chars "//")

-- The loop of `format_line`; the number counts the bytes that `line += 3` or `line += 2` has yet to skip.
unfoldable pub format_from : ℕ → List ℕ → List ℕ
unfolding font_at double_slash
format_from skip [] = []
format_from (suc skip) (c ∷ line) = format_from skip line
format_from zero (c ∷ line) = elim (font_at (c ∷ line)) [
  | some code ↦ code ++ format_from 2 line
  | none ↦ elim (double_slash (c ∷ line)) [
    | true ↦ b'/' ∷ format_from 1 line
    | false ↦ c ∷ format_from 0 line
  ]
]

unfoldable pub format_line : List ℕ → List ℕ
unfolding format_from
format_line line = chars "       " ++ format_from 0 line

-- `while (test(strlen(text))) strcat(text, " ")` in an array that has room for so many more bytes.
unfoldable pub append_while : (ℕ → Bool) → ℕ → List ℕ → Option (List ℕ)
append_while test zero text = if test (length text) then none else some text
append_while test (suc room) text = elim (test (length text)) [
  | true ↦ append_while test room (text ++ b' ' ∷ [])
  | false ↦ some text
]

-- `79 - strlen(path)` wraps around; the array has 500 bytes.
unfoldable pub first_line : List ℕ → Option (List ℕ)
first_line path =
    append_while (λ n. leb n ((2 ^ 64 + 79 - length path) % 2 ^ 64)) (499 - length path) path
    >>= λ padded. some (padded ++ path ++ 10 ∷ [])

-- The line with the date, in an array of 100 bytes.
unfoldable pub last_line : List ℕ → Option (List ℕ)
last_line time = append_while (λ n. ltb n ((80 - length time) / 2)) 99 [] >>= λ indent.
    append_while (λ n. ltb n 80) (99 - length (indent ++ time)) (indent ++ time) >>= λ padded.
    some (padded ++ 10 ∷ [])

-- What is written for a line of the body; `none` is an access outside an array or behind NULL.
unfoldable pub body_line : List ℕ → Option (List ℕ)
body_line line = elim (strstr line (chars "#")) [
  | some comment ↦ some []
  | none ↦ elim (strstr line (chars ".SH")) [
    | none ↦ some (format_line line)
    | some header ↦ elim (strchr line b' ') [
      | none ↦ none
      | some rest ↦ elim rest [
        | [] ↦ none
        | blank ∷ name ↦
            let sh = remove_trailing_newline (to_uppercase name) in
            if ltb 501 (length sh) then none else some (10 ∷ sgr b'1' ++ sh ++ sgr b'0' ++ 10 ∷ [])
      ]
    ]
  ]
]

-- `fgets` into an array with room for so many bytes: the line, and what is left.
unfoldable pub fgets : ℕ → List ℕ → List ℕ × List ℕ
fgets zero s = ([], s)
fgets (suc room) [] = ([], [])
fgets (suc room) (c ∷ s) =
    let (line, rest) = fgets room s in if c == 10 then (c ∷ [], s) else (c ∷ line, rest)

-- All the lines that `fgets` gives one after another; `left` is the room for the line in `acc`, reversed.
unfoldable pub lines_from : ℕ → ℕ → List ℕ → List ℕ → List (List ℕ)
lines_from room left acc [] = elim acc [ [] ↦ [] | a ∷ more ↦ reverse (a ∷ more) ∷ [] ]
lines_from room left acc (c ∷ s) = elim (c == 10 || leb left 1) [
  | true ↦ reverse (c ∷ acc) ∷ lines_from room room [] s
  | false ↦ lines_from room (left - 1) (c ∷ acc) s
]

unfoldable pub body : List (List ℕ) → Option (List ℕ)
body [] = some []
body (line ∷ lines) = body_line line >>= λ text. body lines >>= λ texts. some (text ++ texts)

-- The file that is written and its text, or the line that the message on improper formatting names.
pub data Result : Type 0 where
  missing : Result
  improper : ℕ → Result
  writes : List ℕ → List ℕ → Result
  faults : Result

abbrev pub blank : ℕ → Bool
blank c = c == b' '

-- The four parts of the first line, as `strtok` gives them.
unfoldable pub header : List ℕ → List (List ℕ)
header line = take 4 (map (λ (t : List ℕ × Option (List ℕ)). t.0) (strtok_all blank line))

-- `section < 1 || section > 9`
unfoldable pub section_ok : ℤ → Bool
section_ok (pos n) = leb 1 n && leb n 9
section_ok (negsuc n) = false

-- The text without its last byte.
unfoldable pub without_end : List ℕ → List ℕ
without_end s = take (length s - 1) s

unfoldable pub page : List ℕ → List ℕ → List ℕ → Option (List ℕ)
unfolding first_line last_line body lines_from
page path time rest = first_line path >>= λ first. body (lines_from 511 511 [] rest) >>= λ middle.
    last_line time >>= λ last. some (first ++ middle ++ last)

-- From the check of the date on; `date` has its newline, and is `none` where `header[3]` is NULL.
unfoldable pub write_page : List ℕ → Option (List ℕ) → List ℕ → Result
unfolding page without_end
write_page path none rest = faults
write_page path (some date) rest =
    if ltb 49 (length date)
    then faults
    else if not (length (without_end date) == 10)
    then improper 1
    else elim (page path (without_end date) rest) [ none ↦ faults | some text ↦ writes path text ]

-- From `path` on: the parts of the first line behind the macro, and the text behind the line.
unfoldable pub check_parts : List (List ℕ) → List ℕ → Result
unfolding write_page section_ok
check_parts [] rest = faults
check_parts (title ∷ []) rest = faults
check_parts (title ∷ section ∷ []) rest =
    if section_ok (atoi section) then write_page (title ++ b'.' ∷ section) none rest else improper 1
check_parts (title ∷ section ∷ date ∷ others) rest =
    if section_ok (atoi section)
    then write_page (title ++ b'.' ∷ section) (some date) rest
    else improper 1

unfoldable pub check_header : List (List ℕ) → List ℕ → Result
unfolding check_parts
check_header [] rest = faults
check_header (macro ∷ parts) rest = elim (strstr macro (chars ".TH")) [
  | none ↦ improper 1
  | some found ↦ check_parts parts rest
]

-- The contents of the file, `none` where it cannot be opened. Of an empty file the first line is never read.
unfoldable pub wgroff : Option (List ℕ) → Result
unfolding check_header header fgets
wgroff none = missing
wgroff (some []) = faults
wgroff (some (c ∷ s)) = let (line, rest) = fgets 99 (c ∷ s) in check_header (header line) rest
