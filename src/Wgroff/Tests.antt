-- ===== src/Wgroff/Tests.antt =====
-- Runs of the formatter on a small page.
use cs537_operating_system_u.Base.{
  ℕ, ◌≡◌, ◌<◌, refl, arith, List, [], ◌∷◌, ◌++◌, none, some, length, replicate,
}
use cs537_operating_system_u.Base.CString.{chars}
use cs537_operating_system_u.Wgroff.{
  first_line, format_line, body_line, body, to_uppercase, remove_trailing_newline,
}
use cs537_operating_system_u.Wgroff.Format.{
  bold, plain, font, char, Piece, source, printed, format_line-source, format_line-length,
}
use cs537_operating_system_u.Wgroff.Page.{first_line-none}
use cs537_operating_system_u.Wgroff.Body.{Line, comment, heading, text}

abbrev pieces : List Piece
pieces = char b'a' ∷ font bold ∷ char b'/' ∷ char b'f' ∷ font plain ∷ []

format_line-source_example : format_line (source pieces) ≡ chars "       " ++ printed pieces
format_line-source_example = format_line-source pieces

source_test : source pieces ≡ chars "a/fB//f/fP"
unfolding source
source_test = refl

format_line-length_example : length (format_line (chars "/fBls/fP")) < 1024
format_line-length_example = format_line-length (chars "/fBls/fP") (omega arith)

first_line-none_example : first_line (replicate 81 b'x') ≡ none
first_line-none_example = first_line-none (replicate 81 b'x') (omega arith) (omega arith)

abbrev lines : List Line
lines =
    heading (chars "Name")
    ∷ comment (chars "# gone")
    ∷ text (font bold ∷ char b'l' ∷ font plain ∷ char b':' ∷ char b'a' ∷ char b'/' ∷ char b'b' ∷ [])
    ∷ []

abbrev middle : List ℕ
middle =
    (10 ∷ 27 ∷ chars "[1mNAME")
    ++ (27 ∷ chars "[0m")
    ++ (10 ∷ chars "       ")
    ++ (27 ∷ chars "[1ml")
    ++ (27 ∷ chars "[0m:a/b")
    ++ (10 ∷ [])

body_test : body (chars ".SH Name\n" ∷ chars "# gone\n" ∷ chars "/fBl/fP:a//b\n" ∷ []) ≡ some middle
unfolding body body_line remove_trailing_newline to_uppercase format_line
body_test = refl

abbrev date : List ℕ
date = chars "2023-09-05"
