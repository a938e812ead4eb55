-- ===== src/Wgroff/Format.antt =====
-- What `format_line` makes of a line.
use cs537_operating_system_u.Base.{
  ℕ, zero, suc, ◌+◌, ◌*◌, ◌≤◌, ◌<◌, ◌≡◌, refl, ap, ap₂, sym, ◌∙◌, List, [], ◌∷◌, ◌++◌, Option, none,
  some, arith, ◌==◌, if◌then◌else◌, Bool, true, false, ==_iff, Bool-cases, Option-cases, inl, inr,
  length, length-append,
}
use cs537_operating_system_u.Base.CString.{chars, strncmp_eq}
use cs537_operating_system_u.Wgroff.{sgr, font_at, double_slash, format_from, format_line}

pub data Font : Type 0 where
  bold : Font
  italic : Font
  underlined : Font
  plain : Font

-- A piece of a line: a change of the font, or a character.
pub data Piece : Type 0 where
  font : Font → Piece
  char : ℕ → Piece

abbrev pub letter : Font → ℕ
letter bold = b'B'
letter italic = b'I'
letter underlined = b'U'
letter plain = b'P'

abbrev pub digit : Font → ℕ
digit bold = b'1'
digit italic = b'3'
digit underlined = b'4'
digit plain = b'0'

-- The pieces as they are written in the source of a page, a slash doubled.
unfoldable pub source : List Piece → List ℕ
source [] = []
source (font f ∷ pieces) = b'/' ∷ b'f' ∷ letter f ∷ source pieces
source (char c ∷ pieces) = if c == b'/' then b'/' ∷ b'/' ∷ source pieces else c ∷ source pieces

-- The pieces as the terminal gets them.
unfoldable pub printed : List Piece → List ℕ
printed [] = []
printed (font f ∷ pieces) = sgr (digit f) ++ printed pieces
printed (char c ∷ pieces) = c ∷ printed pieces

format_from-font :
    (f : Font) (line : List ℕ)
    → format_from 0 (b'/' ∷ b'f' ∷ letter f ∷ line) ≡ sgr (digit f) ++ format_from 0 line
unfolding format_from font_at double_slash
format_from-font bold line = refl
format_from-font italic line = refl
format_from-font underlined line = refl
format_from-font plain line = refl

format_from-slash : (line : List ℕ) → format_from 0 (b'/' ∷ b'/' ∷ line) ≡ b'/' ∷ format_from 0 line
unfolding format_from font_at double_slash
format_from-slash line = refl

font_at-other : (c : ℕ) (line : List ℕ) → (c == b'/') ≡ false → font_at (c ∷ line) ≡ none
unfolding font_at
font_at-other c line other = rw (font_at, other) refl

double_slash-other : (c : ℕ) (line : List ℕ) → (c == b'/') ≡ false → double_slash (c ∷ line) ≡ false
unfolding double_slash
double_slash-other c line other = rw (double_slash, other) refl

format_from-other :
    (c : ℕ) (line : List ℕ)
    → (c == b'/') ≡ false
    → format_from 0 (c ∷ line) ≡ c ∷ format_from 0 line
unfolding format_from
format_from-other c line other =
    rw (format_from, font_at-other c line other, double_slash-other c line other) refl

format_from-source : (pieces : List Piece) → format_from 0 (source pieces) ≡ printed pieces
unfolding source printed format_from
format_from-source [] = refl
format_from-source (font f ∷ pieces) =
    format_from-font f (source pieces) ∙ ap (λ l. sgr (digit f) ++ l) (format_from-source pieces)
format_from-source (char c ∷ pieces) = elim (Bool-cases (c == b'/')) [
  | inl slash ↦ rw (slash) (
      format_from-slash (source pieces)
      ∙ ap₂ (λ x l. x ∷ l) (sym ((==_iff c b'/').0 slash)) (format_from-source pieces))
  | inr other ↦
      rw (other)
        (format_from-other c (source pieces) other ∙ ap (λ l. c ∷ l) (format_from-source pieces))
]

-- Text with changes of the font, written with its slashes doubled and "/fB", "/fI", "/fU" and "/fP" for the
-- fonts, comes out behind seven blanks: every character as it was, and for each change the terminal's
-- escape sequence.
pub format_line-source :
    (pieces : List Piece) → format_line (source pieces) ≡ chars "       " ++ printed pieces
unfolding format_line
format_line-source pieces = ap (λ l. chars "       " ++ l) (format_from-source pieces)

strncmp_eq-length :
    (n : ℕ) (s needle : List ℕ) → n ≤ length needle → strncmp_eq n s needle ≡ true → n ≤ length s
strncmp_eq-length zero s needle h e = omega arith
strncmp_eq-length (suc n) [] [] h e = absurd (omega arith)
strncmp_eq-length (suc n) [] (b ∷ needle) h e = absurd (cc)
strncmp_eq-length (suc n) (a ∷ s) [] h e = absurd (omega arith)
strncmp_eq-length (suc n) (a ∷ s) (b ∷ needle) h e = elim (Bool-cases (a == b)) [
  | inl same ↦ omega (arith, strncmp_eq-length n s needle (omega arith) (rw (same) at e))
  | inr other ↦ absurd (cc (rw (other) at e))
]

-- A sequence of four bytes, for a line with three at least.
abbrev FitsIn : ℕ → List ℕ → Type 0
FitsIn n code = (length code ≡ 4) × (3 ≤ n)

if-FitsIn :
    {n : ℕ} (b : Bool) (d : ℕ) (rest : Option (List ℕ)) (code : List ℕ)
    → (b ≡ true → 3 ≤ n)
    → (rest ≡ some code → FitsIn n code)
    → (if b then some (sgr d) else rest) ≡ some code
    → FitsIn n code
if-FitsIn true d rest code long others e =
    let same : sgr d ≡ code = cc in (ap length (sym same), long refl)
if-FitsIn false d rest code long others e = others e

font_at-FitsIn : (line code : List ℕ) → font_at line ≡ some code → FitsIn (length line) code
unfolding font_at
font_at-FitsIn line code =
    if-FitsIn (strncmp_eq 3 line (chars "/fB")) b'1' _ code
      (strncmp_eq-length 3 line (chars "/fB") (omega arith))
      (if-FitsIn (strncmp_eq 3 line (chars "/fI")) b'3' _ code
        (strncmp_eq-length 3 line (chars "/fI") (omega arith))
        (if-FitsIn (strncmp_eq 3 line (chars "/fU")) b'4' _ code
          (strncmp_eq-length 3 line (chars "/fU") (omega arith))
          (if-FitsIn (strncmp_eq 3 line (chars "/fP")) b'0' _ code
            (strncmp_eq-length 3 line (chars "/fP") (omega arith)) (λ e. absurd (cc)))))

double_slash-length : (line : List ℕ) → double_slash line ≡ true → 2 ≤ length line
unfolding double_slash
double_slash-length line = strncmp_eq-length 2 line (chars "//") (omega arith)

-- Three bytes of a line give four at most.
format_from-length :
    (skip : ℕ) (line : List ℕ)
    → skip ≤ length line
    → 3 * length (format_from skip line) + 4 * skip ≤ 4 * length line
unfolding format_from
format_from-length zero [] h = omega arith
format_from-length (suc skip) [] h = absurd (omega arith)
format_from-length (suc skip) (c ∷ line) h =
    omega (arith, format_from-length skip line (omega arith))
format_from-length zero (c ∷ line) h = elim (Option-cases (font_at (c ∷ line))) [
  | inr (code, found) ↦
      let (four, long) = font_at-FitsIn (c ∷ line) code found in
      rw (format_from, found)
        (omega (
          arith,
          four,
          long,
          length-append code (format_from 2 line),
          format_from-length 2 line (omega arith),
        ))
  | inl no_font ↦ elim (Bool-cases (double_slash (c ∷ line))) [
    | inl double ↦
        let long = double_slash-length (c ∷ line) double in
        rw (format_from, no_font, double)
          (omega (arith, long, format_from-length 1 line (omega arith)))
    | inr single ↦
        rw (format_from, no_font, single) (omega (arith, format_from-length 0 line (omega arith)))
  ]
]

-- What `format_line` writes for a line that `fgets` gives, at most 511 bytes long, fits in the array `fl`
-- of 1024 bytes with its NUL.
pub format_line-length : (line : List ℕ) → length line ≤ 511 → length (format_line line) < 1024
unfolding format_line
format_line-length line h = omega (
  arith,
  format_from-length 0 line (omega arith),
  length-append (chars "       ") (format_from 0 line),
)
