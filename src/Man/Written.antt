-- ===== src/Man/Written.antt =====
-- The pages of wgroff as wapropos reads them.
use cs537_operating_system_u.Base.{
  ℕ, ◌+◌, ◌*◌, ◌-◌, ◌<◌, ◌≡◌, refl, sym, ap, ◌∙◌, List, [], ◌∷◌, ◌++◌, append_assoc, map-append,
  none, some, Bool, true, length, All, map, replicate,
}
use cs537_operating_system_u.Base.CString.{chars, strstr, atoi}
use cs537_operating_system_u.Wgroff.{
  to_uppercase, format_line, format_from, font_at, double_slash, body_line, body, section_ok,
  writes, wgroff,
}
use cs537_operating_system_u.Wgroff.Source.{Lacks, with_newline, text_of, header_of, IsPart}
use cs537_operating_system_u.Wgroff.Written.{page_of, wgroff-writes}
use cs537_operating_system_u.Wgroff.Body.{body_line-heading}
use cs537_operating_system_u.Man.{marker, open_entry}
use cs537_operating_system_u.Man.Scan.{
  Part, plain, section, page_text, section_lines, name_lines, occurs_in,
}
use cs537_operating_system_u.Man.Scan
use cs537_operating_system_u.Man.Found.{listing, open_entry_lem}

-- A section of a source with its name and its lines; `marked` is one that wapropos reads, NAME if `true`.
pub data Sect : Type 0 where
  marked : Bool → List ℕ → List (List ℕ) → Sect
  unmarked : List ℕ → List (List ℕ) → Sect

abbrev pub name_of : Sect → List ℕ
name_of (marked is_name name lines) = name
name_of (unmarked name lines) = name

abbrev pub lines_of : Sect → List (List ℕ)
lines_of (marked is_name name lines) = lines
lines_of (unmarked name lines) = lines

abbrev pub source_of : List Sect → List (List ℕ)
source_of [] = []
source_of (s ∷ ss) = (chars ".SH " ++ name_of s) ∷ (lines_of s ++ source_of ss)

abbrev pub indent : List ℕ → List ℕ
indent line = chars "       " ++ line

abbrev pub heading : Sect → List ℕ
heading s = marker (to_uppercase (name_of s))

abbrev pub middle_of : List Sect → List ℕ
middle_of [] = []
middle_of (s ∷ ss) = 10 ∷ (heading s ++ 10 ∷ (text_of (map indent (lines_of s)) ++ middle_of ss))

-- A line of text without a slash, and the name of a section; none is a comment.
abbrev pub IsText : List ℕ → Type 0
IsText line =
    Lacks b'/' line
    × (strstr (line ++ 10 ∷ []) (chars "#") ≡ none)
    × (strstr (line ++ 10 ∷ []) (chars ".SH") ≡ none)

abbrev pub IsSect : Sect → Type 0
IsSect s =
    (strstr (name_of s ++ 10 ∷ []) (chars "#") ≡ none)
    × (length (to_uppercase (name_of s)) < 502)
    × All IsText (lines_of s)

format_from-plain :
    (line : List ℕ) → Lacks b'/' line → format_from 0 (line ++ 10 ∷ []) ≡ line ++ 10 ∷ []
unfolding format_from font_at double_slash
format_from-plain [] h = refl
format_from-plain (c ∷ line) (other, h) =
    rw (format_from, other, other, format_from-plain line h) refl

body_line-text :
    (line : List ℕ) → IsText line → body_line (line ++ 10 ∷ []) ≡ some (indent line ++ 10 ∷ [])
unfolding body_line format_line
body_line-text line (slashes, comment, macro) =
    rw (body_line, comment, macro, format_from-plain line slashes) refl

body-text :
    (lines : List (List ℕ)) (more : List (List ℕ)) (texts : List ℕ)
    → All IsText lines
    → body more ≡ some texts
    → body (map with_newline lines ++ more) ≡ some (text_of (map indent lines) ++ texts)
unfolding body
body-text [] more texts h e = e
body-text (line ∷ lines) more texts (text, h) e =
    rw (body_line-text line text, body-text lines more texts h e)
      (ap (λ l. some (chars "       " ++ l))
        (append_assoc line (10 ∷ []) (text_of (map indent lines) ++ texts)
          ∙ sym (append_assoc line (10 ∷ text_of (map indent lines)) texts)))

body_lem :
    (ss : List Sect) → All IsSect ss → body (map with_newline (source_of ss)) ≡ some (middle_of ss)
unfolding body
body_lem [] h = refl
body_lem (s ∷ ss) ((comment, short, texts), h) =
    let rest = text_of (map indent (lines_of s)) ++ middle_of ss in
    let inner =
      ap body (map-append with_newline (lines_of s) (source_of ss))
      ∙ body-text (lines_of s) (map with_newline (source_of ss)) (middle_of ss) texts
          (body_lem ss h) in
    rw (body_line-heading (name_of s) comment short, inner)
      (ap (λ l. some (10 ∷ l)) (append_assoc (heading s) (10 ∷ []) rest))

-- The page behind its first blank line; the blank line in front of a section ends the one before it.
abbrev pub rows : List Sect → List ℕ → List Part
rows [] last = plain last ∷ []
rows (s ∷ []) last = plain (heading s) ∷ (map plain (map indent (lines_of s)) ++ plain last ∷ [])
rows (marked is_name name lines ∷ s ∷ ss) last =
    section is_name (marker (to_uppercase name)) (map indent lines) ∷ rows (s ∷ ss) last
rows (unmarked name lines ∷ s ∷ ss) last =
    plain (marker (to_uppercase name))
    ∷ (map plain (map indent lines) ++ plain [] ∷ rows (s ∷ ss) last)

page_text-plains :
    (lines : List (List ℕ)) (parts : List Part)
    → page_text (map plain lines ++ parts) ≡ text_of lines ++ page_text parts
page_text-plains [] parts = refl
page_text-plains (l ∷ lines) parts =
    ap (λ t. l ++ 10 ∷ t) (page_text-plains lines parts)
    ∙ sym (append_assoc l (10 ∷ text_of lines) (page_text parts))

-- The text of a section and what follows it.
heading-append :
    (s : Sect) (ss : List Sect) (last : List ℕ)
    → middle_of (s ∷ ss) ++ last
      ≡ 10 ∷ (heading s ++ 10 ∷ (text_of (map indent (lines_of s)) ++ (middle_of ss ++ last)))
heading-append s ss last =
    let t = text_of (map indent (lines_of s)) in
    ap (λ l. 10 ∷ l) (append_assoc (heading s) (10 ∷ (t ++ middle_of ss)) last)
    ∙ ap (λ l. 10 ∷ (heading s ++ 10 ∷ l)) (append_assoc t (middle_of ss) last)

rows_lem :
    (s : Sect) (ss : List Sect) (last : List ℕ)
    → 10 ∷ page_text (rows (s ∷ ss) last) ≡ middle_of (s ∷ ss) ++ (last ++ 10 ∷ [])
rows_lem s [] last =
    ap (λ t. 10 ∷ (heading s ++ 10 ∷ t))
      (page_text-plains (map indent (lines_of s)) (plain last ∷ []))
    ∙ sym (heading-append s [] (last ++ 10 ∷ []))
rows_lem (marked is_name name lines) (s ∷ ss) last =
    ap (λ t. 10 ∷ (marker (to_uppercase name) ++ 10 ∷ (text_of (map indent lines) ++ t)))
      (rows_lem s ss last)
    ∙ sym (heading-append (marked is_name name lines) (s ∷ ss) (last ++ 10 ∷ []))
rows_lem (unmarked name lines) (s ∷ ss) last =
    ap (λ t. 10 ∷ (marker (to_uppercase name) ++ 10 ∷ t))
      (page_text-plains (map indent lines) (plain [] ∷ rows (s ∷ ss) last))
    ∙ ap (λ t. 10 ∷ (marker (to_uppercase name) ++ 10 ∷ (text_of (map indent lines) ++ t)))
        (rows_lem s ss last)
    ∙ sym (heading-append (unmarked name lines) (s ∷ ss) (last ++ 10 ∷ []))

-- The parts of the page that wgroff writes.
abbrev pub parts_of : List ℕ → List ℕ → List Sect → List Part
parts_of path date ss =
    plain (path ++ replicate (80 - 2 * length path) b' ' ++ path)
    ∷ plain []
    ∷ rows ss (replicate 35 b' ' ++ date ++ replicate 35 b' ')

page_text-parts_of :
    (path date : List ℕ) (s : Sect) (ss : List Sect)
    → page_of path date (middle_of (s ∷ ss)) ≡ page_text (parts_of path date (s ∷ ss))
page_text-parts_of path date s ss =
    let first = path ++ replicate (80 - 2 * length path) b' ' ++ path in
    let last = replicate 35 b' ' ++ date ++ replicate 35 b' ' in
    append_assoc (first ++ 10 ∷ []) (middle_of (s ∷ ss)) (last ++ 10 ∷ [])
    ∙ append_assoc first (10 ∷ []) (middle_of (s ∷ ss) ++ (last ++ 10 ∷ []))
    ∙ ap (λ t. first ++ 10 ∷ t) (sym (rows_lem s ss last))

-- The page that wgroff writes for a well-formed first line and sections of text without slashes is one that
-- wapropos understands, if its lines are as `Scan.IsPart` says and its NAME fits: it prints a line for the
-- page exactly if the keyword stands in a line of NAME or DESCRIPTION, as wgroff indents it. That line ends
-- with what stands, from the first '-' on and with it, in what the block from `malloc` held before,
-- followed by the lines of NAME.
pub wgroff-wapropos :
    (title number date keyword d_name block : List ℕ) (i : ℕ) (s : Sect) (ss : List Sect)
    → IsPart title
    → IsPart number
    → IsPart date
    → section_ok (atoi number) ≡ true
    → length date ≡ 10
    → length title + length number < 79
    → All (λ l. (length l < 511) × Lacks 10 l) (source_of (s ∷ ss))
    → All IsSect (s ∷ ss)
    → All Scan.IsPart (parts_of (title ++ b'.' ∷ number) date (s ∷ ss))
    → length block + length (text_of (name_lines (parts_of (title ++ b'.' ∷ number) date (s ∷ ss))))
      < 1000
    → (text : List ℕ) × (wgroff
          (some (header_of title number date ++ 10 ∷ text_of (source_of (s ∷ ss))))
        ≡ writes (title ++ b'.' ∷ number) text)
      × (open_entry keyword i
            (record { is_regular = true; d_name = d_name; text = some text; block = block })
          ≡ some (listing keyword d_name block i (parts_of (title ++ b'.' ∷ number) date (s ∷ ss))))
wgroff-wapropos title number date keyword d_name block i s ss tp np dp ok ten short fit sects parts
      room =
    let path = title ++ b'.' ∷ number in
    (
      page_text (parts_of path date (s ∷ ss)),
      wgroff-writes title number date (source_of (s ∷ ss)) (middle_of (s ∷ ss)) tp np dp ok ten
            short fit (body_lem (s ∷ ss) sects)
          ∙ ap (writes path) (page_text-parts_of path date s ss),
      open_entry_lem keyword d_name block i (parts_of path date (s ∷ ss)) parts room,
    )
