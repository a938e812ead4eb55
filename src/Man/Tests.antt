-- ===== src/Man/Tests.antt =====
-- Searches and displays of small pages.
use cs537_operating_system_u.Base.{
  All, replicate, ℕ, ◌<◌, ltb, length, ◌≡◌, refl, arith, List, [], ◌∷◌, ◌++◌, Option, none, some,
  true, false, if◌then◌else◌,
}
use cs537_operating_system_u.Base.CString.{
  strstr, chars, decimal, decimal_from, strcmp_eq, atoi, digits_from,
}
use cs537_operating_system_u.Wgroff.{section_ok, to_uppercase, writes, wgroff}
use cs537_operating_system_u.Wgroff.Source.{Lacks, header_of, IsPart, lacks, lacks-Lacks, text_of}
use cs537_operating_system_u.Man.{
  marker, Entry, open_entry, file_path, wman, no_entry_in_section, main,
}
use cs537_operating_system_u.Man.Scan.{
  Part, plain, section, page_text, section_lines, name_lines, occurs_in, IsLine, has_marker,
}
use cs537_operating_system_u.Man.Scan
use cs537_operating_system_u.Man.Found.{listing, open_entry_lem}
use cs537_operating_system_u.Man.Written.{
  Sect, marked, unmarked, source_of, indent, IsText, IsSect, parts_of, wgroff-wapropos,
}

-- The page ls(2), as wgroff writes it.
abbrev parts : List Part
parts =
    plain (chars "ls(2)")
    ∷ plain []
    ∷ section true (marker (chars "NAME")) (chars "       ls - list files" ∷ [])
    ∷ section false (marker (chars "DESCRIPTION")) (chars "       It shows names." ∷ [])
    ∷ plain (chars "2023-09-12")
    ∷ []

abbrev entry : Entry
entry = record {
  is_regular = true;
  d_name = chars "ls.2";
  text = some (page_text parts);
  block = [];
}

line : (l : List ℕ) → ltb (length l) 517 ≡ true → lacks 10 l ≡ true → IsLine l
line l short other = (ground (arith, short), lacks-Lacks 10 l other)

open_entry_lem_example :
    open_entry (chars "names") 2 entry ≡ some (listing (chars "names") (chars "ls.2") [] 2 parts)
open_entry_lem_example =
    open_entry_lem (chars "names") (chars "ls.2") [] 2 parts
      (
        (line (chars "ls(2)") refl refl, refl, refl),
        (
          (line [] refl refl, refl, refl),
          (
            (
              line (marker (chars "NAME")) refl refl,
              refl,
              refl,
              ((line (chars "       ls - list files") refl refl, omega arith), tt),
            ),
            (
              (
                line (marker (chars "DESCRIPTION")) refl refl,
                refl,
                refl,
                ((line (chars "       It shows names.") refl refl, omega arith), tt),
              ),
              ((line (chars "2023-09-12") refl refl, refl, refl), tt),
            ),
          ),
        ),
      )
      (omega arith)

-- A file of section 2 is named after its section, but wman asks for name.1.
abbrev files : List ℕ → Option (List ℕ)
files path =
    if strcmp_eq path (chars "./man_pages/man2/example.2")
    then some (chars "two")
    else if strcmp_eq path (chars "./man_pages/man2/example.1")
    then some (chars "one")
    else none

abbrev only_two : List ℕ → Option (List ℕ)
only_two path =
    if strcmp_eq path (chars "./man_pages/man2/example.2") then some (chars "two") else none

not_shown : main only_two (chars "2" ∷ chars "example" ∷ []) ≡ no_entry_in_section
unfolding main wman file_path section_ok atoi digits_from decimal decimal_from
not_shown = refl

-- A source of ls(2) with three sections.
abbrev sects : List Sect
sects =
    marked true (chars "Name") (chars "ls - list files" ∷ [])
    ∷ marked false (chars "Description") (chars "It shows names." ∷ [])
    ∷ unmarked (chars "See also") (chars "cat" ∷ [])
    ∷ []

abbrev ls_parts : List Part
ls_parts = parts_of (chars "ls.2") (chars "2023-09-12") sects

IsText-line :
    (l : List ℕ)
    → lacks b'/' l ≡ true
    → strstr (l ++ 10 ∷ []) (chars "#") ≡ none
    → strstr (l ++ 10 ∷ []) (chars ".SH") ≡ none
    → IsText l
IsText-line l slashes comment macro = (lacks-Lacks b'/' l slashes, comment, macro)

sects-IsSect : All IsSect sects
unfolding to_uppercase
sects-IsSect = (
  (refl, omega arith, (IsText-line (chars "ls - list files") refl refl refl, tt)),
  (
    (refl, omega arith, (IsText-line (chars "It shows names.") refl refl refl, tt)),
    ((refl, omega arith, (IsText-line (chars "cat") refl refl refl, tt)), tt),
  ),
)

source_line :
    (l : List ℕ) → ltb (length l) 511 ≡ true → lacks 10 l ≡ true → (length l < 511) × Lacks 10 l
source_line l short other = (ground (arith, short), lacks-Lacks 10 l other)

sources : All (λ l. (length l < 511) × Lacks 10 l) (source_of sects)
sources = (
  source_line (chars ".SH Name") refl refl,
  (
    source_line (chars "ls - list files") refl refl,
    (
      source_line (chars ".SH Description") refl refl,
      (
        source_line (chars "It shows names.") refl refl,
        (source_line (chars ".SH See also") refl refl, (source_line (chars "cat") refl refl, tt)),
      ),
    ),
  ),
)

word : (w : List ℕ) → 0 < length w → lacks b' ' w ≡ true → lacks 10 w ≡ true → IsPart w
word w some_byte no_blank no_newline = record {
  not_empty = some_byte;
  one_word = lacks-Lacks b' ' w no_blank;
  one_line = lacks-Lacks 10 w no_newline;
}

row :
    (l : List ℕ)
    → ltb (length l) 517 ≡ true
    → lacks 10 l ≡ true
    → has_marker (chars "NAME") l ≡ false
    → has_marker (chars "DESCRIPTION") l ≡ false
    → Scan.IsPart (plain l)
row l short other not_name not_description = (line l short other, not_name, not_description)

ls_parts-IsPart : All Scan.IsPart ls_parts
unfolding to_uppercase
ls_parts-IsPart = (
  row (chars "ls.2" ++ replicate 72 b' ' ++ chars "ls.2") refl refl refl refl,
  (
    row [] refl refl refl refl,
    (
      (
        line (marker (chars "NAME")) refl refl,
        refl,
        refl,
        ((line (indent (chars "ls - list files")) refl refl, omega arith), tt),
      ),
      (
        (
          line (marker (chars "DESCRIPTION")) refl refl,
          refl,
          refl,
          ((line (indent (chars "It shows names.")) refl refl, omega arith), tt),
        ),
        (
          row (marker (chars "SEE ALSO")) refl refl refl refl,
          (
            row (indent (chars "cat")) refl refl refl refl,
            (
              row (replicate 35 b' ' ++ chars "2023-09-12" ++ replicate 35 b' ') refl refl refl
                  refl,
              tt,
            ),
          ),
        ),
      ),
    ),
  ),
)

section_two : section_ok (atoi (chars "2")) ≡ true
unfolding section_ok atoi digits_from
section_two = refl

wgroff-wapropos_example :
    (text : List ℕ) × (wgroff (
        some (
          header_of (chars "ls") (chars "2") (chars "2023-09-12")
          ++ 10 ∷ text_of (source_of sects)))
      ≡ writes (chars "ls.2") text)
    × (open_entry
          (chars "names")
          2
          (record { is_regular = true; d_name = chars "ls.2"; text = some text; block = [] })
        ≡ some (listing (chars "names") (chars "ls.2") [] 2 ls_parts))
wgroff-wapropos_example =
    wgroff-wapropos (chars "ls") (chars "2") (chars "2023-09-12") (chars "names") (chars "ls.2") []
      2 (marked true (chars "Name") (chars "ls - list files" ∷ []))
      (marked false (chars "Description") (chars "It shows names." ∷ [])
        ∷ unmarked (chars "See also") (chars "cat" ∷ [])
        ∷ [])
      (word (chars "ls") (omega arith) refl refl) (word (chars "2") (omega arith) refl refl)
      (word (chars "2023-09-12") (omega arith) refl refl) section_two refl (omega arith) sources
      sects-IsSect ls_parts-IsPart (omega arith)
