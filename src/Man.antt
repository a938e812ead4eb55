-- ===== src/Man.antt =====
-- The search of manual pages, p1/wapropos.c, and the display of one, p1/wman.c. The files are arguments: the text
-- of a file without NUL, or `none` where it cannot be opened.
pub mod Scan
pub mod Found
pub mod Shown
pub mod Written
mod Tests
use cs537_operating_system_u.Base.{
  ℕ, zero, suc, ◌+◌, List, [], ◌∷◌, ◌++◌, Option, none, some, ◌==◌, if◌then◌else◌, leb, ◌||◌, Bool,
  true, false, length, take, ◌>>=◌,
}
use cs537_operating_system_u.Base.Int.{ℤ, pos, negsuc}
use cs537_operating_system_u.Base.CString.{chars, strstr, strchr, strtok_all, decimal, atoi}
use cs537_operating_system_u.Wgroff.{fgets, sgr, section_ok}

abbrev pub occurs : List ℕ → List ℕ → Bool
occurs needle line = elim (strstr line needle) [ none ↦ false | some s ↦ true ]

-- "\033[1mNAME\033[0m" and the like.
abbrev pub marker : List ℕ → List ℕ
marker name = sgr b'1' ++ name ++ sgr b'0'

-- What the loops over a file know: whether the keyword was found, and the text in `name_section`.
pub record Search : Type 0 where
  pub found : Bool
  pub name_section : List ℕ

-- `strcat(name_section, line)` in an array of 1000 bytes.
unfoldable pub add_line : List ℕ → Search → Option Search
add_line line search =
    if leb 1000 (length search.name_section + length line)
    then none
    else some (record search { name_section = search.name_section ++ line })

-- One line of a section; `is_name` says which of the two loops it is.
unfoldable pub search_line : Bool → List ℕ → List ℕ → Search → Option Search
unfolding add_line
search_line true keyword line search =
    add_line line (record search { found = search.found || occurs keyword line })
search_line false keyword line search =
    some (record search { found = search.found || occurs keyword line })

-- The loop over a section, up to a line that begins with a newline or the end: the search, and what is left.
unfoldable pub read_section : ℕ → Bool → List ℕ → Search → List ℕ → Option (Search × List ℕ)
unfolding search_line
read_section zero is_name keyword search text = some (search, text)
read_section (suc rounds) is_name keyword search text =
    let (line, rest) = fgets 517 text in
    elim line [
      | [] ↦ some (search, [])
      | c ∷ more ↦ elim (c == 10) [
        | true ↦ some (search, rest)
        | false ↦ search_line is_name keyword (c ∷ more) search >>= λ search'.
            read_section rounds is_name keyword search' rest
      ]
    ]

-- The section behind a line that has the marker.
unfoldable pub enter :
    ℕ → Bool → List ℕ → List ℕ → List ℕ → Search → List ℕ → Option (Search × List ℕ)
unfolding read_section
enter rounds is_name name keyword content search rest = elim (occurs (marker name) content) [
  | true ↦ read_section rounds is_name keyword search rest
  | false ↦ some (search, rest)
]

-- The loop over a file, in at most so many rounds.
unfoldable pub read_file : ℕ → List ℕ → Search → List ℕ → Option Search
unfolding enter
read_file zero keyword search text = some search
read_file (suc rounds) keyword search text =
    let (content, rest) = fgets 999 text in
    elim content [
      | [] ↦ some search
      | c ∷ more ↦ do
        (named, behind) ← enter rounds true (chars "NAME") keyword (c ∷ more) search rest
        (described, left) ← enter rounds false (chars "DESCRIPTION") keyword (c ∷ more) named behind
        read_file rounds keyword described left
    ]

-- A directory entry: `block` is what `malloc` gives for its `name_section`, up to the first NUL.
pub record Entry : Type 0 where
  pub is_regular : Bool
  pub d_name : List ℕ
  pub text : Option (List ℕ)
  pub block : List ℕ

-- A line of output: the page, its section, and the text of NAME from the first '-' on, `none` for NULL.
pub record Match : Type 0 where
  pub page : Option (List ℕ)
  pub section : ℕ
  pub description : Option (List ℕ)

abbrev pub page_name : List ℕ → Option (List ℕ)
page_name d_name = elim (strtok_all (λ c. c == b'.') d_name) [
  | [] ↦ none
  | (token, rest) ∷ tokens ↦ some token
]

-- One entry; `fgets` faults on a file that is not open.
unfoldable pub open_entry : List ℕ → ℕ → Entry → Option (List Match)
unfolding read_file
open_entry keyword section entry = elim entry.is_regular [
  | false ↦ some []
  | true ↦ entry.text >>= λ text.
      read_file (suc (length text)) keyword (record { found = false; name_section = entry.block })
        text
      >>= λ search. some (
          if search.found
          then record {
            page = page_name entry.d_name;
            section = section;
            description = strchr search.name_section b'-';
          }
            ∷ []
          else [])
]

unfoldable pub open_file : List ℕ → ℕ → List Entry → Option (List Match)
unfolding open_entry
open_file keyword section [] = some []
open_file keyword section (entry ∷ entries) = do
  here ← open_entry keyword section entry
  more ← open_file keyword section entries
  some (here ++ more)

-- The loop of `main` over the directories from a section on; one that is not there has no entries.
unfoldable pub wapropos : List ℕ → ℕ → List (List Entry) → Option (List Match)
unfolding open_file
wapropos keyword section [] = some []
wapropos keyword section (entries ∷ dirs) = do
  here ← open_file keyword section entries
  more ← wapropos keyword (section + 1) dirs
  some (here ++ more)

-- `snprintf(buf, 100, "%s/%s.1", path, file_name)`
unfoldable pub file_path : List ℕ → List ℕ → List ℕ
file_path path file_name = take 99 (path ++ b'/' ∷ (file_name ++ chars ".1"))

-- All that the loop of `wman` prints of a file, in at most so many rounds.
unfoldable pub print_file : ℕ → List ℕ → List ℕ
print_file zero text = []
print_file (suc rounds) text =
    let (line, rest) = fgets 511 text in
    elim line [ [] ↦ [] | c ∷ more ↦ (c ∷ more) ++ print_file rounds rest ]

-- `none` for the result 0.
unfoldable pub wman : (List ℕ → Option (List ℕ)) → List ℕ → List ℕ → Option (List ℕ)
unfolding file_path print_file
wman files file_name path =
    files (file_path path file_name) >>= λ text. some (print_file (suc (length text)) text)

abbrev pub section_path : ℕ → List ℕ
section_path i = chars "./man_pages/man" ++ decimal i

-- The loop of `main` over so many sections from `i` on.
unfoldable pub find_page : (List ℕ → Option (List ℕ)) → List ℕ → ℕ → ℕ → Option (List ℕ)
unfolding wman
find_page files file_name i zero = none
find_page files file_name i (suc n) = elim (wman files file_name (section_path i)) [
  | some text ↦ some text
  | none ↦ find_page files file_name (suc i) n
]

-- What `main` prints: a page, or one of its messages.
pub data Output : Type 0 where
  shows : List ℕ → Output
  no_entry : Output
  no_entry_in_section : Output
  invalid_section : Output
  asks_for_page : Output

abbrev or_message : Option (List ℕ) → Output → Output
or_message none message = message
or_message (some text) message = shows text

-- The arguments behind the name of the program.
unfoldable pub main : (List ℕ → Option (List ℕ)) → List (List ℕ) → Output
unfolding find_page
main files [] = asks_for_page
main files (file_name ∷ []) = or_message (find_page files file_name 1 9) no_entry
main files (section ∷ file_name ∷ others) = elim (atoi section) [
  | pos i ↦
      if section_ok (pos i)
      then or_message (wman files file_name (section_path i)) no_entry_in_section
      else invalid_section
  | negsuc n ↦ invalid_section
]
