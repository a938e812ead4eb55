-- ===== src/Man/Scan.antt =====
-- What wapropos finds in a page.
use cs537_operating_system_u.Base.{
  ℕ, zero, suc, ◌+◌, ◌<◌, ◌≡◌, refl, sym, ap, ap₂, ◌∙◌, List, [], ◌∷◌, ◌++◌, append_assoc,
  append-nil, some, arith, leb, ◌||◌, Bool, true, false, length, length-append, All,
}
use cs537_operating_system_u.Base.CString.{chars}
use cs537_operating_system_u.Wgroff.{fgets}
use cs537_operating_system_u.Wgroff.Source.{Lacks, fgets_lem, text_of}
use cs537_operating_system_u.Man.{occurs, marker, Search, add_line, search_line, read_section}

-- A line without its newline, or a section: whether it is NAME, its first line, and its lines up to a blank one.
pub data Part : Type 0 where
  plain : List ℕ → Part
  section : Bool → List ℕ → List (List ℕ) → Part

abbrev pub page_text : List Part → List ℕ
page_text [] = []
page_text (plain line ∷ parts) = line ++ 10 ∷ page_text parts
page_text (section is_name first lines ∷ parts) =
    first ++ 10 ∷ (text_of lines ++ 10 ∷ page_text parts)

-- The lines of the sections NAME and DESCRIPTION, and those of NAME.
abbrev pub section_lines : List Part → List (List ℕ)
section_lines [] = []
section_lines (plain line ∷ parts) = section_lines parts
section_lines (section is_name first lines ∷ parts) = lines ++ section_lines parts

abbrev pub name_lines : List Part → List (List ℕ)
name_lines [] = []
name_lines (plain line ∷ parts) = name_lines parts
name_lines (section true first lines ∷ parts) = lines ++ name_lines parts
name_lines (section false first lines ∷ parts) = name_lines parts

abbrev pub occurs_in : List ℕ → List (List ℕ) → Bool
occurs_in keyword [] = false
occurs_in keyword (line ∷ lines) = occurs keyword (line ++ 10 ∷ []) || occurs_in keyword lines

-- A line that `fgets` reads at once.
abbrev pub IsLine : List ℕ → Type 0
IsLine line = (length line < 517) × Lacks 10 line

abbrev pub has_marker : List ℕ → List ℕ → Bool
has_marker name line = occurs (marker name) (line ++ 10 ∷ [])

-- A plain line has no marker, the first line of a section has one, and its other lines are not empty.
abbrev pub IsPart : Part → Type 0
IsPart (plain line) =
    IsLine line
    × (has_marker (chars "NAME") line ≡ false)
    × (has_marker (chars "DESCRIPTION") line ≡ false)
IsPart (section true first lines) =
    IsLine first
    × (has_marker (chars "NAME") first ≡ true)
    × (has_marker (chars "DESCRIPTION") first ≡ false)
    × All (λ l. IsLine l × (0 < length l)) lines
IsPart (section false first lines) =
    IsLine first
    × (has_marker (chars "NAME") first ≡ false)
    × (has_marker (chars "DESCRIPTION") first ≡ true)
    × All (λ l. IsLine l × (0 < length l)) lines

pub or_assoc : (a b c : Bool) → ((a || b) || c) ≡ (a || (b || c))
or_assoc true b c = refl
or_assoc false b c = refl

pub or_false : (a : Bool) → (a || false) ≡ a
or_false true = refl
or_false false = refl

pub occurs_in-append :
    (keyword : List ℕ) (xs ys : List (List ℕ))
    → occurs_in keyword (xs ++ ys) ≡ (occurs_in keyword xs || occurs_in keyword ys)
occurs_in-append keyword [] ys = refl
occurs_in-append keyword (x ∷ xs) ys =
    ap (λ b. occurs keyword (x ++ 10 ∷ []) || b) (occurs_in-append keyword xs ys)
    ∙ sym (or_assoc (occurs keyword (x ++ 10 ∷ [])) (occurs_in keyword xs) (occurs_in keyword ys))

pub text_of-append : (xs ys : List (List ℕ)) → text_of (xs ++ ys) ≡ text_of xs ++ text_of ys
text_of-append [] ys = refl
text_of-append (x ∷ xs) ys =
    ap (λ t. x ++ 10 ∷ t) (text_of-append xs ys)
    ∙ sym (append_assoc x (10 ∷ text_of xs) (text_of ys))

-- What the search knows behind a section.
abbrev pub kept : Bool → List (List ℕ) → List ℕ
kept true lines = text_of lines
kept false lines = []

abbrev pub searched : Bool → List ℕ → List (List ℕ) → Search → Search
searched is_name keyword lines search = record {
  found = search.found || occurs_in keyword lines;
  name_section = search.name_section ++ kept is_name lines;
}

search_line_lem :
    (is_name : Bool) (keyword line : List ℕ) (search : Search)
    → length search.name_section + length (kept is_name (line ∷ [])) < 1000
    → search_line is_name keyword (line ++ 10 ∷ []) search
      ≡ some (searched is_name keyword (line ∷ []) search)
unfolding search_line add_line
search_line_lem true keyword line search fits =
    let room : leb 1000 (length search.name_section + length (line ++ 10 ∷ [])) ≡ false =
      ground (arith, fits) in
    let alone = or_false (occurs keyword (line ++ 10 ∷ [])) in rw (room, alone) refl
search_line_lem false keyword line search fits =
    ap₂ (λ b t. some (record { found = search.found || b; name_section = t }))
      (sym (or_false (occurs keyword (line ++ 10 ∷ [])))) (sym (append-nil search.name_section))

searched-nil :
    (is_name : Bool) (keyword : List ℕ) (search : Search)
    → searched is_name keyword [] search ≡ search
searched-nil true keyword search =
    ap₂ (λ b t. record { found = b; name_section = t }) (or_false search.found)
      (append-nil search.name_section)
searched-nil false keyword search =
    ap₂ (λ b t. record { found = b; name_section = t }) (or_false search.found)
      (append-nil search.name_section)

kept-cons :
    (is_name : Bool) (line : List ℕ) (lines : List (List ℕ))
    → kept is_name (line ∷ []) ++ kept is_name lines ≡ kept is_name (line ∷ lines)
kept-cons true line lines = append_assoc line (10 ∷ []) (text_of lines)
kept-cons false line lines = refl

searched-cons :
    (is_name : Bool) (keyword line : List ℕ) (lines : List (List ℕ)) (search : Search)
    → searched is_name keyword lines (searched is_name keyword (line ∷ []) search)
      ≡ searched is_name keyword (line ∷ lines) search
searched-cons is_name keyword line lines search =
    let here = occurs keyword (line ++ 10 ∷ []) in
    ap₂ (λ b t. record { found = b; name_section = t })
      (or_assoc search.found (here || false) (occurs_in keyword lines)
        ∙ ap (λ b. search.found || (b || occurs_in keyword lines)) (or_false here))
      (append_assoc search.name_section (kept is_name (line ∷ [])) (kept is_name lines)
        ∙ ap (λ t. search.name_section ++ t) (kept-cons is_name line lines))

-- The name section does not overflow.
abbrev pub Fits : Bool → List (List ℕ) → Search → Type 0
Fits is_name lines search = length search.name_section + length (kept is_name lines) < 1000

read_section-ends :
    (rounds : ℕ) (is_name : Bool) (keyword : List ℕ) (search : Search) (rest : List ℕ)
    → read_section (suc rounds) is_name keyword search (10 ∷ rest) ≡ some (search, rest)
unfolding read_section
read_section-ends rounds is_name keyword search rest =
    let blank : fgets 517 (10 ∷ rest) ≡ (10 ∷ [], rest) = fgets_lem 517 [] rest (omega arith) tt in
    rw (read_section, blank, blank) refl

read_section-line :
    (rounds : ℕ) (is_name : Bool) (keyword line : List ℕ) (search : Search) (rest : List ℕ)
    → IsLine line
    → 0 < length line
    → Fits is_name (line ∷ []) search
    → read_section (suc rounds) is_name keyword search (line ++ 10 ∷ rest)
      ≡ read_section rounds is_name keyword (searched is_name keyword (line ∷ []) search) rest
unfolding read_section
read_section-line rounds is_name keyword [] search rest h some_byte fits =
    absurd (omega (arith, some_byte))
read_section-line rounds is_name keyword (c ∷ line) search rest h some_byte fits =
    let (other, others) = h.1 in
    let read = fgets_lem 517 (c ∷ line) rest h.0 h.1 in
    rw (read_section, read, other, search_line_lem is_name keyword (c ∷ line) search fits, read)
      refl

pub read_section-lines :
    (lines : List (List ℕ)) (rounds : ℕ) (is_name : Bool) (keyword : List ℕ) (search : Search)
    (rest : List ℕ)
    → length lines < rounds
    → All (λ l. IsLine l × (0 < length l)) lines
    → Fits is_name lines search
    → read_section rounds is_name keyword search (text_of lines ++ 10 ∷ rest)
      ≡ some (searched is_name keyword lines search, rest)
read_section-lines lines zero is_name keyword search rest more h fits = absurd (omega (arith, more))
read_section-lines [] (suc rounds) is_name keyword search rest more h fits =
    read_section-ends rounds is_name keyword search rest
    ∙ ap (λ s. some (s, rest)) (sym (searched-nil is_name keyword search))
read_section-lines (line ∷ lines) (suc rounds) is_name keyword search rest more h fits =
    let parts = ap length (kept-cons is_name line lines) in
    let sizes = length-append (kept is_name (line ∷ [])) (kept is_name lines) in
    let names = length-append search.name_section (kept is_name (line ∷ [])) in
    ap (read_section (suc rounds) is_name keyword search)
      (append_assoc line (10 ∷ text_of lines) (10 ∷ rest))
    ∙ read_section-line rounds is_name keyword line search (text_of lines ++ 10 ∷ rest) h.0.0 h.0.1
        (omega (arith, fits, parts, sizes))
    ∙ read_section-lines lines rounds is_name keyword (searched is_name keyword (line ∷ []) search)
        rest (omega (arith, more)) h.1 (omega (arith, fits, parts, sizes, names))
    ∙ ap (λ s. some (s, rest)) (searched-cons is_name keyword line lines search)
