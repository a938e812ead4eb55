-- ===== src/Man/Found.antt =====
-- The search of wapropos in a page as a whole.
use cs537_operating_system_u.Base.{
  ℕ, zero, suc, ◌+◌, ◌≤◌, ◌<◌, ◌≡◌, refl, sym, ap, ap₂, ◌∙◌, List, [], ◌∷◌, ◌++◌, append_assoc,
  append-nil, Option, some, arith, if◌then◌else◌, ◌||◌, Bool, true, false, length, length-append,
  All, ◌>>=◌,
}
use cs537_operating_system_u.Base.CString.{chars, strchr}
use cs537_operating_system_u.Wgroff.{fgets}
use cs537_operating_system_u.Wgroff.Source.{fgets_lem, text_of}
use cs537_operating_system_u.Man.{Match, Search, enter, read_file, page_name, open_entry}
use cs537_operating_system_u.Man.Scan.{
  Part, plain, section, page_text, section_lines, name_lines, occurs_in, IsLine, has_marker, IsPart,
  or_assoc, or_false, occurs_in-append, text_of-append, searched, Fits, read_section-lines,
}

-- The two tests for a section behind one line.
abbrev behind_line : ℕ → List ℕ → List ℕ → Search → List ℕ → Option Search
behind_line rounds keyword content known rest = do
  (named, behind) ← enter rounds true (chars "NAME") keyword content known rest
  (described, left) ← enter rounds false (chars "DESCRIPTION") keyword content named behind
  read_file rounds keyword described left

read_file-line :
    (rounds : ℕ) (keyword line : List ℕ) (known : Search) (rest : List ℕ)
    → IsLine line
    → read_file (suc rounds) keyword known (line ++ 10 ∷ rest)
      ≡ behind_line rounds keyword (line ++ 10 ∷ []) known rest
unfolding read_file
read_file-line rounds keyword [] known rest h =
    let read = fgets_lem 999 [] rest (omega arith) tt in rw (read_file, read, read) refl
read_file-line rounds keyword (c ∷ line) known rest h =
    let read = fgets_lem 999 (c ∷ line) rest (omega (arith, h.0)) h.1 in
    rw (read_file, read, read) refl

enter-not :
    (rounds : ℕ) (is_name : Bool) (name keyword line : List ℕ) (known : Search) (rest : List ℕ)
    → has_marker name line ≡ false
    → enter rounds is_name name keyword (line ++ 10 ∷ []) known rest ≡ some (known, rest)
unfolding enter
enter-not rounds is_name name keyword line known rest other = rw (enter, other) refl

enter-section :
    (rounds : ℕ) (is_name : Bool) (name keyword line : List ℕ) (lines : List (List ℕ))
    (known : Search) (rest : List ℕ)
    → has_marker name line ≡ true
    → length lines < rounds
    → All (λ l. IsLine l × (0 < length l)) lines
    → Fits is_name lines known
    → enter rounds is_name name keyword (line ++ 10 ∷ []) known (text_of lines ++ 10 ∷ rest)
      ≡ some (searched is_name keyword lines known, rest)
unfolding enter
enter-section rounds is_name name keyword line lines known rest marked more h fits =
    rw (enter, marked) (read_section-lines lines rounds is_name keyword known rest more h fits)

-- What the search knows behind a page.
abbrev pub found_in : List ℕ → List Part → Search → Search
found_in keyword parts known = record {
  found = known.found || occurs_in keyword (section_lines parts);
  name_section = known.name_section ++ text_of (name_lines parts);
}

found_in-name :
    (keyword first : List ℕ) (lines : List (List ℕ)) (parts : List Part) (known : Search)
    → found_in keyword parts (searched true keyword lines known)
      ≡ found_in keyword (section true first lines ∷ parts) known
found_in-name keyword first lines parts known =
    ap₂ (λ b t. record { found = b; name_section = t })
      (or_assoc known.found (occurs_in keyword lines) (occurs_in keyword (section_lines parts))
        ∙ ap (λ b. known.found || b) (sym (occurs_in-append keyword lines (section_lines parts))))
      (append_assoc known.name_section (text_of lines) (text_of (name_lines parts))
        ∙ ap (λ t. known.name_section ++ t) (sym (text_of-append lines (name_lines parts))))

found_in-description :
    (keyword first : List ℕ) (lines : List (List ℕ)) (parts : List Part) (known : Search)
    → found_in keyword parts (searched false keyword lines known)
      ≡ found_in keyword (section false first lines ∷ parts) known
found_in-description keyword first lines parts known =
    ap₂ (λ b t. record { found = b; name_section = t })
      (or_assoc known.found (occurs_in keyword lines) (occurs_in keyword (section_lines parts))
        ∙ ap (λ b. known.found || b) (sym (occurs_in-append keyword lines (section_lines parts))))
      (ap (λ t. t ++ text_of (name_lines parts)) (append-nil known.name_section))

length-text_of : (lines : List (List ℕ)) → length lines ≤ length (text_of lines)
length-text_of [] = omega arith
length-text_of (line ∷ lines) =
    omega (arith, length-append line (10 ∷ text_of lines), length-text_of lines)

section_size :
    (first : List ℕ) (lines : List (List ℕ)) (rest : List ℕ)
    → length lines + length rest < length (first ++ 10 ∷ (text_of lines ++ 10 ∷ rest))
section_size first lines rest = omega (
  arith,
  length-append first (10 ∷ (text_of lines ++ 10 ∷ rest)),
  length-append (text_of lines) (10 ∷ rest),
  length-text_of lines,
)

read_file-parts :
    (parts : List Part) (rounds : ℕ) (keyword : List ℕ) (known : Search)
    → length (page_text parts) < rounds
    → All IsPart parts
    → length known.name_section + length (text_of (name_lines parts)) < 1000
    → read_file rounds keyword known (page_text parts) ≡ some (found_in keyword parts known)
read_file-parts parts zero keyword known more h fits = absurd (omega (arith, more))
read_file-parts [] (suc rounds) keyword known more h fits =
    unfold read_file fgets in
    ap₂ (λ b t. some (record { found = b; name_section = t })) (sym (or_false known.found))
      (sym (append-nil known.name_section))
read_file-parts (plain line ∷ parts) (suc rounds) keyword known more h fits =
    let rest = page_text parts in
    read_file-line rounds keyword line known rest h.0.0
    ∙ rw
        (
          enter-not rounds true (chars "NAME") keyword line known rest h.0.1,
          enter-not rounds false (chars "DESCRIPTION") keyword line known rest h.0.2,
        )
        (read_file-parts parts rounds keyword known
          (omega (arith, more, length-append line (10 ∷ rest))) h.1 fits)
read_file-parts (section true first lines ∷ parts) (suc rounds) keyword known more h fits =
    let rest = page_text parts in
    let known' = searched true keyword lines known in
    let texts = ap length (text_of-append lines (name_lines parts)) in
    let sizes = length-append (text_of lines) (text_of (name_lines parts)) in
    let names = length-append known.name_section (text_of lines) in
    let size = section_size first lines rest in
    read_file-line rounds keyword first known (text_of lines ++ 10 ∷ rest) h.0.0
    ∙ rw
        (
          enter-section rounds true (chars "NAME") keyword first lines known rest h.0.1
              (omega (arith, more, size)) h.0.3 (omega (arith, fits, texts, sizes)),
          enter-not rounds false (chars "DESCRIPTION") keyword first known' rest h.0.2,
        )
        (read_file-parts parts rounds keyword known' (omega (arith, more, size)) h.1
          (omega (arith, fits, texts, sizes, names)))
    ∙ ap some (found_in-name keyword first lines parts known)
read_file-parts (section false first lines ∷ parts) (suc rounds) keyword known more h fits =
    let rest = page_text parts in
    let known' = searched false keyword lines known in
    let names = length-append known.name_section [] in
    let size = section_size first lines rest in
    read_file-line rounds keyword first known (text_of lines ++ 10 ∷ rest) h.0.0
    ∙ rw
        (
          enter-not rounds true (chars "NAME") keyword first known (text_of lines ++ 10 ∷ rest)
              h.0.1,
          enter-section rounds false (chars "DESCRIPTION") keyword first lines known rest h.0.2
              (omega (arith, more, size)) h.0.3 (omega (arith, fits)),
        )
        (read_file-parts parts rounds keyword known' (omega (arith, more, size)) h.1
          (omega (arith, fits, names)))
    ∙ ap some (found_in-description keyword first lines parts known)

-- What is printed for a page of these parts.
abbrev pub listing : List ℕ → List ℕ → List ℕ → ℕ → List Part → List Match
listing keyword d_name block number parts =
    if occurs_in keyword (section_lines parts)
    then record {
      page = page_name d_name;
      section = number;
      description = strchr (block ++ text_of (name_lines parts)) b'-';
    }
      ∷ []
    else []

-- On a regular file whose text is lines without a marker and sections NAME and DESCRIPTION with their lines
-- up to a blank one, all of less than 517 bytes, and whose NAME fits the 1000 bytes behind what `malloc`
-- gave: wapropos prints a line exactly if the keyword stands in a line of these sections, and takes the
-- description from the first '-' of that block on.
pub open_entry_lem :
    (keyword d_name block : List ℕ) (number : ℕ) (parts : List Part)
    → All IsPart parts
    → length block + length (text_of (name_lines parts)) < 1000
    → open_entry keyword number (record {
      is_regular = true;
      d_name = d_name;
      text = some (page_text parts);
      block = block;
    })
      ≡ some (listing keyword d_name block number parts)
unfolding open_entry
open_entry_lem keyword d_name block number parts h fits =
    rw
      (read_file-parts parts (suc (length (page_text parts))) keyword
        (record { found = false; name_section = block }) (omega arith) h fits)
      refl
