-- ===== src/Wgroff/Written.antt =====
-- The page that `wgroff` writes for a well-formed source.
use cs537_operating_system_u.Base.{
  ℕ, ◌+◌, ◌-◌, ◌*◌, ◌≤◌, ◌<◌, ◌≡◌, refl, ap, ◌∙◌, List, [], ◌∷◌, ◌++◌, some, arith, ◌==◌, ltb, true,
  false, All, map, take-length, length, length-append, replicate,
}
use cs537_operating_system_u.Base.CString.{chars, atoi}
use cs537_operating_system_u.Wgroff.{
  writes, fgets, body, header, section_ok, without_end, page, write_page, check_parts, check_header,
  wgroff,
}
use cs537_operating_system_u.Wgroff.Page.{first_line_lem, last_line_lem}
use cs537_operating_system_u.Wgroff.Source.{
  Lacks, with_newline, text_of, header_of, IsPart, fgets_lem, lines_from-text_of, header-header_of,
  header_of-Lacks, header_of-length,
}

-- The name at both ends of 80 columns, the text, and the date in the middle of 80 columns.
abbrev pub page_of : List ℕ → List ℕ → List ℕ → List ℕ
page_of path time middle =
    (path ++ replicate (80 - 2 * length path) b' ' ++ path ++ 10 ∷ [])
    ++ middle
    ++ (replicate 35 b' ' ++ time ++ replicate 35 b' ' ++ 10 ∷ [])

without_end_lem : (s : List ℕ) (c : ℕ) → without_end (s ++ c ∷ []) ≡ s
unfolding without_end
without_end_lem s c =
    take-length (length (s ++ c ∷ []) - 1) s (c ∷ []) (omega (arith, length-append s (c ∷ [])))

page_lem :
    (path time : List ℕ) (lines : List (List ℕ)) {middle : List ℕ}
    → length path < 80
    → length time ≡ 10
    → All (λ l. (length l < 511) × Lacks 10 l) lines
    → body (map with_newline lines) ≡ some middle
    → page path time (text_of lines) ≡ some (page_of path time middle)
unfolding page
page_lem path time lines short ten fit wrote =
    rw
      (
        page,
        first_line_lem path short,
        lines_from-text_of 511 lines fit,
        wrote,
        last_line_lem time ten,
      )
      refl

write_page_lem :
    (path time : List ℕ) (lines : List (List ℕ)) (middle : List ℕ)
    → length path < 80
    → length time ≡ 10
    → All (λ l. (length l < 511) × Lacks 10 l) lines
    → body (map with_newline lines) ≡ some middle
    → write_page path (some (time ++ 10 ∷ [])) (text_of lines)
      ≡ writes path (page_of path time middle)
unfolding write_page
write_page_lem path time lines middle short ten fit wrote =
    let fits : ltb 49 (length (time ++ 10 ∷ [])) ≡ false =
      at_most (omega (arith, ten, length-append time (10 ∷ []))) in
    let is_ten : (length time == 10) ≡ true = ground arith in
    rw
      (
        write_page,
        fits,
        without_end_lem time 10,
        is_ten,
        page_lem path time lines short ten fit wrote,
      )
      refl
  where
    at_most : {n : ℕ} → n ≤ 49 → ltb 49 n ≡ false
    at_most h = ground arith

check_header_lem :
    (title section date rest : List ℕ)
    → section_ok (atoi section) ≡ true
    → check_header (chars ".TH" ∷ title ∷ section ∷ date ∷ []) rest
      ≡ write_page (title ++ b'.' ∷ section) (some date) rest
unfolding check_header check_parts
check_header_lem title section date rest number = rw (number) refl

wgroff_read :
    (c : ℕ) (s : List ℕ)
    → wgroff (some (c ∷ s)) ≡ check_header (header (fgets 99 (c ∷ s)).0) (fgets 99 (c ∷ s)).1
unfolding wgroff
wgroff_read c s = refl

-- A source whose first line is ".TH", a title, a section number from 1 to 9 and a date of ten bytes, with
-- one blank between them, and whose further lines end with a newline and have less than 511 bytes in front
-- of it, and for which `middle` is written: `wgroff` writes the file that title and section name with a dot
-- between them, if that name has less than 80 bytes, with the name at both ends of a line, the middle, and
-- the date in the middle of a line.
pub wgroff-writes :
    (title section date : List ℕ) (lines : List (List ℕ)) (middle : List ℕ)
    → IsPart title
    → IsPart section
    → IsPart date
    → section_ok (atoi section) ≡ true
    → length date ≡ 10
    → length title + length section < 79
    → All (λ l. (length l < 511) × Lacks 10 l) lines
    → body (map with_newline lines) ≡ some middle
    → wgroff (some (header_of title section date ++ 10 ∷ text_of lines))
      ≡ writes (title ++ b'.' ∷ section) (page_of (title ++ b'.' ∷ section) date middle)
wgroff-writes title section date lines middle title_part section_part date_part number ten short fit
      wrote =
    let path = title ++ b'.' ∷ section in
    let line = header_of title section date in
    let room : length line < 99 =
      omega (arith, header_of-length title section date title_part section_part date_part) in
    let read =
      fgets_lem 99 line (text_of lines) room
        (header_of-Lacks title section date title_part section_part date_part) in
    let parts = header-header_of title section date title_part section_part date_part in
    wgroff_read b'.'
      (chars "TH" ++ (b' ' ∷ (title ++ (b' ' ∷ (section ++ (b' ' ∷ date))))) ++ 10 ∷ text_of lines)
    ∙ ap (λ (r : List ℕ × List ℕ). check_header (header r.0) r.1) read
    ∙ ap (λ h. check_header h (text_of lines)) parts
    ∙ check_header_lem title section (date ++ 10 ∷ []) (text_of lines) number
    ∙ write_page_lem path date lines middle (omega (arith, length-append title (b'.' ∷ section)))
        ten fit wrote
