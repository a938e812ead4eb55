-- ===== src/Wgroff/Source.antt =====
-- The source of a page as lines and as words.
use cs537_operating_system_u.Base.{
  ℕ, zero, suc, ◌+◌, ◌-◌, ◌<◌, ◌≡◌, refl, ap, sym, ◌∙◌, List, [], ◌∷◌, ◌++◌, Option, arith, ◌==◌,
  leb, true, false, Bool, not, ◌&&◌, Bool-cases, inl, inr, All, map, reverse, take, length,
  length-append, append_assoc, append-nil,
}
use mathlib.Core.List.{reverse-cons}
use cs537_operating_system_u.Base.CString.{chars, tokens_from, strtok_all}
use cs537_operating_system_u.Wgroff.{fgets, lines_from, blank, header}

-- No byte of the text is `b`.
abbrev pub Lacks : ℕ → List ℕ → Type 0
Lacks b = All (λ c. (c == b) ≡ false)

abbrev pub lacks : ℕ → List ℕ → Bool
lacks b [] = true
lacks b (c ∷ s) = not (c == b) && lacks b s

pub lacks-Lacks : (b : ℕ) (s : List ℕ) → lacks b s ≡ true → Lacks b s
lacks-Lacks b [] h = tt
lacks-Lacks b (c ∷ s) h = elim (Bool-cases (c == b)) [
  | inl same ↦ absurd (cc (rw (same) at h))
  | inr other ↦ (other, lacks-Lacks b s (rw (other) at h))
]

reverse-shift : (c : ℕ) (acc s : List ℕ) → reverse (c ∷ acc) ++ s ≡ reverse acc ++ c ∷ s
reverse-shift c acc s =
    ap (λ l. l ++ s) (reverse-cons c acc) ∙ append_assoc (reverse acc) (c ∷ []) s

pub fgets_lem :
    (room : ℕ) (line rest : List ℕ)
    → length line < room
    → Lacks 10 line
    → fgets room (line ++ 10 ∷ rest) ≡ (line ++ 10 ∷ [], rest)
unfolding fgets
fgets_lem zero line rest h other = absurd (omega arith)
fgets_lem (suc room) [] rest h other = refl
fgets_lem (suc room) (c ∷ line) rest h (other, others) =
    rw (other, fgets_lem room line rest (omega arith) others) refl

lines_from-line :
    (room left : ℕ) (acc line s : List ℕ)
    → length line < left
    → Lacks 10 line
    → lines_from room left acc (line ++ 10 ∷ s)
      ≡ (reverse acc ++ line ++ 10 ∷ []) ∷ lines_from room room [] s
unfolding lines_from
lines_from-line room left acc [] s h other =
    ap (λ l. l ∷ lines_from room room [] s)
      (reverse-cons 10 acc ∙ ap (λ l. l ++ 10 ∷ []) (sym (append-nil (reverse acc))))
lines_from-line room left acc (c ∷ line) s h (other, others) =
    let more : leb left 1 ≡ false = ground arith in
    rw (lines_from, other, more)
      (lines_from-line room (left - 1) (c ∷ acc) line s (omega arith) others
        ∙ ap (λ l. (l ++ 10 ∷ []) ∷ lines_from room room [] s) (reverse-shift c acc line))

-- Lines one after another, each with its newline.
abbrev pub with_newline : List ℕ → List ℕ
with_newline line = line ++ 10 ∷ []

abbrev pub text_of : List (List ℕ) → List ℕ
text_of [] = []
text_of (line ∷ lines) = line ++ 10 ∷ text_of lines

pub lines_from-text_of :
    (room : ℕ) (lines : List (List ℕ))
    → All (λ l. (length l < room) × Lacks 10 l) lines
    → lines_from room room [] (text_of lines) ≡ map with_newline lines
unfolding lines_from
lines_from-text_of room [] h = refl
lines_from-text_of room (line ∷ lines) ((short, other), h) =
    lines_from-line room room [] line (text_of lines) short other
    ∙ ap (λ l. with_newline line ∷ l) (lines_from-text_of room lines h)

abbrev texts : List (List ℕ × Option (List ℕ)) → List (List ℕ)
texts ts = map (λ (t : List ℕ × Option (List ℕ)). t.0) ts

-- A word in front of a blank, when some of it has been read.
tokens_from-word :
    (w : List ℕ) (a : ℕ) (acc s : List ℕ)
    → Lacks b' ' w
    → texts (tokens_from blank (a ∷ acc) (w ++ b' ' ∷ s))
      ≡ (reverse (a ∷ acc) ++ w) ∷ texts (tokens_from blank [] s)
unfolding tokens_from
tokens_from-word [] a acc s h =
    ap (λ l. l ∷ texts (tokens_from blank [] s)) (sym (append-nil (reverse (a ∷ acc))))
tokens_from-word (c ∷ w) a acc s (other, h) = rw (other) (
    tokens_from-word w c (a ∷ acc) s h
    ∙ ap (λ l. l ∷ texts (tokens_from blank [] s)) (reverse-shift c (a ∷ acc) w))

tokens_from-last :
    (w : List ℕ) (a : ℕ) (acc : List ℕ)
    → Lacks b' ' w
    → texts (tokens_from blank (a ∷ acc) w) ≡ (reverse (a ∷ acc) ++ w) ∷ []
unfolding tokens_from
tokens_from-last [] a acc h = ap (λ l. l ∷ []) (sym (append-nil (reverse (a ∷ acc))))
tokens_from-last (c ∷ w) a acc (other, h) =
    rw (other) (tokens_from-last w c (a ∷ acc) h ∙ ap (λ l. l ∷ []) (reverse-shift c (a ∷ acc) w))

-- A whole word.
tokens_from-first :
    (c : ℕ) (w s : List ℕ)
    → Lacks b' ' (c ∷ w)
    → texts (tokens_from blank [] (c ∷ w ++ b' ' ∷ s)) ≡ (c ∷ w) ∷ texts (tokens_from blank [] s)
unfolding tokens_from
tokens_from-first c w s (other, h) = rw (other) (tokens_from-word w c [] s h)

tokens_from-only :
    (c : ℕ) (w : List ℕ) → Lacks b' ' (c ∷ w) → texts (tokens_from blank [] (c ∷ w)) ≡ (c ∷ w) ∷ []
unfolding tokens_from
tokens_from-only c w (other, h) = rw (other) (tokens_from-last w c [] h)

Lacks-append : (b : ℕ) (s t : List ℕ) → Lacks b s → Lacks b t → Lacks b (s ++ t)
Lacks-append b [] t hs ht = ht
Lacks-append b (c ∷ s) t (other, hs) ht = (other, Lacks-append b s t hs ht)

-- The first line of a source, without its newline.
abbrev pub header_of : List ℕ → List ℕ → List ℕ → List ℕ
header_of title section date =
    chars ".TH" ++ (b' ' ∷ (title ++ (b' ' ∷ (section ++ (b' ' ∷ date)))))

-- A word of the first line: not empty, without blanks and newlines.
pub record IsPart (word : List ℕ) : Type 0 where
  pub not_empty : 0 < length word
  pub one_word : Lacks b' ' word
  pub one_line : Lacks 10 word

IsPart-first :
    (w s : List ℕ)
    → IsPart w
    → texts (tokens_from blank [] (w ++ b' ' ∷ s)) ≡ w ∷ texts (tokens_from blank [] s)
IsPart-first [] s part = absurd (omega (arith, part.not_empty))
IsPart-first (c ∷ w) s part = tokens_from-first c w s part.one_word

IsPart-only :
    (w : List ℕ) → IsPart w → texts (tokens_from blank [] (w ++ 10 ∷ [])) ≡ (w ++ 10 ∷ []) ∷ []
IsPart-only [] part = absurd (omega (arith, part.not_empty))
IsPart-only (c ∷ w) part =
    tokens_from-only c (w ++ 10 ∷ []) (Lacks-append b' ' (c ∷ w) (10 ∷ []) part.one_word (refl, tt))

module _ (title section date : List ℕ) (title_part : IsPart title) (section_part : IsPart section)
    (date_part : IsPart date) where
  pub header-header_of :
      header (header_of title section date ++ 10 ∷ [])
      ≡ chars ".TH" ∷ title ∷ section ∷ (date ++ 10 ∷ []) ∷ []
  unfolding header strtok_all
  header-header_of =
      let end = 10 ∷ [] in
      let rest = b' ' ∷ (section ++ (b' ' ∷ date)) in
      let inner : (title ++ rest) ++ end ≡ title ++ (b' ' ∷ (section ++ (b' ' ∷ (date ++ end)))) =
        append_assoc title rest end
        ∙ ap (λ l. title ++ (b' ' ∷ l)) (append_assoc section (b' ' ∷ date) end) in
      ap (λ l. take 4 (texts (tokens_from blank [] (chars ".TH" ++ (b' ' ∷ l))))) inner
      ∙ ap (take 4) (
          tokens_from-first b'.' (chars "TH")
            (title ++ (b' ' ∷ (section ++ (b' ' ∷ (date ++ end))))) (refl, (refl, (refl, tt)))
          ∙ ap (λ l. chars ".TH" ∷ l)
              (IsPart-first title (section ++ (b' ' ∷ (date ++ end))) title_part
                ∙ ap (λ l. title ∷ l)
                    (IsPart-first section (date ++ end) section_part
                      ∙ ap (λ l. section ∷ l) (IsPart-only date date_part))))

  pub header_of-Lacks : Lacks 10 (header_of title section date)
  header_of-Lacks = (
    refl,
    (
      refl,
      (
        refl,
        (
          refl,
          Lacks-append 10 title _ title_part.one_line
              (refl, Lacks-append 10 section _ section_part.one_line (refl, date_part.one_line)),
        ),
      ),
    ),
  )

  pub header_of-length :
      length (header_of title section date) ≡ 6 + length title + length section + length date
  header_of-length = omega (
    arith,
    length-append title (b' ' ∷ (section ++ (b' ' ∷ date))),
    length-append section (b' ' ∷ date),
  )
