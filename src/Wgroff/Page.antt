-- ===== src/Wgroff/Page.antt =====
-- The first and the last line of a page.
use cs537_operating_system_u.Base.{
  ℕ, zero, suc, ◌+◌, ◌-◌, ◌*◌, ◌/◌, ◌%◌, ◌^◌, ◌≤◌, ◌<◌, ◌≡◌, refl, ap, sym, ◌∙◌, List, [], ◌∷◌,
  ◌++◌, none, some, arith, tests, ltb, leb, Bool, true, false, Bool-cases, inl, inr, length,
  length-append, replicate, append_assoc, append-nil,
}
use cs537_operating_system_u.Wgroff.{append_while, first_line, last_line}

-- While the length is below a limit for which there is room, blanks are appended.
append_while_lem :
    (test : ℕ → Bool) (limit room : ℕ) (text : List ℕ)
    → ((n : ℕ) → test n ≡ ltb n limit)
    → limit ≤ length text + room
    → append_while test room text ≡ some (text ++ replicate (limit - length text) b' ')
unfolding append_while
append_while_lem test limit zero text below h =
    let ends : test (length text) ≡ false = below (length text) ∙ ground arith in
    let full : limit - length text ≡ 0 = omega arith in
    rw (ends, full) (ap some (sym (append-nil text)))
append_while_lem test limit (suc room) text below h = elim (Bool-cases (ltb (length text) limit)) [
  | inl more ↦
      let goes : test (length text) ≡ true = below (length text) ∙ more in
      let left : limit - length text ≡ suc (limit - length text - 1) = omega tests in
      let longer = length-append text (b' ' ∷ []) in
      let less : limit - length (text ++ b' ' ∷ []) ≡ limit - length text - 1 =
        omega (arith, longer) in
      rw (append_while, goes, left)
        (append_while_lem test limit room (text ++ b' ' ∷ []) below (omega (arith, longer))
          ∙ rw (less)
              (ap some (append_assoc text (b' ' ∷ []) (replicate (limit - length text - 1) b' '))))
  | inr enough ↦
      let ends : test (length text) ≡ false = below (length text) ∙ enough in
      let full : limit - length text ≡ 0 = ground arith in
      rw (append_while, ends, full) (ap some (sym (append-nil text)))
]

-- A test that never fails takes the text out of the array.
append_while-out :
    (test : ℕ → Bool) (room : ℕ) (text : List ℕ)
    → ((n : ℕ) → n ≤ length text + room → test n ≡ true)
    → append_while test room text ≡ none
unfolding append_while
append_while-out test zero text more = rw (more (length text) (omega arith)) refl
append_while-out test (suc room) text more =
    rw (append_while, more (length text) (omega arith))
      (append_while-out test room (text ++ b' ' ∷ [])
        (λ n h. more n (omega (arith, length-append text (b' ' ∷ []), h))))

leb-ltb : (n limit : ℕ) → leb n limit ≡ ltb n (suc limit)
leb-ltb n limit = ground arith

leb-true : (n limit : ℕ) → n ≤ limit → leb n limit ≡ true
leb-true n limit h = ground arith

-- The first line of a page whose name has less than 80 bytes: the name at both ends, and as many blanks
-- between them as 80 columns leave room for.
pub first_line_lem :
    (path : List ℕ)
    → length path < 80
    → first_line path ≡ some (path ++ replicate (80 - 2 * length path) b' ' ++ path ++ 10 ∷ [])
unfolding first_line
first_line_lem path short =
    let limit : (2 ^ 64 + 79 - length path) % 2 ^ 64 ≡ 79 - length path = omega arith in
    let blanks : suc (79 - length path) - length path ≡ 80 - 2 * length path = omega arith in
    rw
      (
        limit,
        append_while_lem (λ n. leb n (79 - length path)) (suc (79 - length path))
            (499 - length path) path (λ n. leb-ltb n (79 - length path)) (omega arith),
        blanks,
      )
      refl

-- A name of 80 bytes or more: `79 - strlen(path)` is a huge number, and the loop leaves the array.
pub first_line-none :
    (path : List ℕ) → 80 ≤ length path → length path < 500 → first_line path ≡ none
unfolding first_line
first_line-none path long fits =
    let limit : 499 ≤ (2 ^ 64 + 79 - length path) % 2 ^ 64 = omega arith in
    rw
      (append_while-out (λ n. leb n ((2 ^ 64 + 79 - length path) % 2 ^ 64)) (499 - length path) path
        (λ n h. leb-true n _ (omega (arith, limit, h, fits))))
      refl

-- The last line of a page has the date in the middle of 80 columns.
pub last_line_lem :
    (time : List ℕ)
    → length time ≡ 10
    → last_line time ≡ some (replicate 35 b' ' ++ time ++ replicate 35 b' ' ++ 10 ∷ [])
unfolding last_line
last_line_lem time ten =
    let half : (80 - length time) / 2 ≡ 35 = omega (arith, ten) in
    let text = replicate 35 b' ' ++ time in
    let long : length text ≡ 45 = omega (arith, ten, length-append (replicate 35 b' ') time) in
    let left : 80 - length text ≡ 35 = omega (arith, long) in
    rw
      (
        half,
        append_while_lem (λ n. ltb n 35) 35 99 [] (λ n. refl) (omega arith),
        append_while_lem (λ n. ltb n 80) 80 (99 - length text) text (λ n. refl)
            (omega (arith, long)),
        left,
      )
      refl
