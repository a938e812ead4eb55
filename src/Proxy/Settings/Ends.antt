-- ===== src/Proxy/Settings/Ends.antt =====
-- The loop over the command line ends: each round takes an argument at least.
use mathlib.Core.Path.{subst}
use cs537_operating_system_u.Base.{
  ℕ, zero, suc, ◌≤◌, ◌≡◌, refl, ap, List, [], ◌∷◌, Option, some, arith, length, Bool-cases, inl,
  inr, Option-cases,
}
use cs537_operating_system_u.Base.Int.{ℤ, pos_part}
use cs537_operating_system_u.Base.CString.{chars, strcmp_eq, atoi}
use cs537_operating_system_u.Proxy.Settings.{
  Settings, next_int, read_ports, read_listeners, read_workers, read_queue_size, read_ipaddr,
  read_port, reader, parse_rounds, parse_args,
}

-- Each reader takes what it reads from the front.
read_ports-length :
    (n : ℕ) (args : List (List ℕ)) {ports : List ℤ} {rest : List (List ℕ)}
    → read_ports n args ≡ some (ports, rest)
    → length rest ≤ length args
unfolding read_ports next_int
read_ports-length zero args {ports} {rest} e =
    let same : args ≡ rest = cc in omega (arith, ap length same)
read_ports-length (suc n) [] e = absurd (cc)
read_ports-length (suc n) (arg ∷ args) {ports} {rest} e = elim (Option-cases (read_ports n args)) [
  | inl fault ↦ absurd (cc (rw (fault) at (e)))
  | inr ((ports', rest'), read) ↦
      let same : rest' ≡ rest = cc (rw (read) at (e)) in
      omega (arith, ap length same, read_ports-length n args read)
]

abbrev Read : Type 0
Read = Settings → List (List ℕ) → Option (Settings × List (List ℕ))

abbrev Takes : Read → Type 0
Takes read =
    (s s' : Settings) (args rest : List (List ℕ))
    → read s args ≡ some (s', rest)
    → length rest ≤ length args

read_listeners-Takes : Takes read_listeners
unfolding read_listeners next_int
read_listeners-Takes s s' [] rest e = absurd (cc)
read_listeners-Takes s s' (arg ∷ args) rest e =
    elim (Option-cases (read_ports (pos_part (atoi arg)) args)) [
      | inl fault ↦ absurd (cc (rw (fault) at (e)))
      | inr ((ports, rest'), read) ↦
          let same : rest' ≡ rest = cc (rw (read) at (e)) in
          omega (arith, ap length same, read_ports-length (pos_part (atoi arg)) args read)
    ]

read_workers-Takes : Takes read_workers
unfolding read_workers next_int
read_workers-Takes s s' [] rest e = absurd (cc)
read_workers-Takes s s' (arg ∷ args) rest e =
    let same : args ≡ rest = cc in omega (arith, ap length same)

read_queue_size-Takes : Takes read_queue_size
unfolding read_queue_size next_int
read_queue_size-Takes s s' [] rest e = absurd (cc)
read_queue_size-Takes s s' (arg ∷ args) rest e =
    let same : args ≡ rest = cc in omega (arith, ap length same)

read_ipaddr-Takes : Takes read_ipaddr
unfolding read_ipaddr
read_ipaddr-Takes s s' [] rest e = let same : [] ≡ rest = cc in omega (arith, ap length same)
read_ipaddr-Takes s s' (arg ∷ args) rest e =
    let same : args ≡ rest = cc in omega (arith, ap length same)

read_port-Takes : Takes read_port
unfolding read_port next_int
read_port-Takes s s' [] rest e = absurd (cc)
read_port-Takes s s' (arg ∷ args) rest e =
    let same : args ≡ rest = cc in omega (arith, ap length same)

reader-Takes : (option : List ℕ) {read : Read} → reader option ≡ some read → Takes read
unfolding reader
reader-Takes option {read} e = elim (Bool-cases (strcmp_eq (chars "-l") option)) [
  | inl l ↦ subst Takes (cc (rw (l) at (e))) read_listeners-Takes
  | inr not_l ↦ elim (Bool-cases (strcmp_eq (chars "-w") option)) [
    | inl w ↦ subst Takes (cc (rw (not_l, w) at (e))) read_workers-Takes
    | inr not_w ↦ elim (Bool-cases (strcmp_eq (chars "-q") option)) [
      | inl q ↦ subst Takes (cc (rw (not_l, not_w, q) at (e))) read_queue_size-Takes
      | inr not_q ↦ elim (Bool-cases (strcmp_eq (chars "-i") option)) [
        | inl i ↦ subst Takes (cc (rw (not_l, not_w, not_q, i) at (e))) read_ipaddr-Takes
        | inr not_i ↦ elim (Bool-cases (strcmp_eq (chars "-p") option)) [
          | inl p ↦ subst Takes (cc (rw (not_l, not_w, not_q, not_i, p) at (e))) read_port-Takes
          | inr not_p ↦ absurd (cc (rw (not_l, not_w, not_q, not_i, not_p) at (e)))
        ]
      ]
    ]
  ]
]

same_rounds :
    (n m : ℕ) (s : Settings) (args : List (List ℕ))
    → length args ≤ n
    → length args ≤ m
    → parse_rounds n s args ≡ parse_rounds m s args
unfolding parse_rounds
same_rounds n m s [] l k = refl
same_rounds zero m s (option ∷ args) l k = absurd (omega (arith, l))
same_rounds (suc n) zero s (option ∷ args) l k = absurd (omega (arith, k))
same_rounds (suc n) (suc m) s (option ∷ args) l k = elim (Option-cases (reader option)) [
  | inl unknown ↦ rw (unknown) refl
  | inr (read, known) ↦ elim (Option-cases (read s args)) [
    | inl fault ↦ rw (known, fault) refl
    | inr ((s', rest), out) ↦
        let shorter = reader-Takes option known s s' args rest out in
        rw (known, out)
          (same_rounds n m s' rest (omega (arith, l, shorter)) (omega (arith, k, shorter)))
  ]
]

-- More rounds than there are arguments change nothing: where `parse_args` gives no result, `atoi` got a NULL.
parse_args-enough :
    (rounds : ℕ) (s : Settings) (args : List (List ℕ))
    → length args ≤ rounds
    → parse_rounds rounds s args ≡ parse_args s args
unfolding parse_args
parse_args-enough rounds s args enough =
    same_rounds rounds (length args) s args enough (omega arith)
