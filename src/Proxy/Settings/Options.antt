-- ===== src/Proxy/Settings/Options.antt =====
-- What a command line of the proxy server means.
use cs537_operating_system_u.Base.{
  ℕ, zero, suc, ◌+◌, ◌≤◌, ◌≡◌, refl, ap, List, [], ◌∷◌, ◌++◌, map, none, some, arith, length,
  length-append, ◌-◌, ◌∙◌, append_assoc,
}
use cs537_operating_system_u.Base.Int.{pos}
use cs537_operating_system_u.Base.CString.{chars, atoi}
use cs537_operating_system_u.Proxy.Settings.{
  Settings, next_int, read_ports, read_listeners, read_workers, read_queue_size, read_ipaddr,
  read_port, Parsed, exits_with_usage, parsed, reader, parse_rounds, parse_args,
}

-- An option with its words.
pub data Setting : Type 0 where
  listeners : List ℕ → List (List ℕ) → Setting
  workers : List ℕ → Setting
  queue_size : List ℕ → Setting
  ipaddr : List ℕ → Setting
  port : List ℕ → Setting

abbrev pub words : Setting → List (List ℕ)
words (listeners n ports) = chars "-l" ∷ n ∷ ports
words (workers n) = chars "-w" ∷ n ∷ []
words (queue_size n) = chars "-q" ∷ n ∷ []
words (ipaddr address) = chars "-i" ∷ address ∷ []
words (port n) = chars "-p" ∷ n ∷ []

abbrev pub apply : Setting → Settings → Settings
apply (listeners n ports) s = record s { num_listener = atoi n; listener_ports = map atoi ports }
apply (workers n) s = record s { num_workers = atoi n }
apply (queue_size n) s = record s { max_queue_size = atoi n }
apply (ipaddr address) s = record s { fileserver_ipaddr = some address }
apply (port n) s = record s { fileserver_port = atoi n }

-- The number behind `-l` is that of the ports.
abbrev pub IsComplete : Setting → Type 0
IsComplete (listeners n ports) = atoi n ≡ pos (length ports)
IsComplete (workers n) = Unit
IsComplete (queue_size n) = Unit
IsComplete (ipaddr address) = Unit
IsComplete (port n) = Unit

abbrev pub AreComplete : List Setting → Type 0
AreComplete [] = Unit
AreComplete (o ∷ os) = IsComplete o × AreComplete os

abbrev pub all_words : List Setting → List (List ℕ)
all_words [] = []
all_words (o ∷ os) = words o ++ all_words os

abbrev pub apply_all : List Setting → Settings → Settings
apply_all [] s = s
apply_all (o ∷ os) s = apply_all os (apply o s)

read_ports-map :
    (ports rest : List (List ℕ))
    → read_ports (length ports) (ports ++ rest) ≡ some (map atoi ports, rest)
unfolding read_ports next_int
read_ports-map [] rest = refl
read_ports-map (p ∷ ports) rest = rw (read_ports-map ports rest) refl

-- The option that a setting begins with.
abbrev option_of : Setting → List ℕ
option_of (listeners n ports) = chars "-l"
option_of (workers n) = chars "-w"
option_of (queue_size n) = chars "-q"
option_of (ipaddr address) = chars "-i"
option_of (port n) = chars "-p"

-- One round takes one setting.
round-words :
    (rounds : ℕ) (o : Setting) (s : Settings) (rest : List (List ℕ))
    → IsComplete o
    → parse_rounds (suc rounds) s (words o ++ rest) ≡ parse_rounds rounds (apply o s) rest
unfolding parse_rounds reader read_listeners read_workers read_queue_size read_ipaddr read_port
    next_int
round-words rounds (listeners n ports) s rest h = rw (h, read_ports-map ports rest) refl
round-words rounds (workers n) s rest h = refl
round-words rounds (queue_size n) s rest h = refl
round-words rounds (ipaddr address) s rest h = refl
round-words rounds (port n) s rest h = refl

rounds-all_words :
    (os : List Setting) (all rounds : ℕ) (s : Settings) (tail : List (List ℕ))
    → AreComplete os
    → all ≡ length os + rounds
    → parse_rounds all s (all_words os ++ tail) ≡ parse_rounds rounds (apply_all os s) tail
rounds-all_words [] all rounds s tail h e = ap (λ n. parse_rounds n s tail) (omega (arith, e))
rounds-all_words (o ∷ os) zero rounds s tail h e = absurd (omega (arith, e))
rounds-all_words (o ∷ os) (suc all) rounds s tail h e =
    ap (parse_rounds (suc all) s) (append_assoc (words o) (all_words os) tail)
    ∙ round-words all o s (all_words os ++ tail) h.0
    ∙ rounds-all_words os all rounds (apply o s) tail h.1 (omega (arith, e))

le-words : (o : Setting) → 1 ≤ length (words o)
le-words (listeners n ports) = omega arith
le-words (workers n) = omega arith
le-words (queue_size n) = omega arith
le-words (ipaddr address) = omega arith
le-words (port n) = omega arith

le-all_words : (os : List Setting) → length os ≤ length (all_words os)
le-all_words [] = omega arith
le-all_words (o ∷ os) =
    omega (arith, length-append (words o) (all_words os), le-words o, le-all_words os)

-- What may stand behind the last setting: nothing, or a word that is no option.
abbrev pub IsEnd : List (List ℕ) → Type 0
IsEnd [] = Unit
IsEnd (word ∷ rest) = reader word ≡ none

abbrev pub finish : Settings → List (List ℕ) → Parsed
finish s [] = parsed s
finish s (word ∷ rest) = exits_with_usage

parse_rounds-finish :
    (rounds : ℕ) (s : Settings) (tail : List (List ℕ))
    → length tail ≤ rounds
    → IsEnd tail
    → parse_rounds rounds s tail ≡ some (finish s tail)
unfolding parse_rounds
parse_rounds-finish zero s [] enough end = refl
parse_rounds-finish (suc rounds) s [] enough end = refl
parse_rounds-finish zero s (word ∷ rest) enough end = absurd (omega (arith, enough))
parse_rounds-finish (suc rounds) s (word ∷ rest) enough end = rw (end) refl

-- `main` reads its settings from any sequence of options with their values, each option changing the settings that
-- the ones before it gave, and ends with the usage at a word that is no option.
pub parse_args_lem :
    (os : List Setting) (s : Settings) (tail : List (List ℕ))
    → AreComplete os
    → IsEnd tail
    → parse_args s (all_words os ++ tail) ≡ some (finish (apply_all os s) tail)
unfolding parse_args
parse_args_lem os s tail h end =
    let args = all_words os ++ tail in
    let spare = length args - length os in
    let parts = length-append (all_words os) tail in
    rounds-all_words os (length args) spare s tail h (omega (arith, parts, le-all_words os))
    ∙ parse_rounds-finish spare (apply_all os s) tail (omega (arith, parts, le-all_words os)) end
