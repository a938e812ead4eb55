-- ===== src/Proxy/Settings.antt =====
-- The settings of p6/starter-code/proxyserver.c and the command line that `main` reads them from.
-- `argv[argc]` is NULL: `none` is the fault of `atoi` on it.
pub mod Options
pub mod Ends
mod Tests
use cs537_operating_system_u.Base.{
  ℕ, zero, suc, List, [], ◌∷◌, Option, none, some, Bool, true, false, if◌then◌else◌, length, ◌>>=◌,
}
use cs537_operating_system_u.Base.Int.{ℤ, pos, pos_part}
use cs537_operating_system_u.Base.CString.{chars, strcmp_eq, atoi}

-- The global variables; the address may be NULL.
pub record Settings : Type 0 where
  pub num_listener : ℤ
  pub listener_ports : List ℤ
  pub num_workers : ℤ
  pub fileserver_ipaddr : Option (List ℕ)
  pub fileserver_port : ℤ
  pub max_queue_size : ℤ

abbrev pub default_settings : Settings
default_settings = record {
  num_listener = pos 1;
  listener_ports = pos 8000 ∷ [];
  num_workers = pos 1;
  fileserver_ipaddr = some (chars "127.0.0.1");
  fileserver_port = pos 3333;
  max_queue_size = pos 100;
}

-- `atoi(argv[++i])`, with the arguments behind it.
unfoldable pub next_int : List (List ℕ) → Option (ℤ × List (List ℕ))
next_int [] = none
next_int (arg ∷ args) = some (atoi arg, args)

-- The loop over so many ports.
unfoldable pub read_ports : ℕ → List (List ℕ) → Option (List ℤ × List (List ℕ))
unfolding next_int
read_ports zero args = some ([], args)
read_ports (suc n) args = do
  (port, args') ← next_int args
  (ports, rest) ← read_ports n args'
  some (port ∷ ports, rest)

-- Behind `-l`; a negative number of ports gives a loop of no rounds.
unfoldable pub read_listeners : Settings → List (List ℕ) → Option (Settings × List (List ℕ))
unfolding next_int read_ports
read_listeners s args = do
  (n, args') ← next_int args
  (ports, rest) ← read_ports (pos_part n) args'
  some (record s { num_listener = n; listener_ports = ports }, rest)

unfoldable pub read_workers : Settings → List (List ℕ) → Option (Settings × List (List ℕ))
unfolding next_int
read_workers s args = next_int args >>= λ (n, rest). some (record s { num_workers = n }, rest)

unfoldable pub read_queue_size : Settings → List (List ℕ) → Option (Settings × List (List ℕ))
unfolding next_int
read_queue_size s args = next_int args >>= λ (n, rest). some (record s { max_queue_size = n }, rest)

-- `fileserver_ipaddr = argv[++i]`, which takes a NULL.
unfoldable pub read_ipaddr : Settings → List (List ℕ) → Option (Settings × List (List ℕ))
read_ipaddr s [] = some (record s { fileserver_ipaddr = none }, [])
read_ipaddr s (arg ∷ args) = some (record s { fileserver_ipaddr = some arg }, args)

unfoldable pub read_port : Settings → List (List ℕ) → Option (Settings × List (List ℕ))
unfolding next_int
read_port s args = next_int args >>= λ (n, rest). some (record s { fileserver_port = n }, rest)

-- What `main` does with its arguments: it ends with the usage, or goes on.
pub data Parsed : Type 0 where
  exits_with_usage : Parsed
  parsed : Settings → Parsed

-- The branch for an option: `none` is the last one.
unfoldable pub reader :
    List ℕ → Option (Settings → List (List ℕ) → Option (Settings × List (List ℕ)))
reader option =
    if strcmp_eq (chars "-l") option
    then some read_listeners
    else if strcmp_eq (chars "-w") option
    then some read_workers
    else if strcmp_eq (chars "-q") option
    then some read_queue_size
    else if strcmp_eq (chars "-i") option
    then some read_ipaddr
    else if strcmp_eq (chars "-p") option
    then some read_port
    else none

-- The loop, in at most so many rounds; each takes an argument or more.
unfoldable pub parse_rounds : ℕ → Settings → List (List ℕ) → Option Parsed
unfolding reader
parse_rounds rounds s [] = some (parsed s)
parse_rounds zero s (option ∷ args) = none
parse_rounds (suc rounds) s (option ∷ args) = elim (reader option) [
  | none ↦ some exits_with_usage
  | some read ↦ read s args >>= λ (s', rest). parse_rounds rounds s' rest
]

unfoldable pub parse_args : Settings → List (List ℕ) → Option Parsed
unfolding parse_rounds
parse_args s args = parse_rounds (length args) s args
