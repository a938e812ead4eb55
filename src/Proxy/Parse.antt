-- ===== src/Proxy/Parse.antt =====
-- `parse_client_request` of p6/starter-code/proxyserver.c. `none` is undefined behaviour: a NULL
-- pointer that is used, or a read past what the buffer holds.
use cs537_operating_system_u.Base.{
  ℕ, ◌-◌, List, [], ◌∷◌, Option, none, some, ◌==◌, if◌then◌else◌, length, take, ◌>>=◌, Bool, true,
  false, ◌||◌,
}
use cs537_operating_system_u.Base.Int.{ℤ, negsuc}
use cs537_operating_system_u.Base.CString.{
  chars, c_str, strcmp_eq, strncmp_eq, strstr, strtok_all, atoi,
}
use cs537_operating_system_u.Proxy.Queue.{ClientRequest}

abbrev pub getjobcmd : List ℕ
getjobcmd = chars "/GetJob"

-- `"\r\n"`
abbrev pub is_line_end : ℕ → Bool
is_line_end c = c == 13 || c == 10

-- The text behind the first character of `s`, where `s` is no NULL and not at its NUL.
abbrev behind : List ℕ → Option (List ℕ)
behind [] = none
behind (c ∷ s) = some s

-- `strndup(s1 + 1, s2 - s1 - 1)` for `s2 = strstr(s1 + 1, sep)`. With `s2` NULL the size wraps round
-- to one past every text, so the copy is the whole rest.
unfoldable pub field_between : List ℕ → List ℕ → Option (List ℕ)
field_between s sep = do
  s1 ← strstr s sep
  rest ← behind s1
  elim (strstr rest sep) [ none ↦ some rest | some s2 ↦ some (take (length rest - length s2) rest) ]

-- The local variables of the loop that its end reads.
pub record Parsed : Type 0 where
  pub delay : ℤ
  pub priority : ℤ
  pub path : Option (List ℕ)

-- The first line: the path, and whether the loop goes on (it breaks at `/GetJob`).
unfoldable pub parse_request_line : Parsed → List ℕ → Option (Parsed × Bool)
unfolding field_between
parse_request_line p token = do
  path ← field_between token (chars " ")
  let with_path = record p { path = some path }
  let with_priority = field_between path (chars "/") >>= λ number.
      some (record with_path { priority = atoi number }, true)
  if strcmp_eq getjobcmd path then some (with_path, false) else with_priority

-- `atoi(value + 2)` for a `value` at the colon: what follows stands in the token, or behind the NUL
-- that ended it.
abbrev value_text : List ℕ → Option (List ℕ) → Option (List ℕ)
value_text (colon ∷ space ∷ value) rest = some value
value_text value rest = rest

-- A later line. The size that `strncmp` compares is the colon's index less one, and wraps round at
-- a colon in front.
unfoldable pub parse_header : Parsed → List ℕ → Option (List ℕ) → Option Parsed
parse_header p token rest = elim (strstr token (chars ":")) [
  | none ↦ some p
  | some value ↦
      let colon = length token - length value in
      let with_delay = value_text value rest >>= λ text. some (record p { delay = atoi text }) in
      if (if colon == 0
        then strcmp_eq (chars "Delay") token
        else strncmp_eq (colon - 1) (chars "Delay") token)
      then with_delay
      else some p
]

unfoldable pub parse_headers : Parsed → List (List ℕ × Option (List ℕ)) → Option Parsed
parse_headers p [] = some p
parse_headers p ((token, rest) ∷ tokens) =
    parse_header p token rest >>= λ p'. parse_headers p' tokens

unfoldable pub parse_lines : Parsed → List (List ℕ × Option (List ℕ)) → Option Parsed
unfolding parse_request_line parse_header parse_headers
parse_lines p [] = some p
parse_lines p ((token, rest) ∷ tokens) = parse_request_line p token >>= λ (p', go_on).
    let more = parse_headers p' tokens in if go_on then more else some p'

-- `bytes` is what `read` put into the buffer, `none` for its -1 (which then indexes the buffer).
unfoldable pub parse_client_request : ℕ → Option (List ℕ) → Option ClientRequest
unfolding parse_lines strtok_all atoi
parse_client_request fd bytes = do
  read_buffer ← bytes
  p ←
      parse_lines (record { delay = negsuc 0; priority = negsuc 0; path = none })
        (strtok_all is_line_end (c_str read_buffer))
  some (record {
    path = p.path;
    priority = p.priority;
    delay = p.delay;
    bytes_read = length read_buffer;
    client_fd = fd;
    read_buffer = c_str read_buffer;
  })
