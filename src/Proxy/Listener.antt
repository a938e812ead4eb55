-- ===== src/Proxy/Listener.antt =====
-- `serve_forever` of p6/starter-code/proxyserver.c from the point where a connection is accepted:
-- what is done with one request, while no other thread runs.
pub mod Answers
use cs537_operating_system_u.Base.{
  ℕ, ◌+◌, ◌-◌, List, [], ◌∷◌, Option, none, some, ◌==◌, if◌then◌else◌, length, drop, ltb, ◌>>=◌,
  Bool, true, false,
}
use cs537_operating_system_u.Base.CString.{chars, strstr}
use cs537_operating_system_u.Base.Int.{ℤ, pos, eq_ℤ}
use cs537_operating_system_u.Proxy.Queue.{
  ClientRequest, PriorityQueue, add_work, GetWork, waits, returns, get_work,
}
use cs537_operating_system_u.Proxy.Http.{StatusCode, ok, bad_request, queue_full, queue_empty}
use cs537_operating_system_u.Proxy.Parse.{parse_client_request}

-- What the client sees: calls of `send_error_response`, and of `close`.
pub data Action : Type 0 where
  respond : ℕ → StatusCode → List ℕ → Action
  close : ℕ → Action

-- `blocked`: the listener waits in `get_work`.
pub data Handled : Type 0 where
  blocked : Handled
  done : List Action → PriorityQueue → Handled

abbrev pub is_found : Option (List ℕ) → Bool
is_found none = false
is_found (some s) = true

-- `job->read_buffer + 4`, where the text is that long.
abbrev pub behind_method : List ℕ → Option (List ℕ)
behind_method s = if ltb (length s) 4 then none else some (drop 4 s)

unfoldable pub handle_getjob : PriorityQueue → ℕ → Option Handled
handle_getjob queue client_fd =
    let taken = get_work queue >>= λ out. elim out [
      | waits ↦ some blocked
      | returns job queue' ↦ behind_method job.read_buffer >>= λ text.
          some (done (respond client_fd ok text ∷ close client_fd ∷ []) queue')
    ] in
    if queue.size == 0
    then some
        (done (respond client_fd queue_empty (chars "Queue is empty") ∷ close client_fd ∷ []) queue)
    else taken

unfoldable pub handle_get : ℤ → PriorityQueue → ℕ → ClientRequest → Option Handled
handle_get max_queue_size queue client_fd request =
    let added = add_work queue request >>= λ (queue', signalled). some (done [] queue') in
    if eq_ℤ (pos queue.size) max_queue_size
    then some
        (done (respond client_fd queue_full (chars "Queue is full") ∷ close client_fd ∷ []) queue)
    else added

-- The three branches for a request with its path; the last one leaves the connection open.
unfoldable pub dispatch : ℤ → PriorityQueue → ℕ → ClientRequest → List ℕ → Option Handled
unfolding handle_getjob handle_get
dispatch max_queue_size queue client_fd request path =
    if is_found (strstr path (chars "GetJob"))
    then handle_getjob queue client_fd
    else if is_found (strstr request.read_buffer (chars "GET"))
    then handle_get max_queue_size queue client_fd request
    else some (done (respond client_fd bad_request (chars "Bad request") ∷ []) queue)

-- One round of the loop; `strstr` faults on the NULL path of an empty request.
unfoldable pub handle_connection : ℤ → PriorityQueue → ℕ → Option (List ℕ) → Option Handled
unfolding parse_client_request dispatch
handle_connection max_queue_size queue client_fd bytes = do
  request ← parse_client_request client_fd bytes
  path ← request.path
  dispatch max_queue_size queue client_fd request path
