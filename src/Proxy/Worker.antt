-- ===== src/Proxy/Worker.antt =====
-- `serve_request` of p6/starter-code/proxyserver.c, which a worker thread runs for each job: the
-- request goes to the file server, and its response to the client, chunk by chunk.
pub mod Forward
use cs537_operating_system_u.Base.{
  ℕ, List, [], ◌∷◌, ◌++◌, Option, none, some, ◌==◌, if◌then◌else◌, length, ◌>>=◌, Bool, true, false,
}
use cs537_operating_system_u.Base.Int.{ℤ, pos, negsuc}
use cs537_operating_system_u.Base.CString.{chars}
use cs537_operating_system_u.Proxy.Queue.{ClientRequest}
use cs537_operating_system_u.Proxy.Http.{StatusCode, bad_gateway, http_send_data, Sent}

-- What the sockets do: the results of `connect` and of each `write`, and what each `recv` gives (an
-- empty chunk for a result of 0 or less).
pub record Sockets : Type 0 where
  pub connected : Bool
  pub server_writes : List ℤ
  pub received : List (List ℕ)
  pub client_writes : List ℤ

-- What a served request leaves behind.
pub record Served : Type 0 where
  pub to_server : List ℕ
  pub to_client : List ℕ
  pub errors : List StatusCode
  pub client_closed : Bool

-- The loop over `recv`: the bytes that the client gets; `none` while the thread still waits.
unfoldable pub forward_response : List (List ℕ) → List ℤ → Option (List ℕ)
forward_response [] writes = none
forward_response ([] ∷ received) writes = some []
forward_response ((b ∷ bs) ∷ received) writes =
    let more = forward_response received (http_send_data (b ∷ bs) writes).1.writes in
    let (result, sent) = http_send_data (b ∷ bs) writes in
    elim result [
      | none ↦ none
      | some ret ↦ elim ret [
        | pos n ↦ more >>= λ rest. some (sent.bytes ++ rest)
        | negsuc n ↦ some sent.bytes
      ]
    ]

-- `none` while the thread waits for a socket, or where `bytes_read` is not the buffer's length.
unfoldable pub serve_request : Sockets → ClientRequest → Option Served
unfolding forward_response
serve_request sockets request =
    let (result, sent) = http_send_data request.read_buffer sockets.server_writes in
    let forwarded : Option Served = elim result [
      | none ↦ none
      | some ret ↦ elim ret [
        | pos n ↦ forward_response sockets.received sockets.client_writes >>= λ bytes.
            some (record {
              to_server = sent.bytes;
              to_client = bytes;
              errors = [];
              client_closed = true;
            })
        | negsuc n ↦ some (record {
          to_server = sent.bytes;
          to_client = [];
          errors = bad_gateway ∷ [];
          client_closed = true;
        })
      ]
    ] in
    if sockets.connected
    then if request.bytes_read == length request.read_buffer then forwarded else none
    else some (record {
      to_server = [];
      to_client = [];
      errors = bad_gateway ∷ [];
      client_closed = false;
    })
