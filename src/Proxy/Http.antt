-- ===== src/Proxy/Http.antt =====
-- The HTTP helpers of p6/starter-code/proxyserver.c: the status line and headers that are printed,
-- and the loop of `http_send_data` over the results of `write`.
pub mod Send
use cs537_operating_system_u.Base.{
  ℕ, zero, suc, ◌+◌, ◌-◌, ◌≤◌, ◌≡◌, refl, List, [], ◌∷◌, ◌++◌, Option, none, some, arith, ◌==◌,
  if◌then◌else◌, length, take, drop, leb, ◌>>=◌, Bool, true, false,
}
use cs537_operating_system_u.Base.Int.{ℤ, pos, negsuc}
use cs537_operating_system_u.Base.CString.{chars, decimal}

unfoldable pub http_get_response_message : ℕ → List ℕ
http_get_response_message status_code =
    if status_code == 100
    then chars "Continue"
    else if status_code == 200
    then chars "OK"
    else if status_code == 301
    then chars "Moved Permanently"
    else if status_code == 302
    then chars "Found"
    else if status_code == 304
    then chars "Not Modified"
    else if status_code == 400
    then chars "Bad Request"
    else if status_code == 401
    then chars "Unauthorized"
    else if status_code == 403
    then chars "Forbidden"
    else if status_code == 404
    then chars "Not Found"
    else if status_code == 405
    then chars "Method Not Allowed"
    else chars "Internal Server Error"

-- `scode` of proxyserver.h.
pub data StatusCode : Type 0 where
  ok bad_request bad_gateway server_error queue_full queue_empty : StatusCode

abbrev pub status_number : StatusCode → ℕ
status_number ok = 200
status_number bad_request = 400
status_number bad_gateway = 502
status_number server_error = 500
status_number queue_full = 599
status_number queue_empty = 598

abbrev pub crlf : List ℕ
crlf = 13 ∷ 10 ∷ []

-- What is printed to the descriptor.
unfoldable pub http_start_response : ℕ → List ℕ
unfolding http_get_response_message decimal
http_start_response status_code =
    chars "HTTP/1.0 "
    ++ (decimal status_code ++ (chars " " ++ (http_get_response_message status_code ++ crlf)))

unfoldable pub http_send_header : List ℕ → List ℕ → List ℕ
http_send_header key value = key ++ (chars ": " ++ (value ++ crlf))

unfoldable pub http_end_headers : List ℕ
http_end_headers = crlf

-- How far a transfer has come: the bytes that the other side has, and the results of `write` that
-- are left.
pub record Sent : Type 0 where
  pub bytes : List ℕ
  pub writes : List ℤ

-- The loop of `http_send_data`: each call of `write` takes the next result from `writes`, the number
-- of bytes taken or a negative number. The result is the function's, `none` while the program still
-- waits for a `write` that is not in the list.
unfoldable pub http_send_data : List ℕ → List ℤ → Option ℤ × Sent
http_send_data [] writes = (some (pos 0), record { bytes = []; writes = writes })
http_send_data (b ∷ bs) [] = (none, record { bytes = []; writes = [] })
http_send_data (b ∷ bs) (negsuc n ∷ writes) =
    (some (negsuc 0), record { bytes = []; writes = writes })
http_send_data (b ∷ bs) (pos bytes_sent ∷ writes) =
    let (result, sent) = http_send_data (drop bytes_sent (b ∷ bs)) writes in
    (result, record sent { bytes = take bytes_sent (b ∷ bs) ++ sent.bytes })

-- The bytes that `send_error_response` sends before its message, and with it.
unfoldable pub send_error_response : StatusCode → List ℕ → List ℕ
unfolding http_start_response http_send_header http_end_headers
send_error_response err_code err_msg =
    http_start_response (status_number err_code)
    ++ (http_send_header (chars "Content-Type") (chars "text/html")
        ++ (http_end_headers ++ (err_msg ++ chars "\n")))
