-- ===== src/Proxy/Tests.antt =====
-- Runs of the proxy server's functions at concrete requests, queues and sockets.
use cs537_operating_system_u.Base.{ℕ, length, ◌≡◌, refl, arith, List, [], ◌∷◌, ◌++◌, none, some}
use cs537_operating_system_u.Base.Int.{ℤ, pos, negsuc}
use cs537_operating_system_u.Base.CString.{chars}
use cs537_operating_system_u.Proxy.Queue.{
  ClientRequest, PriorityQueue, create_queue, add_work, returns, take_work, move_down, shift_left,
  get_work,
}
use cs537_operating_system_u.Proxy.Queue.Spec.{Op, put, take, Reply, stored, job, add, get}
use cs537_operating_system_u.Proxy.Queue.Spec
use cs537_operating_system_u.Proxy.Queue.Refine.{Holds, SameGet, add_work_refines, get_work_refines}
use cs537_operating_system_u.Proxy.Queue.Runs.{run, run_refines}
use cs537_operating_system_u.Proxy.Http.{http_send_data}
use cs537_operating_system_u.Proxy.Parse.{parse_client_request}
use cs537_operating_system_u.Proxy.Worker.{forward_response}
use cs537_operating_system_u.Proxy.Worker.Forward.{joined, forward_response-prefix}

abbrev request : ℤ → ℕ → ClientRequest
request priority client_fd = record {
  path = some (47 ∷ 49 ∷ []);
  priority = priority;
  delay = negsuc 0;
  bytes_read = 6;
  client_fd = client_fd;
  read_buffer = 71 ∷ 69 ∷ 84 ∷ 32 ∷ 47 ∷ 49 ∷ [];
}

abbrev low : ClientRequest
low = request (pos 1) 4

abbrev high : ClientRequest
high = request (pos 3) 5

abbrev middle : ClientRequest
middle = request (pos 2) 6

-- Two requests in a queue of three.
abbrev two : PriorityQueue
two = record { elements = some high ∷ some low ∷ none ∷ []; capacity = pos 3; size = 2 }

two-Holds : Holds 3 two (high ∷ low ∷ [])
two-Holds = record {
  rest = none ∷ [];
  elements_eq = refl;
  size_eq = refl;
  capacity_eq = refl;
  room = refl;
  sorted = ((omega arith, tt), (tt, tt));
}

abbrev calls : List Op
calls = take ∷ put low ∷ put high ∷ take ∷ put middle ∷ put low ∷ put high ∷ take ∷ []

run_refines_example : run (create_queue (pos 3)) calls ≡ Spec.run 3 [] calls
run_refines_example = run_refines 3 calls

-- What these calls show: the waits, the stored requests, and the fault of the last take.
calls-run : Spec.run 3 [] calls ≡ none
unfolding Spec.run add get Spec.insert
calls-run = refl

add_work_refines_example :
    (q' : PriorityQueue) × (add_work two middle ≡ some (q', (add 3 middle (high ∷ low ∷ [])).1))
    × Holds 3 q' (add 3 middle (high ∷ low ∷ [])).0
add_work_refines_example = add_work_refines middle two-Holds

get_work_refines_example : SameGet 3 (get 3 (high ∷ low ∷ [])) (get_work two)
get_work_refines_example = get_work_refines (high ∷ low ∷ []) two-Holds

abbrev one : PriorityQueue
one = record { elements = some low ∷ none ∷ none ∷ []; capacity = pos 3; size = 1 }

two-get_work : get_work two ≡ some (returns high one)
unfolding get_work take_work move_down shift_left
two-get_work = refl

abbrev chunks : List (List ℕ)
chunks = (1 ∷ 2 ∷ []) ∷ (3 ∷ []) ∷ [] ∷ []

chunks-forwarded : forward_response chunks (pos 2 ∷ pos 1 ∷ []) ≡ some (1 ∷ 2 ∷ 3 ∷ [])
unfolding forward_response http_send_data
chunks-forwarded = refl

-- A request as a client sends it: the path, the priority in it, and the delay of its header.
abbrev request_text : List ℕ
request_text = chars "GET /3/a.html HTTP/1.0\r\nHost: h\r\nDelay: 2\r\n\r\n"

request_text-parsed :
    parse_client_request 5 (some request_text)
    ≡ some (record {
      path = some (chars "/3/a.html");
      priority = pos 3;
      delay = pos 2;
      bytes_read = length request_text;
      client_fd = 5;
      read_buffer = request_text;
    })
unfolding parse_client_request
request_text-parsed = refl

-- A header of one letter is taken for the delay.
one_letter_header :
    parse_client_request 5 (some (chars "GET /3/a HTTP/1.0\r\nX: 9\r\n\r\n"))
    ≡ some (record {
      path = some (chars "/3/a");
      priority = pos 3;
      delay = pos 9;
      bytes_read = 27;
      client_fd = 5;
      read_buffer = chars "GET /3/a HTTP/1.0\r\nX: 9\r\n\r\n";
    })
unfolding parse_client_request
one_letter_header = refl

-- The second `write` fails, so the client gets the first part alone.
cut_short :
    forward_response ((1 ∷ 2 ∷ []) ∷ (3 ∷ []) ∷ [] ∷ []) (pos 2 ∷ negsuc 0 ∷ []) ≡ some (1 ∷ 2 ∷ [])
unfolding forward_response http_send_data
cut_short = refl

forward_response-prefix_example :
    (unsent : List ℕ) × ((1 ∷ 2 ∷ []) ++ unsent ≡ joined ((1 ∷ 2 ∷ []) ∷ (3 ∷ []) ∷ [] ∷ []))
forward_response-prefix_example =
    forward_response-prefix ((1 ∷ 2 ∷ []) ∷ (3 ∷ []) ∷ [] ∷ []) (pos 2 ∷ negsuc 0 ∷ []) cut_short
