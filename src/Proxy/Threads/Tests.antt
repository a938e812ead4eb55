-- ===== src/Proxy/Threads/Tests.antt =====
-- Schedules of the proxy server's threads.
use cs537_operating_system_u.Base.{
  ℕ, zero, suc, ◌≡◌, refl, arith, List, [], ◌∷◌, none, some, get_elem?, Bool, true, false, ◌==◌,
}
use mathlib.Core.Path.{subst}
use cs537_operating_system_u.Base.Int.{pos, negsuc}
use cs537_operating_system_u.Base.CString.{chars, strstr}
use cs537_operating_system_u.Proxy.Queue.{
  ClientRequest, PriorityQueue, create_queue, add_work, place, shift_right, get_work, returns,
}
use cs537_operating_system_u.Proxy.Queue.Refine.{Holds}
use cs537_operating_system_u.Proxy.Parse.{parse_client_request}
use cs537_operating_system_u.Proxy.Threads.{
  admits, Caller, for_worker, accepting, adding, asleep, woken, System, start, choose, at, receive,
  call, accepts, drops, adds, adds_and_wakes, gets, Reach, started, later,
}
use cs537_operating_system_u.Proxy.Threads.Places.{IsPlaced, requests_conserved}
use cs537_operating_system_u.Proxy.Threads.Wakeup.{no_lost_wakeup}
use cs537_operating_system_u.Proxy.Threads.Single.{single_listener_drops_none}

abbrev text : List ℕ
text = chars "GET /3/a HTTP/1.0\r\n\r\n"

abbrev request : ℕ → ClientRequest
request client_fd = record {
  path = some (chars "/3/a");
  priority = pos 3;
  delay = negsuc 0;
  bytes_read = 21;
  client_fd = client_fd;
  read_buffer = text;
}

text-parsed :
    (client_fd : ℕ) → parse_client_request client_fd (some text) ≡ some (request client_fd)
unfolding parse_client_request
text-parsed client_fd = refl

-- Both workers fall asleep, the listener finds room and adds a request, and wakes the first worker.
abbrev one_asleep : System
one_asleep = at (start (pos 2) 1 2) 1 (asleep for_worker)

abbrev two_asleep : System
two_asleep = at one_asleep 2 (asleep for_worker)

abbrev found_room : System
found_room = record (at two_asleep 0 (adding (request 5))) { admitted = request 5 ∷ [] }

abbrev with_one : PriorityQueue
with_one = record { elements = some (request 5) ∷ none ∷ []; capacity = pos 2; size = 1 }

abbrev one_woken : System
one_woken = at (record (at found_room 0 accepting) { queue = with_one }) 1 (woken for_worker)

sleeps_first : call 1 for_worker (start (pos 2) 1 2) ≡ some one_asleep
unfolding call get_work create_queue
sleeps_first = refl

sleeps_second : call 2 for_worker one_asleep ≡ some two_asleep
unfolding call get_work create_queue
sleeps_second = refl

admits_it :
    receive 0 (choose (pos 2) two_asleep.queue 5 (request 5) (chars "/3/a")) two_asleep ≡ found_room
unfolding receive choose create_queue
admits_it = refl

adds_it : add_work found_room.queue (request 5) ≡ some (with_one, true)
unfolding add_work place shift_right create_queue
adds_it = refl

one_woken-Reach : Reach (pos 2) 1 2 one_woken
one_woken-Reach =
    let asleep_both : Reach (pos 2) 1 2 two_asleep =
      later (later started (gets 1 for_worker one_asleep refl sleeps_first))
        (gets 2 for_worker two_asleep refl sleeps_second) in
    let found : Reach (pos 2) 1 2 found_room = subst (Reach (pos 2) 1 2) admits_it (
      later asleep_both
        (accepts 0 5 (some text) (request 5) (chars "/3/a") refl (text-parsed 5) refl)) in
    later found (adds_and_wakes 0 (request 5) with_one 1 for_worker refl adds_it refl)

abbrev is_for : ℕ → ClientRequest → Bool
is_for client_fd r = r.client_fd == client_fd

requests_conserved_example :
    (requests : List ClientRequest) × Holds 2 with_one requests
    × IsPlaced one_woken requests (is_for 5)
requests_conserved_example = requests_conserved (is_for 5) one_woken-Reach

no_lost_wakeup_example :
    ((i : ℕ) × (caller : Caller) × (get_elem? one_woken.threads i ≡ some (woken caller)))
    × ((job : ClientRequest) × (q' : PriorityQueue) × (get_work with_one ≡ some (returns job q')))
no_lost_wakeup_example =
    no_lost_wakeup 2 for_worker one_woken-Reach refl (omega arith) (omega arith)

single_listener_drops_none_example : one_woken.dropped ≡ []
single_listener_drops_none_example = single_listener_drops_none (omega arith) one_woken-Reach

-- Two listeners find room in a queue of one: the request that comes second is dropped.
abbrev two_listeners : System
two_listeners = start (pos 1) 2 0

abbrev first_found : System
first_found = record (at two_listeners 0 (adding (request 5))) { admitted = request 5 ∷ [] }

abbrev both_found : System
both_found = record (at first_found 1 (adding (request 6))) {
  admitted = request 6 ∷ request 5 ∷ [];
}

abbrev full : PriorityQueue
full = record { elements = some (request 5) ∷ []; capacity = pos 1; size = 1 }

abbrev first_added : System
first_added = record (at both_found 0 accepting) { queue = full }

abbrev second_dropped : System
second_dropped = record (at first_added 1 accepting) { dropped = request 6 ∷ [] }

first_admitted :
    receive 0 (choose (pos 1) two_listeners.queue 5 (request 5) (chars "/3/a")) two_listeners
    ≡ first_found
unfolding receive choose create_queue
first_admitted = refl

second_admitted :
    receive 1 (choose (pos 1) first_found.queue 6 (request 6) (chars "/3/a")) first_found
    ≡ both_found
unfolding receive choose create_queue
second_admitted = refl

first_stored : add_work both_found.queue (request 5) ≡ some (full, true)
unfolding add_work place shift_right create_queue
first_stored = refl

second_refused : add_work full (request 6) ≡ some (full, false)
unfolding add_work
second_refused = refl

nobody_asleep : (j : ℕ) (c : Caller) → get_elem? both_found.threads j ≡ some (asleep c) → ⊥
nobody_asleep zero c e = absurd (cc)
nobody_asleep (suc zero) c e = absurd (cc)
nobody_asleep (suc (suc j)) c e = absurd (cc)

second_dropped-Reach : Reach (pos 1) 2 0 second_dropped
second_dropped-Reach =
    let found_once : Reach (pos 1) 2 0 first_found = subst (Reach (pos 1) 2 0) first_admitted (
      later started
        (accepts 0 5 (some text) (request 5) (chars "/3/a") refl (text-parsed 5) refl)) in
    let found_twice : Reach (pos 1) 2 0 both_found = subst (Reach (pos 1) 2 0) second_admitted (
      later found_once
        (accepts 1 6 (some text) (request 6) (chars "/3/a") refl (text-parsed 6) refl)) in
    later (later found_twice (adds 0 (request 5) full refl first_stored nobody_asleep))
      (drops 1 (request 6) full refl second_refused)

-- With `-q -1` the one listener always finds room, and `add_work` drops every request.
negative_admits :
    (queue : PriorityQueue) (path : List ℕ)
    → strstr path (chars "GetJob") ≡ none
    → choose (negsuc 0) queue 5 (request 5) path ≡ admits (request 5)
unfolding choose
negative_admits queue path other = rw (other) (ground arith)

negative_drops :
    (r : ClientRequest)
    → add_work (create_queue (negsuc 0)) r ≡ some (create_queue (negsuc 0), false)
unfolding add_work create_queue
negative_drops r = refl
