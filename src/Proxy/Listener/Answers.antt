-- ===== src/Proxy/Listener/Answers.antt =====
-- What one client gets, by the requests that the queue holds.
use cs537_operating_system_u.Base.{
  ℕ, ◌≤◌, ◌<◌, ◌≡◌, ◌≢◌, refl, List, [], ◌∷◌, none, some, arith, ◌==◌, if◌then◌else◌, length, drop,
  ltb, false, Bool-cases, ltb→lt, inl, inr,
}
use cs537_operating_system_u.Base.CString.{chars}
use cs537_operating_system_u.Base.Int.{ℤ, pos, eq_ℤ}
use cs537_operating_system_u.Proxy.Queue.{ClientRequest, PriorityQueue}
use cs537_operating_system_u.Proxy.Queue.Spec.{add}
use cs537_operating_system_u.Proxy.Queue.Refine.{Holds, add_work_refines, get_work-room}
use cs537_operating_system_u.Proxy.Http.{ok, queue_full, queue_empty}
use cs537_operating_system_u.Proxy.Listener.{
  respond, close, done, handle_getjob, handle_get, handle_connection,
}

ne-eq_ℤ : (a b : ℕ) → a ≢ b → eq_ℤ (pos a) (pos b) ≡ false
ne-eq_ℤ a b h = ground arith

ge→ltb : (a b : ℕ) → b ≤ a → ltb a b ≡ false
ge→ltb a b h = ground arith

-- A request while the queue has room is stored in its place and gets no answer yet; at a full queue
-- it is answered by 599, the connection is closed, and the queue stays as it was.
handle_get_lem :
    {max_size : ℕ} {q : PriorityQueue} {xs : List ClientRequest} (client_fd : ℕ)
    (request : ClientRequest)
    → Holds max_size q xs
    → (q' : PriorityQueue) × (handle_get (pos max_size) q client_fd request
        ≡ some (
            done
              (if ltb (length xs) max_size
                then []
                else respond client_fd queue_full (chars "Queue is full") ∷ close client_fd ∷ [])
              q'))
      × Holds max_size q' (add max_size request xs).0
      × (max_size ≤ length xs → q' ≡ q)
unfolding handle_get
handle_get_lem {max_size} {q} {xs} client_fd request h =
    elim (Bool-cases (ltb (length xs) max_size)) [
      | inl less ↦
          let (q', e, h') = add_work_refines request h in
          (
            q',
            rw (less, ne-eq_ℤ q.size max_size (omega (arith, h.size_eq, ltb→lt _ _ less)), e),
            h',
            λ full. absurd (ground arith),
          )
      | inr full ↦ (q, ground (arith, h.size_eq, h.room), unfold add in rw full h, λ _. refl)
    ]

-- `/GetJob` at an empty queue is answered by 598.
pub handle_getjob_empty :
    {max_size : ℕ} {q : PriorityQueue} (client_fd : ℕ)
    → Holds max_size q []
    → handle_getjob q client_fd
      ≡ some
          (done (respond client_fd queue_empty (chars "Queue is empty") ∷ close client_fd ∷ []) q)
unfolding handle_getjob
handle_getjob_empty client_fd h = rw h.size_eq

-- `/GetJob` at a queue that is not full: the client gets the first request's text behind `GET `, and the others stay.
handle_getjob_takes :
    {max_size : ℕ} {q : PriorityQueue} (client_fd : ℕ) (x : ClientRequest) (xs : List ClientRequest)
    → Holds max_size q (x ∷ xs)
    → length (x ∷ xs) < max_size
    → 4 ≤ length x.read_buffer
    → (q' : PriorityQueue) × (handle_getjob q client_fd
        ≡ some (done (respond client_fd ok (drop 4 x.read_buffer) ∷ close client_fd ∷ []) q'))
      × Holds max_size q' xs
unfolding handle_getjob
handle_getjob_takes {max_size} {q} client_fd x xs h less long =
    let (q', e, h') = get_work-room x xs h less in
    let busy : (q.size == 0) ≡ false = ground (arith, h.size_eq) in
    (q', rw (busy, e, ge→ltb (length x.read_buffer) 4 long), h')

-- A connection whose client sends nothing: the path stays NULL, and the server faults.
pub handle_connection-empty :
    (max_queue_size : ℤ) (queue : PriorityQueue) (client_fd : ℕ)
    → handle_connection max_queue_size queue client_fd (some []) ≡ none
unfolding handle_connection
handle_connection-empty max_queue_size queue client_fd = refl
