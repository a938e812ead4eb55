-- ===== src/Proxy/Threads/Wakeup.antt =====
-- The condition variable of the queue: one signal for each request that is stored.
use mathlib.Core.Path.{subst}
use cs537_operating_system_u.Base.{
  ℕ, ◌+◌, ◌≤◌, ◌<◌, ◌≡◌, refl, sym, ap, List, [], ◌∷◌, some, arith, get_elem?, set, replicate, true,
}
use cs537_operating_system_u.Base.Int.{pos}
use cs537_operating_system_u.Proxy.Queue.{ClientRequest, PriorityQueue, add_work, returns, get_work}
use cs537_operating_system_u.Proxy.Queue.Refine.{Holds, get_work-room}
use cs537_operating_system_u.Proxy.Worker.{Sockets}
use cs537_operating_system_u.Proxy.Threads.{
  Caller, Pc, accepting, adding, calling, asleep, woken, delaying, serving, System, Choice, answers,
  calls, admits, choose, at, receive, serve, Step, accepts, drops, adds, adds_and_wakes, gets,
  gets_again, wakes, ends_delay, serves, Reach, started, later, for_client, for_worker,
}
use cs537_operating_system_u.Proxy.Threads.Count.{
  total, total-set, total-append, total-replicate_zero, total_pos, le-total,
}
use cs537_operating_system_u.Proxy.Queue.Replies.{
  add_work-size, add_work-full, get_work-empty, get_work-size,
}
use cs537_operating_system_u.Proxy.Threads.Deliver.{
  is_asleep, is_woken, Called, waited, went_on, call-Called, serve-Served,
}
use cs537_operating_system_u.Proxy.Threads.Places.{Reach-Accounted, still_there}

-- While a thread sleeps, the requests are at most as many as the threads that were woken for them.
abbrev pub IsSignalled : System → Type 0
IsSignalled s = 0 < total is_asleep s.threads → s.queue.size ≤ total is_woken s.threads

-- A thread that is neither asleep nor woken goes to another such place, or falls asleep at an empty queue.
goes-IsSignalled :
    (i : ℕ) (pc pc' : Pc) (s : System) (q' : PriorityQueue)
    → get_elem? s.threads i ≡ some pc
    → is_asleep pc ≡ 0
    → is_asleep pc' ≡ 0
    → is_woken pc' ≡ 0
    → q'.size + is_woken pc ≤ s.queue.size
    → IsSignalled s
    → 0 < total is_asleep (set s.threads i pc')
    → q'.size ≤ total is_woken (set s.threads i pc')
goes-IsSignalled i pc pc' s q' here e e' f less h more = omega (
  arith,
  e,
  e',
  f,
  less,
  more,
  total-set is_asleep s.threads i pc' here,
  total-set is_woken s.threads i pc' here,
  h (omega (arith, e, e', more, total-set is_asleep s.threads i pc' here)),
)

call-IsSignalled :
    {i : ℕ} (caller : Caller) (pc : Pc) (s : System) {s' : System}
    → get_elem? s.threads i ≡ some pc
    → is_asleep pc ≡ 0
    → is_woken pc ≤ 1
    → IsSignalled s
    → Called i caller s s'
    → IsSignalled s'
call-IsSignalled {i} caller pc s {s'} here e f h (waited out same) =
    subst IsSignalled (sym same) (λ more. omega (arith, get_work-empty s.queue out))
call-IsSignalled {i} caller pc s {s'} here e f h (went_on job q' out d) =
    rw (d.threads_eq, d.queue_eq)
      (goes-IsSignalled i pc d.pc s q' here e d.not_asleep d.not_woken
        (omega (arith, f, get_work-size s.queue out)) h)

wakes-IsSignalled :
    (i : ℕ) (caller : Caller) (s : System)
    → get_elem? s.threads i ≡ some (asleep caller)
    → IsSignalled s
    → IsSignalled (at s i (woken caller))
wakes-IsSignalled i caller s here h more = omega (
  arith,
  more,
  total-set is_asleep s.threads i (woken caller) here,
  total-set is_woken s.threads i (woken caller) here,
  h (omega (arith, more, total-set is_asleep s.threads i (woken caller) here)),
)

-- A listener that was adding goes back to `accept`, and nobody sleeps or one thread is woken.
adds-IsSignalled :
    (i : ℕ) (r : ClientRequest) (s : System) (q' : PriorityQueue)
    → get_elem? s.threads i ≡ some (adding r)
    → ((j : ℕ) (caller : Caller) → get_elem? s.threads j ≡ some (asleep caller) → ⊥)
    → IsSignalled (record (at s i accepting) { queue = q' })
adds-IsSignalled i r s q' here awake more =
    let (j, pc, there, is) =
      total_pos is_asleep s.threads
        (omega (arith, more, total-set is_asleep s.threads i accepting here)) in
    absurd (nobody j pc there is)
  where
    nobody : (j : ℕ) (pc : Pc) → get_elem? s.threads j ≡ some pc → 0 < is_asleep pc → ⊥
    nobody j accepting there is = omega arith
    nobody j (adding x) there is = omega arith
    nobody j (calling c) there is = omega arith
    nobody j (asleep c) there is = awake j c there
    nobody j (woken c) there is = omega arith
    nobody j (delaying x) there is = omega arith
    nobody j (serving x) there is = omega arith

adds_and_wakes-IsSignalled :
    (i j : ℕ) (r : ClientRequest) (caller : Caller) (s : System) {q' : PriorityQueue}
    → get_elem? s.threads i ≡ some (adding r)
    → add_work s.queue r ≡ some (q', true)
    → get_elem? s.threads j ≡ some (asleep caller)
    → IsSignalled s
    → IsSignalled (at (record (at s i accepting) { queue = q' }) j (woken caller))
adds_and_wakes-IsSignalled i j r caller s {q'} here e there h more =
    let back = set s.threads i accepting in
    let still = still_there i j s.threads accepting here there in
    let sleeping = total-set is_asleep s.threads i accepting here in
    let one_less = total-set is_asleep back j (woken caller) still in
    omega (
      arith,
      add_work-size s.queue r e,
      total-set is_woken s.threads i accepting here,
      total-set is_woken back j (woken caller) still,
      h (omega (arith, sleeping, one_less, more)),
    )

receive-IsSignalled :
    (i : ℕ) (choice : Choice) (s : System)
    → get_elem? s.threads i ≡ some accepting
    → IsSignalled s
    → IsSignalled (receive i choice s)
unfolding receive
receive-IsSignalled i (answers acts) s here h = h
receive-IsSignalled i (calls fd) s here h =
    goes-IsSignalled i accepting (calling (for_client fd)) s s.queue here refl refl refl
      (omega arith) h
receive-IsSignalled i (admits r) s here h =
    goes-IsSignalled i accepting (adding r) s s.queue here refl refl refl (omega arith) h

serves-IsSignalled :
    (i : ℕ) (job : ClientRequest) (sockets : Sockets) (s : System) {s' : System}
    → get_elem? s.threads i ≡ some (serving job)
    → serve i job sockets s ≡ some s'
    → IsSignalled s
    → IsSignalled s'
serves-IsSignalled i job sockets s here e h = subst IsSignalled (serve-Served i job sockets s e) (
    goes-IsSignalled i (serving job) (calling for_worker) s s.queue here refl refl refl
      (omega arith) h)

Step-IsSignalled : {m : ℕ} {s s' : System} → IsSignalled s → Step (pos m) s s' → IsSignalled s'
Step-IsSignalled {m} {s} h (accepts i fd bytes r path here parsed at_path) =
    receive-IsSignalled i (choose (pos m) s.queue fd r path) s here h
Step-IsSignalled {m} {s} h (drops i r q' here e) =
    goes-IsSignalled i (adding r) accepting s q' here refl refl refl
      (omega (arith, ap (λ q. q.size) ((add_work-full s.queue r e).0))) h
Step-IsSignalled {m} {s} h (adds i r q' here e awake) = adds-IsSignalled i r s q' here awake
Step-IsSignalled {m} {s} h (adds_and_wakes i r q' j c here e there) =
    adds_and_wakes-IsSignalled i j r c s here e there h
Step-IsSignalled {m} {s} h (gets i c s' here e) =
    call-IsSignalled c (calling c) s here refl (omega arith) h (call-Called i c s e)
Step-IsSignalled {m} {s} h (gets_again i c s' here e) =
    call-IsSignalled c (woken c) s here refl (omega arith) h (call-Called i c s e)
Step-IsSignalled {m} {s} h (wakes i c here) = wakes-IsSignalled i c s here h
Step-IsSignalled {m} {s} h (ends_delay i job here) =
    goes-IsSignalled i (delaying job) (serving job) s s.queue here refl refl refl (omega arith) h
Step-IsSignalled {m} {s} h (serves i job sockets s' here e) =
    serves-IsSignalled i job sockets s here e h

Reach-IsSignalled : {m l w : ℕ} {s : System} → Reach (pos m) l w s → IsSignalled s
Reach-IsSignalled {m} {l} {w} started = λ more. omega (
  arith,
  more,
  total-append is_asleep (replicate l accepting) (replicate w (calling for_worker)),
  total-replicate_zero is_asleep l accepting refl,
  total-replicate_zero is_asleep w (calling for_worker) refl,
)
Reach-IsSignalled (later r step) = Step-IsSignalled (Reach-IsSignalled r) step

woken_place :
    (threads : List Pc)
    → 0 < total is_woken threads
    → (i : ℕ) × (caller : Caller) × (get_elem? threads i ≡ some (woken caller))
woken_place threads more =
    let (i, pc, here, is) = total_pos is_woken threads more in at_pc i pc here is
  where
    at_pc :
        (i : ℕ) (pc : Pc)
        → get_elem? threads i ≡ some pc
        → 0 < is_woken pc
        → (i : ℕ) × (caller : Caller) × (get_elem? threads i ≡ some (woken caller))
    at_pc i accepting here is = absurd (omega arith)
    at_pc i (adding x) here is = absurd (omega arith)
    at_pc i (calling c) here is = absurd (omega arith)
    at_pc i (asleep c) here is = absurd (omega arith)
    at_pc i (woken c) here is = (i, c, here)
    at_pc i (delaying x) here is = absurd (omega arith)
    at_pc i (serving x) here is = absurd (omega arith)

gives_front :
    {m : ℕ} {q : PriorityQueue} (xs : List ClientRequest)
    → Holds m q xs
    → 0 < q.size
    → q.size < m
    → (job : ClientRequest) × (q' : PriorityQueue) × (get_work q ≡ some (returns job q'))
gives_front [] h more less = absurd (omega (arith, h.size_eq))
gives_front (x ∷ xs) h more less =
    let (q', out, h') = get_work-room x xs h (omega (arith, h.size_eq)) in (x, q', out)

-- With a `max_queue_size` that is not negative no wakeup is lost: in every state that the threads reach,
-- with a request in the queue and a thread asleep in `get_work`, some thread was woken and stands in front
-- of the test of `size`, and when the queue is not full `get_work` returns a request to it.
pub no_lost_wakeup :
    {m l w : ℕ} {s : System} (j : ℕ) (sleeper : Caller)
    → Reach (pos m) l w s
    → get_elem? s.threads j ≡ some (asleep sleeper)
    → 0 < s.queue.size
    → s.queue.size < m
    → ((i : ℕ) × (caller : Caller) × (get_elem? s.threads i ≡ some (woken caller)))
      × ((job : ClientRequest) × (q' : PriorityQueue) × (get_work s.queue ≡ some (returns job q')))
no_lost_wakeup {m} {l} {w} {s} j sleeper r there more less =
    let signalled = Reach-IsSignalled r (omega (arith, le-total is_asleep s.threads j there)) in
    let account = Reach-Accounted r in
    (
      woken_place s.threads (omega (arith, signalled)),
      gives_front account.requests account.holds more less,
    )
