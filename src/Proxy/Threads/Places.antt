-- ===== src/Proxy/Threads/Places.antt =====
-- Where each request is.
use mathlib.Core.Path.{subst}
use cs537_operating_system_u.Base.{
  ℕ, ◌+◌, ◌≡◌, ◌≢◌, refl, sym, ap, List, [], ◌∷◌, some, arith, replicate, get_elem?, set,
  get_elem?-set_ne, Bool, true, false,
}
use cs537_operating_system_u.Base.Int.{pos}
use cs537_operating_system_u.Proxy.Queue.{ClientRequest, PriorityQueue, add_work}
use cs537_operating_system_u.Proxy.Queue.Spec.{insert}
use cs537_operating_system_u.Proxy.Queue.Refine.{Holds, create_queue-Holds}
use cs537_operating_system_u.Proxy.Queue.Replies.{add_work-true, add_work-false, get_work-front}
use cs537_operating_system_u.Proxy.Worker.{Sockets}
use cs537_operating_system_u.Proxy.Threads.{
  Caller, Pc, accepting, adding, calling, asleep, woken, delaying, serving, System, start, Choice,
  answers, calls, admits, choose, at, receive, serve, Step, accepts, drops, adds, adds_and_wakes,
  gets, gets_again, wakes, ends_delay, serves, Reach, started, later, for_client, for_worker,
}
use cs537_operating_system_u.Proxy.Threads.Count.{
  total, total-set, total-append, total-replicate_zero, count, count-insert,
}
use cs537_operating_system_u.Proxy.Threads.Deliver.{
  holding, Called, waited, went_on, call-Called, serve-Served,
}

-- Requests of the kind `p`: those admitted are in a thread's hands, in the queue, dropped or finished.
abbrev pub IsPlaced : System → List ClientRequest → (ClientRequest → Bool) → Type 0
IsPlaced s requests p =
    count p s.admitted
    ≡ total (holding p) s.threads + count p requests + count p s.dropped + count p s.finished

-- The queue holds `requests`, and no request is lost or there twice.
pub record Accounted (max_queue_size : ℕ) (s : System) : Type 0 where
  pub requests : List ClientRequest
  pub holds : Holds max_queue_size s.queue requests
  pub placed : (p : ClientRequest → Bool) → IsPlaced s requests p

start-Accounted : (m l w : ℕ) → Accounted m (start (pos m) l w)
start-Accounted m l w = record {
  requests = [];
  holds = create_queue-Holds m;
  placed = λ p. omega (
    arith,
    total-append (holding p) (replicate l accepting) (replicate w (calling for_worker)),
    total-replicate_zero (holding p) l accepting refl,
    total-replicate_zero (holding p) w (calling for_worker) refl,
  );
}

receive-Accounted :
    {m : ℕ} (i : ℕ) (choice : Choice) (s : System)
    → get_elem? s.threads i ≡ some accepting
    → Accounted m s
    → Accounted m (receive i choice s)
unfolding receive
receive-Accounted {m} i (answers acts) s here h = record {
  requests = h.requests;
  holds = h.holds;
  placed = h.placed;
}
receive-Accounted {m} i (calls fd) s here h = record {
  requests = h.requests;
  holds = h.holds;
  placed = λ p.
      omega (arith, h.placed p, total-set (holding p) s.threads i (calling (for_client fd)) here);
}
receive-Accounted {m} i (admits r) s here h = record {
  requests = h.requests;
  holds = h.holds;
  placed = λ p. omega (arith, h.placed p, total-set (holding p) s.threads i (adding r) here);
}

-- A thread with nothing in its hands calls `get_work`.
call-Accounted :
    {m i : ℕ} (caller : Caller) (pc : Pc) (s : System) {s' : System}
    → get_elem? s.threads i ≡ some pc
    → ((p : ClientRequest → Bool) → holding p pc ≡ 0)
    → Accounted m s
    → Called i caller s s'
    → Accounted m s'
call-Accounted {m} {i} caller pc s {s'} here idle h (waited out same) =
    subst (Accounted m) (sym same) (record {
      requests = h.requests;
      holds = h.holds;
      placed = λ p.
          omega (arith, h.placed p, idle p, total-set (holding p) s.threads i (asleep caller) here);
    })
call-Accounted {m} {i} caller pc s {s'} here idle h (went_on job q' out d) =
    let (rest, front, h') = get_work-front h.requests h.holds out in
    record {
      requests = rest;
      holds = rw (d.queue_eq) h';
      placed = λ p.
          rw (d.threads_eq, d.admitted_eq, d.dropped_eq)
            (omega (
              arith,
              h.placed p,
              idle p,
              d.kept p,
              total-set (holding p) s.threads i d.pc here,
              ap (count p) front,
            ));
    }

-- A thread goes from one place to another with the same in its hands.
moves-Accounted :
    {m : ℕ} (i : ℕ) (pc pc' : Pc) (s : System)
    → get_elem? s.threads i ≡ some pc
    → ((p : ClientRequest → Bool) → holding p pc ≡ holding p pc')
    → Accounted m s
    → Accounted m (at s i pc')
moves-Accounted {m} i pc pc' s here same h = record {
  requests = h.requests;
  holds = h.holds;
  placed = λ p. omega (arith, h.placed p, same p, total-set (holding p) s.threads i pc' here);
}

drops-Accounted :
    {m : ℕ} (i : ℕ) (r : ClientRequest) {q' : PriorityQueue} (s : System)
    → get_elem? s.threads i ≡ some (adding r)
    → add_work s.queue r ≡ some (q', false)
    → Accounted m s
    → Accounted m (record (at s i accepting) { queue = q'; dropped = r ∷ s.dropped })
drops-Accounted {m} i r s here e h = record {
  requests = h.requests;
  holds = add_work-false r h.holds e;
  placed = λ p. omega (arith, h.placed p, total-set (holding p) s.threads i accepting here);
}

adds-Accounted :
    {m : ℕ} (i : ℕ) (r : ClientRequest) {q' : PriorityQueue} (s : System)
    → get_elem? s.threads i ≡ some (adding r)
    → add_work s.queue r ≡ some (q', true)
    → Accounted m s
    → Accounted m (record (at s i accepting) { queue = q' })
adds-Accounted {m} i r s here e h = record {
  requests = insert r h.requests;
  holds = add_work-true r h.holds e;
  placed = λ p. omega (
    arith,
    h.placed p,
    total-set (holding p) s.threads i accepting here,
    count-insert p r h.requests,
  );
}

-- Another thread is still where it was.
pub still_there :
    (i j : ℕ) (threads : List Pc) {r : ClientRequest} {c : Caller} (pc : Pc)
    → get_elem? threads i ≡ some (adding r)
    → get_elem? threads j ≡ some (asleep c)
    → get_elem? (set threads i pc) j ≡ some (asleep c)
still_there i j threads {r} {c} pc here there =
    let other : i ≢ j = λ same. absurd (cc (ap (get_elem? threads) same)) in
    cc (get_elem?-set_ne threads pc other)

finishes-Accounted :
    {m : ℕ} (i : ℕ) (job : ClientRequest) (s : System)
    → get_elem? s.threads i ≡ some (serving job)
    → Accounted m s
    → Accounted m (record (at s i (calling for_worker)) { finished = job ∷ s.finished })
finishes-Accounted {m} i job s here h = record {
  requests = h.requests;
  holds = h.holds;
  placed =
      λ p. omega (arith, h.placed p, total-set (holding p) s.threads i (calling for_worker) here);
}

serves-Accounted :
    {m : ℕ} (i : ℕ) (job : ClientRequest) (sockets : Sockets) (s : System) {s' : System}
    → get_elem? s.threads i ≡ some (serving job)
    → serve i job sockets s ≡ some s'
    → Accounted m s
    → Accounted m s'
serves-Accounted {m} i job sockets s here e h =
    subst (Accounted m) (serve-Served i job sockets s e) (finishes-Accounted i job s here h)

pub Step-Accounted : {m : ℕ} {s s' : System} → Accounted m s → Step (pos m) s s' → Accounted m s'
Step-Accounted {m} {s} h (accepts i fd bytes r path here parsed at_path) =
    receive-Accounted i (choose (pos m) s.queue fd r path) s here h
Step-Accounted {m} {s} h (drops i r q' here e) = drops-Accounted i r s here e h
Step-Accounted {m} {s} h (adds i r q' here e awake) = adds-Accounted i r s here e h
Step-Accounted {m} {s} h (adds_and_wakes i r q' j c here e there) =
    moves-Accounted j (asleep c) (woken c) (record (at s i accepting) { queue = q' })
      (still_there i j s.threads accepting here there) (λ p. refl) (adds-Accounted i r s here e h)
Step-Accounted {m} {s} h (gets i c s' here e) =
    call-Accounted c (calling c) s here (λ p. refl) h (call-Called i c s e)
Step-Accounted {m} {s} h (gets_again i c s' here e) =
    call-Accounted c (woken c) s here (λ p. refl) h (call-Called i c s e)
Step-Accounted {m} {s} h (wakes i c here) =
    moves-Accounted i (asleep c) (woken c) s here (λ p. refl) h
Step-Accounted {m} {s} h (ends_delay i job here) =
    moves-Accounted i (delaying job) (serving job) s here (λ p. refl) h
Step-Accounted {m} {s} h (serves i job sockets s' here e) =
    serves-Accounted i job sockets s here e h

-- In every state that the threads reach, with any interleaving, each request that was admitted is in
-- exactly one place: in the hands of a thread, in the queue, dropped or finished.
pub Reach-Accounted : {m l w : ℕ} {s : System} → Reach (pos m) l w s → Accounted m s
Reach-Accounted {m} {l} {w} started = start-Accounted m l w
Reach-Accounted (later r step) = Step-Accounted (Reach-Accounted r) step

-- With a `max_queue_size` that is not negative, in every state that the threads reach, in any interleaving,
-- the queue holds some requests in order, and of every kind `p` the requests that were admitted are as many
-- as those in the hands of a thread, in the queue, dropped and finished together: none is lost, and none is
-- served twice.
pub requests_conserved :
    {m l w : ℕ} {s : System} (p : ClientRequest → Bool)
    → Reach (pos m) l w s
    → (requests : List ClientRequest) × Holds m s.queue requests × IsPlaced s requests p
requests_conserved p r = let h = Reach-Accounted r in (h.requests, h.holds, h.placed p)
