-- ===== src/Proxy/Threads/Single.antt =====
-- One listener: nothing changes between its look at `size` and its `add_work` but calls of `get_work`.
use mathlib.Core.Path.{subst}
use cs537_operating_system_u.Base.{
  ℕ, zero, suc, ◌≤◌, ◌<◌, ◌≡◌, ◌≢◌, refl, sym, ap, List, [], ◌∷◌, some, arith, get_elem?, set,
  replicate, false, inl, inr, Bool-cases, ◌==◌,
}
use cs537_operating_system_u.Base.CString.{chars, strstr}
use cs537_operating_system_u.Base.Int.{pos, ltb_ℤ, eq_ℤ}
use cs537_operating_system_u.Proxy.Queue.{ClientRequest, PriorityQueue, add_work}
use cs537_operating_system_u.Proxy.Listener.{is_found}
use cs537_operating_system_u.Proxy.Worker.{Sockets}
use cs537_operating_system_u.Proxy.Threads.{
  Caller, Pc, accepting, adding, calling, asleep, woken, delaying, serving, System, start, Choice,
  answers, calls, admits, choose, at, receive, serve, Step, accepts, drops, adds, adds_and_wakes,
  gets, gets_again, wakes, ends_delay, serves, Reach, started, later, for_client, for_worker,
}
use cs537_operating_system_u.Proxy.Threads.Count.{
  total, total-set, total-append, total-replicate_zero, le-total,
}
use cs537_operating_system_u.Proxy.Queue.Replies.{add_work-full, get_work-size}
use cs537_operating_system_u.Proxy.Threads.Deliver.{
  is_adding, is_listener, calls_as_listener, Called, waited, went_on, call-Called, serve-Served,
}
use cs537_operating_system_u.Proxy.Threads.Places.{Accounted, Reach-Accounted, still_there}

-- With at most one listener, one that goes to add finds room, and nothing was dropped.
record Calm (max_queue_size num_listener : ℕ) (s : System) : Type 0 where
  listeners : total is_listener s.threads ≡ num_listener
  room : 0 < total is_adding s.threads → s.queue.size < max_queue_size
  none_dropped : s.dropped ≡ []

total-replicate_one : (n : ℕ) → total is_listener (replicate n accepting) ≡ n
total-replicate_one zero = refl
total-replicate_one (suc n) = omega (arith, total-replicate_one n)

start-Calm : (m l w : ℕ) → Calm m l (start (pos m) l w)
start-Calm m l w = record {
  listeners = omega (
    arith,
    total-append is_listener (replicate l accepting) (replicate w (calling for_worker)),
    total-replicate_one l,
    total-replicate_zero is_listener w (calling for_worker) refl,
  );
  room = λ more. absurd (
      omega (
        arith,
        more,
        total-append is_adding (replicate l accepting) (replicate w (calling for_worker)),
        total-replicate_zero is_adding l accepting refl,
        total-replicate_zero is_adding w (calling for_worker) refl,
      ));
  none_dropped = refl;
}

-- A thread goes to a place of the same kind from which it does not add; the queue does not grow.
goes-Calm :
    {m l : ℕ} (i : ℕ) (pc pc' : Pc) (s : System) (s' : System)
    → get_elem? s.threads i ≡ some pc
    → s'.threads ≡ set s.threads i pc'
    → is_listener pc ≡ is_listener pc'
    → is_adding pc' ≡ 0
    → s'.queue.size ≤ s.queue.size
    → s'.dropped ≡ s.dropped
    → Calm m l s
    → Calm m l s'
goes-Calm i pc pc' s s' here threads_eq same idle less dropped_eq h = record {
  listeners =
      rw (threads_eq)
        (omega (arith, h.listeners, same, total-set is_listener s.threads i pc' here));
  room = λ more. omega (
    arith,
    less,
    h.room
        (omega (arith, idle, rw (threads_eq) at (more), total-set is_adding s.threads i pc' here)),
  );
  none_dropped = cc (h.none_dropped);
}

-- The thread that adds is the only one that does.
le-adding : (threads : List Pc) → total is_adding threads ≤ total is_listener threads
le-adding [] = omega arith
le-adding (accepting ∷ ts) = omega (arith, le-adding ts)
le-adding (adding x ∷ ts) = omega (arith, le-adding ts)
le-adding (calling c ∷ ts) = omega (arith, le-adding ts)
le-adding (asleep c ∷ ts) = omega (arith, le-adding ts)
le-adding (woken c ∷ ts) = omega (arith, le-adding ts)
le-adding (delaying x ∷ ts) = omega (arith, le-adding ts)
le-adding (serving x ∷ ts) = omega (arith, le-adding ts)

-- A listener that is admitted saw a size that is not the capacity.
choose-admits :
    (m : ℕ) (q : PriorityQueue) (fd : ℕ) (r x : ClientRequest) (path : List ℕ)
    → choose (pos m) q fd r path ≡ admits x
    → q.size ≢ m
unfolding choose
choose-admits m q fd r x path e = elim (Bool-cases (is_found (strstr path (chars "GetJob")))) [
  | inl getjob ↦ elim (Bool-cases (q.size == 0)) [
    | inl empty ↦ absurd (cc (rw (getjob, empty) at (e)))
    | inr more ↦ absurd (cc (rw (getjob, more) at (e)))
  ]
  | inr other ↦ elim (Bool-cases (is_found (strstr r.read_buffer (chars "GET")))) [
    | inl get ↦ elim (Bool-cases (eq_ℤ (pos q.size) (pos m))) [
      | inl full ↦ absurd (cc (rw (other, get, full) at (e)))
      | inr free ↦ ground (arith, free)
    ]
    | inr bad ↦ absurd (cc (rw (other, bad) at (e)))
  ]
]

receive-Calm :
    {m l : ℕ} (i : ℕ) (choice : Choice) (s : System)
    → l ≤ 1
    → get_elem? s.threads i ≡ some accepting
    → s.queue.size ≤ m
    → ((x : ClientRequest) → choice ≡ admits x → s.queue.size ≢ m)
    → Calm m l s
    → Calm m l (receive i choice s)
unfolding receive
receive-Calm i (answers acts) s one here le free h = record {
  listeners = h.listeners;
  room = h.room;
  none_dropped = h.none_dropped;
}
receive-Calm {m} {l} i (calls fd) s one here le free h =
    goes-Calm i accepting (calling (for_client fd)) s (at s i (calling (for_client fd))) here refl
      refl refl (omega arith) refl h
receive-Calm {m} {l} i (admits r) s one here le free h = record {
  listeners = omega (arith, h.listeners, total-set is_listener s.threads i (adding r) here);
  room = λ more. ground (arith, le, free r refl);
  none_dropped = h.none_dropped;
}

call-Calm :
    {m l i : ℕ} (caller : Caller) (pc : Pc) (s : System) {s' : System}
    → get_elem? s.threads i ≡ some pc
    → is_listener pc ≡ calls_as_listener caller
    → Calm m l s
    → Called i caller s s'
    → Calm m l s'
call-Calm {m} {l} {i} caller pc s {s'} here kind h (waited out same) = subst (Calm m l) (sym same) (
    goes-Calm i pc (asleep caller) s (at s i (asleep caller)) here refl kind refl (omega arith) refl
      h)
call-Calm {m} {l} {i} caller pc s {s'} here kind h (went_on job q' out d) =
    goes-Calm i pc d.pc s s' here d.threads_eq (cc (kind, d.same_kind)) d.not_adding
      (omega (arith, ap (λ q. q.size) d.queue_eq, get_work-size s.queue out)) d.dropped_eq h

-- The listener that adds goes back to `accept`, and with one listener nobody adds then.
adds-Calm :
    {m l : ℕ} (i : ℕ) (r : ClientRequest) (s : System) (q' : PriorityQueue)
    → l ≤ 1
    → get_elem? s.threads i ≡ some (adding r)
    → Calm m l s
    → Calm m l (record (at s i accepting) { queue = q' })
adds-Calm i r s q' one here h = record {
  listeners = omega (arith, h.listeners, total-set is_listener s.threads i accepting here);
  room = λ more. absurd (
      omega (
        arith,
        more,
        one,
        h.listeners,
        le-adding s.threads,
        total-set is_adding s.threads i accepting here,
      ));
  none_dropped = h.none_dropped;
}

full_lem : (size m : ℕ) → ltb_ℤ (pos size) (pos m) ≡ false → m ≤ size
full_lem size m e = ground (arith, e)

drops-never :
    {m l : ℕ} (i : ℕ) {r : ClientRequest} {s : System} {q' : PriorityQueue}
    → get_elem? s.threads i ≡ some (adding r)
    → add_work s.queue r ≡ some (q', false)
    → Accounted m s
    → Calm m l s
    → ⊥
drops-never {m} i {r} {s} here e account h = omega (
  arith,
  full_lem s.queue.size m (rw (account.holds.capacity_eq) at ((add_work-full s.queue r e).1)),
  h.room (omega (arith, le-total is_adding s.threads i here)),
)

wakes-Calm :
    {m l : ℕ} (i : ℕ) (caller : Caller) (s : System)
    → get_elem? s.threads i ≡ some (asleep caller)
    → Calm m l s
    → Calm m l (at s i (woken caller))
wakes-Calm i caller s here h =
    goes-Calm i (asleep caller) (woken caller) s (at s i (woken caller)) here refl refl refl
      (omega arith) refl h

serves-Calm :
    {m l : ℕ} (i : ℕ) (job : ClientRequest) (sockets : Sockets) (s : System) {s' : System}
    → get_elem? s.threads i ≡ some (serving job)
    → serve i job sockets s ≡ some s'
    → Calm m l s
    → Calm m l s'
serves-Calm {m} {l} i job sockets s here e h = subst (Calm m l) (serve-Served i job sockets s e) (
    goes-Calm i (serving job) (calling for_worker) s
      (record (at s i (calling for_worker)) { finished = job ∷ s.finished }) here refl refl refl
      (omega arith) refl h)

size_le : {m : ℕ} {s : System} → Accounted m s → s.queue.size ≤ m
size_le a = omega (arith, a.holds.size_eq, a.holds.room)

Step-Calm :
    {m l : ℕ} {s s' : System} → l ≤ 1 → Accounted m s → Calm m l s → Step (pos m) s s' → Calm m l s'
Step-Calm {m} {l} {s} one a h (accepts i fd bytes r path here parsed at_path) =
    receive-Calm i (choose (pos m) s.queue fd r path) s one here (size_le a)
      (λ x e. choose-admits m s.queue fd r x path e) h
Step-Calm one a h (drops i r q' here e) = absurd (drops-never i here e a h)
Step-Calm {m} {l} {s} one a h (adds i r q' here e awake) = adds-Calm i r s q' one here h
Step-Calm {m} {l} {s} one a h (adds_and_wakes i r q' j c here e there) =
    wakes-Calm j c (record (at s i accepting) { queue = q' })
      (still_there i j s.threads accepting here there) (adds-Calm i r s q' one here h)
Step-Calm {m} {l} {s} one a h (gets i c s' here e) =
    call-Calm c (calling c) s here refl h (call-Called i c s e)
Step-Calm {m} {l} {s} one a h (gets_again i c s' here e) =
    call-Calm c (woken c) s here refl h (call-Called i c s e)
Step-Calm {m} {l} {s} one a h (wakes i c here) = wakes-Calm i c s here h
Step-Calm {m} {l} {s} one a h (ends_delay i job here) =
    goes-Calm i (delaying job) (serving job) s (at s i (serving job)) here refl refl refl
      (omega arith) refl h
Step-Calm {m} {l} {s} one a h (serves i job sockets s' here e) =
    serves-Calm i job sockets s here e h

Reach-Calm : {m l w : ℕ} {s : System} → l ≤ 1 → Reach (pos m) l w s → Calm m l s
Reach-Calm {m} {l} {w} one started = start-Calm m l w
Reach-Calm one (later r step) = Step-Calm one (Reach-Accounted r) (Reach-Calm one r) step

-- With at most one listener and a `max_queue_size` that is not negative, in every state that the threads
-- reach, `add_work` has dropped no request: one for which the listener found room is in its hands, in the
-- queue, with a worker or finished.
pub single_listener_drops_none :
    {m l w : ℕ} {s : System} → l ≤ 1 → Reach (pos m) l w s → s.dropped ≡ []
single_listener_drops_none one r = (Reach-Calm one r).none_dropped
