-- ===== src/Proxy/Threads.antt =====
-- The threads of p6/starter-code/proxyserver.c over the one queue: `listener` with the loop of
-- `serve_forever`, and `worker_thread`. The queue's functions hold its lock from start to end, so each call
-- is one step; a listener reads `size` before it, without the lock.
pub mod Count
pub mod Deliver
pub mod Places
pub mod Wakeup
pub mod Single
mod Tests
use cs537_operating_system_u.Base.{
  ℕ, zero, suc, ◌+◌, ◌≡◌, List, [], ◌∷◌, ◌++◌, Option, none, some, ◌==◌, if◌then◌else◌, replicate,
  get_elem?, set, ◌>>=◌, Bool, true, false,
}
use cs537_operating_system_u.Base.Int.{ℤ, pos, ltb_ℤ, eq_ℤ}
use cs537_operating_system_u.Base.CString.{chars, strstr}
use cs537_operating_system_u.Proxy.Queue.{
  ClientRequest, PriorityQueue, create_queue, add_work, GetWork, waits, returns, get_work,
}
use cs537_operating_system_u.Proxy.Http.{StatusCode, ok, bad_request, queue_full, queue_empty}
use cs537_operating_system_u.Proxy.Parse.{parse_client_request}
use cs537_operating_system_u.Proxy.Listener.{Action, respond, close, is_found, behind_method}
use cs537_operating_system_u.Proxy.Worker.{Sockets, Served, serve_request}

-- Who calls `get_work`: a listener for the client of `/GetJob`, or a worker.
pub data Caller : Type 0 where
  for_client : ℕ → Caller
  for_worker : Caller

-- Where a thread stands.
pub data Pc : Type 0 where
  accepting : Pc  -- a listener, in front of `accept`
  adding : ClientRequest → Pc  -- it has found room, and calls `add_work`
  calling : Caller → Pc  -- in front of `get_work`
  asleep : Caller → Pc  -- in `pthread_cond_wait`
  woken : Caller → Pc  -- awake again, in front of the test of `size`
  delaying : ClientRequest → Pc  -- a worker in `sleep`
  serving : ClientRequest → Pc  -- in front of `serve_request`

-- The queue and the threads, and what has happened: the answers of listeners, the requests for which a listener
-- found room, those that `add_work` dropped, and those that were served or given to a client.
pub record System : Type 0 where
  pub queue : PriorityQueue
  pub threads : List Pc
  pub actions : List Action
  pub admitted : List ClientRequest
  pub dropped : List ClientRequest
  pub finished : List ClientRequest

-- `main` once all threads are there.
abbrev pub start : ℤ → ℕ → ℕ → System
start max_queue_size num_listener num_workers = record {
  queue = create_queue max_queue_size;
  threads = replicate num_listener accepting ++ replicate num_workers (calling for_worker);
  actions = [];
  admitted = [];
  dropped = [];
  finished = [];
}

-- What a listener does with a request by the size that it reads.
pub data Choice : Type 0 where
  answers : List Action → Choice
  calls : ℕ → Choice
  admits : ClientRequest → Choice

unfoldable pub choose : ℤ → PriorityQueue → ℕ → ClientRequest → List ℕ → Choice
choose max_queue_size queue client_fd request path =
    if is_found (strstr path (chars "GetJob"))
    then if queue.size == 0
      then answers (respond client_fd queue_empty (chars "Queue is empty") ∷ close client_fd ∷ [])
      else calls client_fd
    else if is_found (strstr request.read_buffer (chars "GET"))
    then if eq_ℤ (pos queue.size) max_queue_size
      then answers (respond client_fd queue_full (chars "Queue is full") ∷ close client_fd ∷ [])
      else admits request
    else answers (respond client_fd bad_request (chars "Bad request") ∷ [])

abbrev pub at : System → ℕ → Pc → System
at s i pc = record s { threads = set s.threads i pc }

unfoldable pub receive : ℕ → Choice → System → System
receive i (answers acts) s = record s { actions = s.actions ++ acts }
receive i (calls client_fd) s = at s i (calling (for_client client_fd))
receive i (admits request) s = record (at s i (adding request)) { admitted = request ∷ s.admitted }

-- `worker_thread` behind `get_work`.
unfoldable pub after_work : ClientRequest → Pc
after_work job = if ltb_ℤ (pos 0) job.delay then delaying job else serving job

-- What a caller does with the job that `get_work` returns.
unfoldable pub deliver : ℕ → Caller → ClientRequest → System → Option System
deliver i for_worker job s = some (at s i (after_work job))
deliver i (for_client client_fd) job s = behind_method job.read_buffer >>= λ text.
    some (record (at s i accepting) {
      actions = s.actions ++ respond client_fd ok text ∷ close client_fd ∷ [];
      finished = job ∷ s.finished;
    })

-- One call of `get_work`, or one round of its loop.
unfoldable pub call : ℕ → Caller → System → Option System
unfolding deliver
call i caller s = get_work s.queue >>= λ out. elim out [
  | waits ↦ some (at s i (asleep caller))
  | returns job queue' ↦ deliver i caller job (record s { queue = queue' })
]

unfoldable pub serve : ℕ → ClientRequest → Sockets → System → Option System
serve i job sockets s = serve_request sockets job >>= λ served.
    some (record (at s i (calling for_worker)) { finished = job ∷ s.finished })

-- One step of the thread `i`. `pthread_cond_signal` wakes a thread that sleeps, if there is one.
pub data Step (max_queue_size : ℤ) (s : System) : System → Type 0 where
  accepts :
      (i client_fd : ℕ) (bytes : Option (List ℕ)) (request : ClientRequest) (path : List ℕ)
      → get_elem? s.threads i ≡ some accepting
      → parse_client_request client_fd bytes ≡ some request
      → request.path ≡ some path
      → Step max_queue_size s (receive i (choose max_queue_size s.queue client_fd request path) s)
  drops :
      (i : ℕ) (request : ClientRequest) (queue' : PriorityQueue)
      → get_elem? s.threads i ≡ some (adding request)
      → add_work s.queue request ≡ some (queue', false)
      → Step max_queue_size s
          (record (at s i accepting) { queue = queue'; dropped = request ∷ s.dropped })
  adds :
      (i : ℕ) (request : ClientRequest) (queue' : PriorityQueue)
      → get_elem? s.threads i ≡ some (adding request)
      → add_work s.queue request ≡ some (queue', true)
      → ((j : ℕ) (caller : Caller) → get_elem? s.threads j ≡ some (asleep caller) → ⊥)
      → Step max_queue_size s (record (at s i accepting) { queue = queue' })
  adds_and_wakes :
      (i : ℕ) (request : ClientRequest) (queue' : PriorityQueue) (j : ℕ) (caller : Caller)
      → get_elem? s.threads i ≡ some (adding request)
      → add_work s.queue request ≡ some (queue', true)
      → get_elem? s.threads j ≡ some (asleep caller)
      → Step max_queue_size s (at (record (at s i accepting) { queue = queue' }) j (woken caller))
  gets :
      (i : ℕ) (caller : Caller) (s' : System)
      → get_elem? s.threads i ≡ some (calling caller)
      → call i caller s ≡ some s'
      → Step max_queue_size s s'
  gets_again :
      (i : ℕ) (caller : Caller) (s' : System)
      → get_elem? s.threads i ≡ some (woken caller)
      → call i caller s ≡ some s'
      → Step max_queue_size s s'
  wakes :
      (i : ℕ) (caller : Caller)
      → get_elem? s.threads i ≡ some (asleep caller)
      → Step max_queue_size s (at s i (woken caller))
  ends_delay :
      (i : ℕ) (job : ClientRequest)
      → get_elem? s.threads i ≡ some (delaying job)
      → Step max_queue_size s (at s i (serving job))
  serves :
      (i : ℕ) (job : ClientRequest) (sockets : Sockets) (s' : System)
      → get_elem? s.threads i ≡ some (serving job)
      → serve i job sockets s ≡ some s'
      → Step max_queue_size s s'

pub data Reach (max_queue_size : ℤ) (num_listener num_workers : ℕ) : System → Type 0 where
  started :
      Reach max_queue_size num_listener num_workers (start max_queue_size num_listener num_workers)
  later :
      {s s' : System}
      → Reach max_queue_size num_listener num_workers s
      → Step max_queue_size s s'
      → Reach max_queue_size num_listener num_workers s'
