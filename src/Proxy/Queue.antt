-- ===== src/Proxy/Queue.antt =====
-- p6/starter-code/safequeue.c: the bounded priority queue. A function that updates `*queue`
-- returns the new queue; `none` is an access outside `elements` or through a pointer that was
-- never set. `add_work` and `get_work` hold the lock from start to end, so they are steps of their own.
pub mod Place
pub mod MoveDown
pub mod Spec
pub mod Refine
pub mod Replies
pub mod Runs
use cs537_operating_system_u.Base.{
  ℕ, zero, suc, ◌+◌, ◌-◌, List, Option, none, some, ◌==◌, Bool, true, false, if◌then◌else◌,
  get_elem?, store, replicate, ◌>>=◌,
}
use cs537_operating_system_u.Base.Int.{ℤ, pos, pos_part, ltb_ℤ}

-- `ClientRequest` of proxyserver.h; the texts are without their NUL, and `path` may be NULL.
pub record ClientRequest : Type 0 where
  pub path : Option (List ℕ)
  pub priority : ℤ
  pub delay : ℤ
  pub bytes_read : ℕ
  pub client_fd : ℕ
  pub read_buffer : List ℕ

-- A cell of `elements`: `none` until a pointer is stored.
abbrev pub Cell : Type 0
Cell = Option ClientRequest

-- `priority_queue_t` without its lock and condition variable.
pub record PriorityQueue : Type 0 where
  pub elements : List Cell
  pub capacity : ℤ
  pub size : ℕ

-- `malloc` gives `max_size` cells that hold no pointer yet, and none for a negative `max_size`.
unfoldable pub create_queue : ℤ → PriorityQueue
create_queue max_size = record {
  elements = replicate (pos_part max_size) none;
  capacity = max_size;
  size = 0;
}

-- `*queue->elements[i]`
abbrev pub deref : List Cell → ℕ → Option ClientRequest
deref elements i = get_elem? elements i >>= λ p. p

-- The loop of `move_down`: `rounds` are left, `i` is the index.
unfoldable pub shift_left : ℕ → ℕ → List Cell → Option (List Cell)
shift_left zero i elements = some elements
shift_left (suc rounds) i elements = do
  p ← get_elem? elements (i + 1)
  elements' ← store elements i p
  shift_left rounds (i + 1) elements'

unfoldable pub move_down : PriorityQueue → Option PriorityQueue
move_down queue = do
  elements' ← shift_left queue.size 0 queue.elements
  some (record queue { elements = elements'; size = queue.size - 1 })

-- The loop of `add_work` from index `i`, with the elements and the index that it ends at.
unfoldable pub shift_right : ℕ → List Cell → ClientRequest → Option (List Cell × ℕ)
shift_right zero elements request = some (elements, 0)
shift_right (suc i) elements request = deref elements i >>= λ p.
    let further = store elements (suc i) (some p) >>= λ moved. shift_right i moved request in
    if ltb_ℤ p.priority request.priority then further else some (elements, suc i)

-- `elements[i] = request` at the end of the loop.
unfoldable pub place : ℕ → List Cell → ClientRequest → Option (List Cell)
place size elements request = do
  (moved, i) ← shift_right size elements request
  store moved i (some request)

-- `add_work` between lock and unlock: the queue, and whether `cond` was signalled.
unfoldable pub add_work : PriorityQueue → ClientRequest → Option (PriorityQueue × Bool)
add_work queue request =
    let added = place queue.size queue.elements request >>= λ elements'.
    some (record queue { elements = elements'; size = queue.size + 1 }, true) in
    if ltb_ℤ (pos queue.size) queue.capacity then added else some (queue, false)

-- `get_work` once `size` is not 0: the loop before waits until then.
unfoldable pub take_work : PriorityQueue → Option (ClientRequest × PriorityQueue)
take_work queue = do
  request ← deref queue.elements 0
  queue' ← move_down queue
  some (request, queue')

pub data GetWork : Type 0 where
  waits : GetWork
  returns : ClientRequest → PriorityQueue → GetWork

-- One pass of `get_work`: it waits on `cond` at size 0, and returns a request otherwise.
unfoldable pub get_work : PriorityQueue → Option GetWork
get_work queue =
    let taken = take_work queue >>= λ (request, queue'). some (returns request queue') in
    if queue.size == 0 then some waits else taken
