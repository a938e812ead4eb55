-- ===== src/Proxy/Queue/Refine.antt =====
-- The array of `priority_queue_t` refines the bounded sorted list of Proxy/Queue/Spec.
use mathlib.Core.List.{reverse-append, reverse-reverse}
use cs537_operating_system_u.Base.{
  ℕ, suc, ◌+◌, ◌-◌, ◌<◌, ◌≤◌, ◌≡◌, refl, ap, List, [], ◌∷◌, ◌++◌, map, reverse, Option, none, some,
  arith, true, false, Bool-cases, inl, inr, ltb, lt→ltb, suc-==-zero, Option-cases, length, All,
  length-append, length-map, length-replicate, replicate,
}
use cs537_operating_system_u.Base.Int.{pos, ltb_ℤ, ◌≤ℤ◌}
use mathlib.Core.Path.{subst}
use cs537_operating_system_u.Proxy.Queue.{
  ClientRequest, Cell, deref, PriorityQueue, create_queue, place, move_down, shift_left, add_work,
  GetWork, waits, returns, take_work, get_work,
}
use cs537_operating_system_u.Proxy.Queue.Place.{place-insert_back}
use cs537_operating_system_u.Proxy.Queue.MoveDown.{shift_left-cells, shift_left-faults}
use cs537_operating_system_u.Proxy.Queue.Spec.{
  IsSorted, insert, insert-IsSorted, length-insert, insert_back-eq-insert, add, get,
}

-- The array holds the requests `xs`, and is as long as the capacity.
pub record Holds (max_size : ℕ) (q : PriorityQueue) (xs : List ClientRequest) : Type 0 where
  pub rest : List Cell
  pub elements_eq : q.elements ≡ map some xs ++ rest
  pub size_eq : q.size ≡ length xs
  pub capacity_eq : q.capacity ≡ pos max_size
  pub room : length xs + length rest ≡ max_size
  pub sorted : IsSorted xs

length-reverse : (xs : List ClientRequest) → length (reverse xs) ≡ length xs
length-reverse [] = refl
length-reverse (x ∷ xs) = omega (
  arith,
  ap length (reverse-append (x ∷ []) xs),
  length-append (reverse xs) (x ∷ []),
  length-reverse xs,
)

place-insert :
    (request : ClientRequest) (xs : List ClientRequest) (c : Cell) (rest : List Cell)
    → IsSorted xs
    → place (length xs) (map some xs ++ c ∷ rest) request
      ≡ some (map some (insert request xs) ++ rest)
place-insert request xs c rest s =
    rw
      (
        insert_back-eq-insert request xs s,
        length-reverse xs,
        reverse-reverse xs,
        reverse-reverse (insert request xs),
      )
      at (place-insert_back request (reverse xs) c rest)

-- A new queue holds nothing, and has its capacity in cells.
pub create_queue-Holds : (max_size : ℕ) → Holds max_size (create_queue (pos max_size)) []
unfolding create_queue
create_queue-Holds max_size = record {
  rest = replicate max_size none;
  elements_eq = refl;
  size_eq = refl;
  capacity_eq = refl;
  room = omega (arith, length-replicate {0} {A = Cell} max_size none);
  sorted = tt;
}

add_work-placed :
    (q : PriorityQueue) (request : ClientRequest) (elements' : List Cell)
    → ltb_ℤ (pos q.size) q.capacity ≡ true
    → place q.size q.elements request ≡ some elements'
    → add_work q request ≡ some (record q { elements = elements'; size = q.size + 1 }, true)
unfolding add_work
add_work-placed q request elements' less e = rw (add_work, less, e)

add_work-dropped :
    (q : PriorityQueue) (request : ClientRequest)
    → ltb_ℤ (pos q.size) q.capacity ≡ false
    → add_work q request ≡ some (q, false)
unfolding add_work
add_work-dropped q request full = rw (add_work, full)

-- The test of `add_work` for room.
Holds-ltb_ℤ :
    {max_size : ℕ} {q : PriorityQueue} {xs : List ClientRequest}
    → Holds max_size q xs
    → ltb_ℤ (pos q.size) q.capacity ≡ ltb (length xs) max_size
Holds-ltb_ℤ {max_size} {q} {xs} h = rw (h.size_eq, h.capacity_eq) (ground arith)

add_work-room :
    {max_size : ℕ} {q : PriorityQueue} {xs : List ClientRequest} (request : ClientRequest)
    → Holds max_size q xs
    → length xs < max_size
    → (q' : PriorityQueue) × (add_work q request ≡ some (q', true))
      × Holds max_size q' (insert request xs)
add_work-room {max_size} {q} {xs} request h less = go h.rest h.elements_eq h.room
  where
    go :
        (rest : List Cell)
        → q.elements ≡ map some xs ++ rest
        → length xs + length rest ≡ max_size
        → (q' : PriorityQueue) × (add_work q request ≡ some (q', true))
          × Holds max_size q' (insert request xs)
    go [] e room = absurd (omega arith)
    go (c ∷ rest) e room = (
      record q { elements = map some (insert request xs) ++ rest; size = q.size + 1 },
      add_work-placed q request (map some (insert request xs) ++ rest)
          (cc (Holds-ltb_ℤ h, lt→ltb (length xs) max_size less))
          (rw (h.size_eq, e) (place-insert request xs c rest h.sorted)),
      record {
        rest = rest;
        elements_eq = refl;
        size_eq = omega (arith, h.size_eq, length-insert request xs);
        capacity_eq = h.capacity_eq;
        room = omega (arith, length-insert request xs);
        sorted = insert-IsSorted request xs h.sorted;
      },
    )

-- `add_work` never faults: it does to the array what the specification does to the list, and it
-- signals exactly when the request was stored.
pub add_work_refines :
    {max_size : ℕ} {q : PriorityQueue} {xs : List ClientRequest} (request : ClientRequest)
    → Holds max_size q xs
    → (q' : PriorityQueue) × (add_work q request ≡ some (q', (add max_size request xs).1))
      × Holds max_size q' (add max_size request xs).0
unfolding add
add_work_refines {max_size} {q} {xs} request h = elim (Bool-cases (ltb (length xs) max_size)) [
  | inl less ↦ rw less (add_work-room request h (ground arith))
  | inr full ↦ rw full (q, add_work-dropped q request (cc (Holds-ltb_ℤ h, full)), h)
]

pub get_work-waits : (q : PriorityQueue) → q.size ≡ 0 → get_work q ≡ some waits
unfolding get_work
get_work-waits q e = rw e

shift_left-front :
    (x : ClientRequest) (xs : List ClientRequest) (c : Cell) (rest : List Cell)
    → shift_left (suc (length xs)) 0 (some x ∷ (map some xs ++ c ∷ rest))
      ≡ some (map some xs ++ c ∷ c ∷ rest)
shift_left-front x xs c rest =
    rw (length-map some xs) at (shift_left-cells [] (some x) (map some xs) c rest)

get_work-takes :
    (q : PriorityQueue) (x : ClientRequest) (xs : List ClientRequest) (c : Cell) (rest : List Cell)
    → q.size ≡ suc (length xs)
    → q.elements ≡ some x ∷ (map some xs ++ c ∷ rest)
    → get_work q
      ≡ some (returns x (record q { elements = map some xs ++ c ∷ c ∷ rest; size = q.size - 1 }))
unfolding get_work take_work move_down
get_work-takes q x xs c rest size e = rw (e, size, shift_left-front x xs c rest, suc-==-zero)

get_work-faults :
    (q : PriorityQueue) (n : ℕ) → q.size ≡ suc n → length q.elements ≡ q.size → get_work q ≡ none
unfolding get_work take_work move_down
get_work-faults q n size full = elim (Option-cases (deref q.elements 0)) [
  | inl unset ↦ rw (size, suc-==-zero, unset)
  | inr (request, e) ↦ rw (size, suc-==-zero, e, shift_left-faults n 0 q.elements (omega arith))
]

-- The result of `get_work` is the one of the specification: both fault, both wait, or both give
-- the same request and go on with the same requests.
abbrev pub SameGet :
    ℕ → Option (Option ClientRequest × List ClientRequest) → Option GetWork → Type 0
SameGet max_size none out = out ≡ none
SameGet max_size (some (none, xs)) out = out ≡ some waits
SameGet max_size (some (some x, xs)) out =
    (q' : PriorityQueue) × (out ≡ some (returns x q')) × Holds max_size q' xs

pub get_work-room :
    {max_size : ℕ} {q : PriorityQueue} (x : ClientRequest) (xs : List ClientRequest)
    → Holds max_size q (x ∷ xs)
    → suc (length xs) < max_size
    → (q' : PriorityQueue) × (get_work q ≡ some (returns x q')) × Holds max_size q' xs
get_work-room {max_size} {q} x xs h less = go h.rest h.elements_eq h.room
  where
    go :
        (rest : List Cell)
        → q.elements ≡ some x ∷ (map some xs ++ rest)
        → suc (length xs) + length rest ≡ max_size
        → (q' : PriorityQueue) × (get_work q ≡ some (returns x q')) × Holds max_size q' xs
    go [] e room = absurd (omega arith)
    go (c ∷ rest) e room = (
      record q { elements = map some xs ++ c ∷ c ∷ rest; size = q.size - 1 },
      get_work-takes q x xs c rest h.size_eq e,
      record {
        rest = c ∷ c ∷ rest;
        elements_eq = refl;
        size_eq = omega (arith, h.size_eq);
        capacity_eq = h.capacity_eq;
        room = omega arith;
        sorted = h.sorted.1;
      },
    )

full_length :
    {max_size : ℕ} {q : PriorityQueue} {xs : List ClientRequest}
    → Holds max_size q xs
    → max_size ≤ length xs
    → length q.elements ≡ q.size
full_length {max_size} {q} {xs} h full = omega (
  arith,
  h.size_eq,
  h.room,
  ap length h.elements_eq,
  length-append (map some xs) h.rest,
  length-map {A = ClientRequest} {B = Cell} some xs,
)

-- `get_work` does to the array what the specification does to the list: it waits at an empty
-- queue, returns the first request of one that is not full, and reads past `elements` at a full one.
pub get_work_refines :
    {max_size : ℕ} {q : PriorityQueue} (xs : List ClientRequest)
    → Holds max_size q xs
    → SameGet max_size (get max_size xs) (get_work q)
unfolding get
get_work_refines {max_size} {q} [] h = get_work-waits q h.size_eq
get_work_refines {max_size} {q} (x ∷ xs) h = elim (Bool-cases (ltb (length (x ∷ xs)) max_size)) [
  | inl less ↦ rw less (get_work-room x xs h (ground arith))
  | inr full ↦ rw full (get_work-faults q (length xs) h.size_eq (full_length h (ground arith)))
]

-- `get_work` returns a request of the highest priority among those that the queue holds.
get_work_highest :
    {max_size : ℕ} {q : PriorityQueue} (xs : List ClientRequest) {x : ClientRequest}
    {q' : PriorityQueue}
    → Holds max_size q xs
    → get_work q ≡ some (returns x q')
    → All (λ y. y.priority ≤ℤ x.priority) xs
unfolding get
get_work_highest [] h e = absurd (ground (arith, get_work_refines [] h))
get_work_highest {max_size} {q} (y ∷ ys) {x} h e =
    elim (Bool-cases (ltb (length (y ∷ ys)) max_size)) [
      | inl less ↦
          let (q'', e', h') = get_work-room y ys h (ground arith) in
          let same : y ≡ x = cc in
          subst (λ z. All (λ w. w.priority ≤ℤ z.priority) (y ∷ ys)) same (omega arith, h.sorted.0)
      | inr full ↦
          absurd (cc (get_work-faults q (length ys) h.size_eq (full_length h (ground arith))))
    ]
