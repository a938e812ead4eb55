-- ===== src/Proxy/Queue/Replies.antt =====
-- What the result of a call says: of `size`, and of the requests that the queue holds.
use mathlib.Core.Path.{subst}
use cs537_operating_system_u.Base.{
  ℕ, ◌+◌, ◌-◌, ◌≡◌, ap, List, [], ◌∷◌, some, arith, ◌==◌, ltb, length, true, false, Bool-cases, inl,
  inr, Option-cases,
}
use cs537_operating_system_u.Base.Int.{pos, ltb_ℤ}
use cs537_operating_system_u.Proxy.Queue.{
  ClientRequest, PriorityQueue, deref, shift_left, move_down, place, add_work, waits, returns,
  take_work, get_work,
}
use cs537_operating_system_u.Proxy.Queue.Spec.{insert, add, get}
use cs537_operating_system_u.Proxy.Queue.Refine.{Holds, add_work_refines, get_work_refines}

-- `add_work` stores one request more, in a queue with room, or leaves the queue as it is.
pub add_work-size :
    (q : PriorityQueue) (r : ClientRequest) {q' : PriorityQueue}
    → add_work q r ≡ some (q', true)
    → q'.size ≡ q.size + 1
unfolding add_work
add_work-size q r {q'} e = elim (Bool-cases (ltb_ℤ (pos q.size) q.capacity)) [
  | inl room ↦ elim (Option-cases (place q.size q.elements r)) [
    | inl fault ↦ absurd (cc (rw (room, fault) at (e)))
    | inr (elements', placed) ↦
        let same : record q { elements = elements'; size = q.size + 1 } ≡ q' =
          cc (rw (room, placed) at (e)) in
        omega (arith, ap (λ z. z.size) same)
  ]
  | inr full ↦ absurd (cc (rw (full) at (e)))
]

pub add_work-full :
    (q : PriorityQueue) (r : ClientRequest) {q' : PriorityQueue}
    → add_work q r ≡ some (q', false)
    → (q' ≡ q) × (ltb_ℤ (pos q.size) q.capacity ≡ false)
unfolding add_work
add_work-full q r {q'} e = elim (Bool-cases (ltb_ℤ (pos q.size) q.capacity)) [
  | inl room ↦ elim (Option-cases (place q.size q.elements r)) [
    | inl fault ↦ absurd (cc (rw (room, fault) at (e)))
    | inr (elements', placed) ↦ absurd (cc (rw (room, placed) at (e)))
  ]
  | inr full ↦ (cc (rw (full) at (e)), full)
]

pub get_work-empty : (q : PriorityQueue) → get_work q ≡ some waits → q.size ≡ 0
unfolding get_work
get_work-empty q e = elim (Bool-cases (q.size == 0)) [
  | inl empty ↦ ground (arith, empty)
  | inr more ↦ elim (Option-cases (take_work q)) [
    | inl fault ↦ absurd (cc (rw (more, fault) at (e)))
    | inr ((x, q'), taken) ↦ absurd (cc (rw (more, taken) at (e)))
  ]
]

move_down-size :
    (q : PriorityQueue) {q' : PriorityQueue} → move_down q ≡ some q' → q'.size ≡ q.size - 1
unfolding move_down
move_down-size q {q'} e = elim (Option-cases (shift_left q.size 0 q.elements)) [
  | inl fault ↦ absurd (cc (rw (fault) at (e)))
  | inr (elements', moved) ↦
      let same : record q { elements = elements'; size = q.size - 1 } ≡ q' =
        cc (rw (moved) at (e)) in
      omega (arith, ap (λ z. z.size) same)
]

take_work-size :
    (q : PriorityQueue) {x : ClientRequest} {q' : PriorityQueue}
    → take_work q ≡ some (x, q')
    → q'.size ≡ q.size - 1
unfolding take_work
take_work-size q {x} {q'} e = elim (Option-cases (deref q.elements 0)) [
  | inl unset ↦ absurd (cc (rw (unset) at (e)))
  | inr (y, first) ↦ elim (Option-cases (move_down q)) [
    | inl fault ↦ absurd (cc (rw (first, fault) at (e)))
    | inr (moved, shifted) ↦
        let same : moved ≡ q' = cc (rw (first, shifted) at (e)) in
        omega (arith, ap (λ z. z.size) same, move_down-size q shifted)
  ]
]

pub get_work-size :
    (q : PriorityQueue) {x : ClientRequest} {q' : PriorityQueue}
    → get_work q ≡ some (returns x q')
    → q'.size + 1 ≡ q.size
unfolding get_work
get_work-size q {x} {q'} e = elim (Bool-cases (q.size == 0)) [
  | inl empty ↦ absurd (cc (rw (empty) at (e)))
  | inr more ↦ elim (Option-cases (take_work q)) [
    | inl fault ↦ absurd (cc (rw (more, fault) at (e)))
    | inr ((y, q''), taken) ↦
        let same : q'' ≡ q' = cc (rw (more, taken) at (e)) in
        ground (arith, ap (λ z. z.size) same, take_work-size q taken, more)
  ]
]

-- `add_work` stores the request, or leaves the queue.
pub add_work-true :
    {m : ℕ} {q q' : PriorityQueue} {xs : List ClientRequest} (r : ClientRequest)
    → Holds m q xs
    → add_work q r ≡ some (q', true)
    → Holds m q' (insert r xs)
unfolding add
add_work-true {m} {q} {q'} {xs} r h e =
    let (q'', out, h') = add_work_refines r h in
    elim (Bool-cases (ltb (length xs) m)) [
      | inl room ↦
          let same : q'' ≡ q' = cc (rw (room) at (out)) in
          subst (λ z. Holds m z (insert r xs)) same (rw (room) at (h'))
      | inr full ↦ absurd (cc (rw (full) at (out)))
    ]

pub add_work-false :
    {m : ℕ} {q q' : PriorityQueue} {xs : List ClientRequest} (r : ClientRequest)
    → Holds m q xs
    → add_work q r ≡ some (q', false)
    → Holds m q' xs
unfolding add
add_work-false {m} {q} {q'} {xs} r h e =
    let (q'', out, h') = add_work_refines r h in
    elim (Bool-cases (ltb (length xs) m)) [
      | inl room ↦ absurd (cc (rw (room) at (out)))
      | inr full ↦
          let same : q'' ≡ q' = cc (rw (full) at (out)) in
          subst (λ z. Holds m z xs) same (rw (full) at (h'))
    ]

-- What `get_work` returns is the first request.
pub get_work-front :
    {m : ℕ} {q q' : PriorityQueue} {x : ClientRequest} (xs : List ClientRequest)
    → Holds m q xs
    → get_work q ≡ some (returns x q')
    → (rest : List ClientRequest) × (xs ≡ x ∷ rest) × Holds m q' rest
unfolding get
get_work-front [] h e = absurd (cc (get_work_refines [] h))
get_work-front {m} {q} {q'} {x} (y ∷ ys) h e = elim (Bool-cases (ltb (length (y ∷ ys)) m)) [
  | inl room ↦
      let (q'', out, h') = rw (room) at (get_work_refines (y ∷ ys) h) in
      let first : y ≡ x = cc in
      let same : q'' ≡ q' = cc in (ys, ap (λ z. z ∷ ys) first, subst (λ z. Holds m z ys) same h')
  | inr full ↦ absurd (cc (rw (full) at (get_work_refines (y ∷ ys) h)))
]
