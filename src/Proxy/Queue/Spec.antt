-- ===== src/Proxy/Queue/Spec.antt =====
-- What the priority queue promises: a bounded list of requests, highest priority first, and first
-- come first served among equals.
use cs537_operating_system_u.Base.{
  ℕ, ◌+◌, ◌≡◌, refl, List, [], ◌∷◌, ◌++◌, reverse, Option, none, some, arith, Bool, true, false,
  Bool-cases, inl, inr, ltb, if◌then◌else◌, length, All, ◌>>=◌,
}
use mathlib.Core.List.{reverse-append}
use cs537_operating_system_u.Base.Int.{ltb_ℤ, ◌≤ℤ◌}
use cs537_operating_system_u.Proxy.Queue.{ClientRequest}
use cs537_operating_system_u.Proxy.Queue.Place.{insert_back}

-- No request has a higher priority than one before it.
abbrev pub IsSorted : List ClientRequest → Type 0
IsSorted [] = Unit
IsSorted (x ∷ xs) = All (λ y. y.priority ≤ℤ x.priority) xs × IsSorted xs

-- The new request stands in front of the first one of a smaller priority.
unfoldable pub insert : ClientRequest → List ClientRequest → List ClientRequest
insert request [] = request ∷ []
insert request (x ∷ xs) =
    if ltb_ℤ x.priority request.priority then request ∷ x ∷ xs else x ∷ insert request xs

pub length-insert :
    (request : ClientRequest) (xs : List ClientRequest) → length (insert request xs) ≡ length xs + 1
unfolding insert
length-insert request [] = refl
length-insert request (x ∷ xs) = ground (arith, length-insert request xs)

-- A full queue drops the request, and signals nobody.
unfoldable pub add : ℕ → ClientRequest → List ClientRequest → List ClientRequest × Bool
add max_size request xs =
    if ltb (length xs) max_size then (insert request xs, true) else (xs, false)

-- An empty queue makes the caller wait; `none` is the fault of a take from a full queue.
unfoldable pub get : ℕ → List ClientRequest → Option (Option ClientRequest × List ClientRequest)
get max_size [] = some (none, [])
get max_size (x ∷ xs) = if ltb (length (x ∷ xs)) max_size then some (some x, xs) else none

-- What the threads ask of the queue, one call after another, and what they see.
pub data Op : Type 0 where
  put : ClientRequest → Op
  take : Op

pub data Reply : Type 0 where
  stored : Bool → Reply
  job : Option ClientRequest → Reply

unfoldable pub run : ℕ → List ClientRequest → List Op → Option (List Reply)
run max_size xs [] = some []
run max_size xs (put request ∷ ops) =
    let (xs', signalled) = add max_size request xs in
    run max_size xs' ops >>= λ replies. some (stored signalled ∷ replies)
run max_size xs (take ∷ ops) =
    get max_size xs >>= λ (x, xs'). (run max_size xs' ops >>= λ replies. some (job x ∷ replies))

All-insert :
    (request : ClientRequest) (P : ClientRequest → Type 0) (xs : List ClientRequest)
    → P request
    → All P xs
    → All P (insert request xs)
unfolding insert
All-insert request P [] p h = (p, tt)
All-insert request P (x ∷ xs) p h = elim (Bool-cases (ltb_ℤ x.priority request.priority)) [
  | inl less ↦ rw less (p, h)
  | inr enough ↦ rw enough (h.0, All-insert request P xs p h.1)
]

All-trans :
    (a b : ClientRequest) (xs : List ClientRequest)
    → b.priority ≤ℤ a.priority
    → All (λ y. y.priority ≤ℤ b.priority) xs
    → All (λ y. y.priority ≤ℤ a.priority) xs
All-trans a b [] h l = tt
All-trans a b (x ∷ xs) h l = (omega arith, All-trans a b xs h l.1)

pub insert-IsSorted :
    (request : ClientRequest) (xs : List ClientRequest) → IsSorted xs → IsSorted (insert request xs)
unfolding insert
insert-IsSorted request [] s = (tt, tt)
insert-IsSorted request (x ∷ xs) s = elim (Bool-cases (ltb_ℤ x.priority request.priority)) [
  | inl less ↦
      let below : x.priority ≤ℤ request.priority = ground arith in
      rw less ((below, All-trans request x xs below s.0), s)
  | inr enough ↦ rw enough (
    All-insert request (λ y. y.priority ≤ℤ x.priority) xs (ground arith) s.0,
    insert-IsSorted request xs s.1,
  )
]

insert_back-append :
    (request x : ClientRequest) (ps : List ClientRequest)
    → ltb_ℤ x.priority request.priority ≡ false
    → insert_back request (ps ++ x ∷ []) ≡ insert_back request ps ++ x ∷ []
unfolding insert_back
insert_back-append request x [] h = rw h
insert_back-append request x (p ∷ ps) h = elim (Bool-cases (ltb_ℤ p.priority request.priority)) [
  | inl less ↦ rw (less, insert_back-append request x ps h)
  | inr enough ↦ rw enough
]

insert_back-All_less :
    (request : ClientRequest) (ps : List ClientRequest)
    → All (λ y. ltb_ℤ y.priority request.priority ≡ true) ps
    → insert_back request ps ≡ ps ++ request ∷ []
unfolding insert_back
insert_back-All_less request [] h = refl
insert_back-All_less request (p ∷ ps) h = rw (h.0, insert_back-All_less request ps h.1)

All-append {ℓ κ} :
    {A : Type ℓ} (P : A → Type κ) (xs ys : List A) → All P xs → All P ys → All P (xs ++ ys)
All-append P [] ys hx hy = hy
All-append P (x ∷ xs) ys hx hy = (hx.0, All-append P xs ys hx.1 hy)

reverse-cons {ℓ} : {A : Type ℓ} (x : A) (xs : List A) → reverse (x ∷ xs) ≡ reverse xs ++ x ∷ []
reverse-cons x xs = reverse-append (x ∷ []) xs

All-reverse {ℓ κ} : {A : Type ℓ} (P : A → Type κ) (xs : List A) → All P xs → All P (reverse xs)
All-reverse P [] h = tt
All-reverse P (x ∷ xs) h =
    rw (reverse-cons x xs) (All-append P (reverse xs) (x ∷ []) (All-reverse P xs h.1) (h.0, tt))

All-less :
    (request x : ClientRequest) (xs : List ClientRequest)
    → ltb_ℤ x.priority request.priority ≡ true
    → All (λ y. y.priority ≤ℤ x.priority) xs
    → All (λ y. ltb_ℤ y.priority request.priority ≡ true) xs
All-less request x [] less h = tt
All-less request x (y ∷ xs) less h = (ground arith, All-less request x xs less h.1)

-- The loop from the back finds the place that the specification finds from the front.
pub insert_back-eq-insert :
    (request : ClientRequest) (xs : List ClientRequest)
    → IsSorted xs
    → insert_back request (reverse xs) ≡ reverse (insert request xs)
unfolding insert
insert_back-eq-insert request [] s = unfold insert_back in refl
insert_back-eq-insert request (x ∷ xs) s = elim (Bool-cases (ltb_ℤ x.priority request.priority)) [
  | inl less ↦ rw (
    less,
    insert_back-All_less request (reverse (x ∷ xs)) (
        All-reverse (λ y. ltb_ℤ y.priority request.priority ≡ true) (x ∷ xs)
          (less, All-less request x xs less s.0)),
    reverse-cons request (x ∷ xs),
  )
  | inr enough ↦ rw (
    enough,
    reverse-cons x xs,
    insert_back-append request x (reverse xs) enough,
    insert_back-eq-insert request xs s.1,
    reverse-cons x (insert request xs),
  )
]
