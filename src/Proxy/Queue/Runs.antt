-- ===== src/Proxy/Queue/Runs.antt =====
-- Sequences of calls of the queue, in the code and in the specification.
use cs537_operating_system_u.Base.{ℕ, ◌≡◌, refl, List, [], ◌∷◌, Option, none, some, arith, ◌>>=◌}
use cs537_operating_system_u.Base.Int.{pos}
use cs537_operating_system_u.Proxy.Queue.{
  ClientRequest, PriorityQueue, create_queue, add_work, waits, returns, get_work,
}
use cs537_operating_system_u.Proxy.Queue.Spec.{
  IsSorted, insert, insert-IsSorted, length-insert, insert_back-eq-insert, add, get, Op, put, take,
  Reply, stored, job,
}
use cs537_operating_system_u.Proxy.Queue.Spec
use cs537_operating_system_u.Proxy.Queue.Refine.{
  Holds, create_queue-Holds, add_work_refines, SameGet, get_work_refines,
}

-- The threads' calls in the code.
unfoldable pub run : PriorityQueue → List Op → Option (List Reply)
run q [] = some []
run q (put request ∷ ops) = add_work q request >>= λ (q', signalled).
    (run q' ops >>= λ replies. some (stored signalled ∷ replies))
run q (take ∷ ops) = get_work q >>= λ out. elim out [
  | waits ↦ run q ops >>= λ replies. some (job none ∷ replies)
  | returns x q' ↦ run q' ops >>= λ replies. some (job (some x) ∷ replies)
]

get-waits :
    (max_size : ℕ) (xs : List ClientRequest) {xs' : List ClientRequest}
    → get max_size xs ≡ some (none, xs')
    → xs' ≡ xs
unfolding get
get-waits max_size [] e = ground arith
get-waits max_size (x ∷ xs) e = ground arith

run-take-eq :
    {max_size : ℕ} (ops : List Op) (q : PriorityQueue) (xs : List ClientRequest)
    → ((q' : PriorityQueue) (xs' : List ClientRequest)
        → Holds max_size q' xs'
        → run q' ops ≡ Spec.run max_size xs' ops)
    → Holds max_size q xs
    → (g : Option (Option ClientRequest × List ClientRequest)) → get max_size xs ≡ g
    → SameGet max_size g (get_work q)
    → run q (take ∷ ops) ≡ Spec.run max_size xs (take ∷ ops)
unfolding run Spec.run
run-take-eq ops q xs ih h none e out = rw (e, out)
run-take-eq {max_size} ops q xs ih h (some (none, xs')) e out =
    rw (e, out, get-waits max_size xs e, ih q xs h)
run-take-eq ops q xs ih h (some (some x, xs')) e (q', out, h') = rw (e, out, ih q' xs' h')

run-eq :
    {max_size : ℕ} (ops : List Op) (q : PriorityQueue) (xs : List ClientRequest)
    → Holds max_size q xs
    → run q ops ≡ Spec.run max_size xs ops
unfolding run Spec.run
run-eq [] q xs h = refl
run-eq (put request ∷ ops) q xs h =
    let (q', e, h') = add_work_refines request h in rw (e, run-eq ops q' _ h')
run-eq {max_size} (take ∷ ops) q xs h =
    run-take-eq ops q xs (λ q' xs' h'. run-eq ops q' xs' h') h (get max_size xs) refl
      (get_work_refines xs h)

-- Every sequence of calls on a new queue of `max_size` cells shows what the specification shows
-- for the empty list: the same replies in the same order, and a fault exactly where it has one.
pub run_refines :
    (max_size : ℕ) (ops : List Op)
    → run (create_queue (pos max_size)) ops ≡ Spec.run max_size [] ops
run_refines max_size ops = run-eq ops (create_queue (pos max_size)) [] (create_queue-Holds max_size)
