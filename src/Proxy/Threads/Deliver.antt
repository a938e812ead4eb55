-- ===== src/Proxy/Threads/Deliver.antt =====
-- What `get_work` and the code behind it do to the caller's place and to the queue.
use cs537_operating_system_u.Base.{
  ℕ, ◌+◌, ◌≡◌, refl, List, [], ◌∷◌, ◌++◌, some, arith, Bool, Bool-cases, inl, inr, Option-cases,
  set,
}
use mathlib.Core.Path.{subst}
use cs537_operating_system_u.Base.Int.{pos, ltb_ℤ}
use cs537_operating_system_u.Proxy.Queue.{ClientRequest, PriorityQueue, waits, returns, get_work}
use cs537_operating_system_u.Proxy.Http.{ok}
use cs537_operating_system_u.Proxy.Listener.{behind_method, respond, close}
use cs537_operating_system_u.Proxy.Worker.{Sockets, serve_request}
use cs537_operating_system_u.Proxy.Threads.{
  Caller, for_client, for_worker, Pc, accepting, adding, calling, asleep, woken, delaying, serving,
  System, at, after_work, deliver, call, serve,
}
use cs537_operating_system_u.Proxy.Threads.Count.{weight, count}

-- The requests of a kind in the hands of a thread.
abbrev pub holding : (ClientRequest → Bool) → Pc → ℕ
holding p accepting = 0
holding p (adding r) = weight p r
holding p (calling c) = 0
holding p (asleep c) = 0
holding p (woken c) = 0
holding p (delaying r) = weight p r
holding p (serving r) = weight p r

abbrev pub is_adding : Pc → ℕ
is_adding accepting = 0
is_adding (adding r) = 1
is_adding (calling c) = 0
is_adding (asleep c) = 0
is_adding (woken c) = 0
is_adding (delaying r) = 0
is_adding (serving r) = 0

abbrev pub is_asleep : Pc → ℕ
is_asleep accepting = 0
is_asleep (adding r) = 0
is_asleep (calling c) = 0
is_asleep (asleep c) = 1
is_asleep (woken c) = 0
is_asleep (delaying r) = 0
is_asleep (serving r) = 0

abbrev pub is_woken : Pc → ℕ
is_woken accepting = 0
is_woken (adding r) = 0
is_woken (calling c) = 0
is_woken (asleep c) = 0
is_woken (woken c) = 1
is_woken (delaying r) = 0
is_woken (serving r) = 0

abbrev pub calls_as_listener : Caller → ℕ
calls_as_listener (for_client fd) = 1
calls_as_listener for_worker = 0

abbrev pub is_listener : Pc → ℕ
is_listener accepting = 1
is_listener (adding r) = 1
is_listener (calling c) = calls_as_listener c
is_listener (asleep c) = calls_as_listener c
is_listener (woken c) = calls_as_listener c
is_listener (delaying r) = 0
is_listener (serving r) = 0

-- The caller goes on with the job in its hands, or has given it to a client.
pub record Delivered (i : ℕ) (caller : Caller) (job : ClientRequest) (s s' : System) : Type 0 where
  pub pc : Pc
  pub threads_eq : s'.threads ≡ set s.threads i pc
  pub queue_eq : s'.queue ≡ s.queue
  pub admitted_eq : s'.admitted ≡ s.admitted
  pub dropped_eq : s'.dropped ≡ s.dropped
  pub kept :
      (p : ClientRequest → Bool)
      → holding p pc + count p s'.finished ≡ weight p job + count p s.finished
  pub not_adding : is_adding pc ≡ 0
  pub not_asleep : is_asleep pc ≡ 0
  pub not_woken : is_woken pc ≡ 0
  pub same_kind : is_listener pc ≡ calls_as_listener caller

deliver-worker :
    (i : ℕ) (job : ClientRequest) (s : System)
    → Delivered i for_worker job s (at s i (after_work job))
unfolding after_work
deliver-worker i job s = elim (Bool-cases (ltb_ℤ (pos 0) job.delay)) [
  | inl delays ↦ record {
    pc = delaying job;
    threads_eq = rw delays;
    queue_eq = refl;
    admitted_eq = refl;
    dropped_eq = refl;
    kept = λ p. refl;
    not_adding = refl;
    not_asleep = refl;
    not_woken = refl;
    same_kind = refl;
  }
  | inr at_once ↦ record {
    pc = serving job;
    threads_eq = rw at_once;
    queue_eq = refl;
    admitted_eq = refl;
    dropped_eq = refl;
    kept = λ p. refl;
    not_adding = refl;
    not_asleep = refl;
    not_woken = refl;
    same_kind = refl;
  }
]

deliver-client :
    (i fd : ℕ) (job : ClientRequest) (text : List ℕ) (s : System)
    → Delivered i (for_client fd) job s (record (at s i accepting) {
      actions = s.actions ++ respond fd ok text ∷ close fd ∷ [];
      finished = job ∷ s.finished;
    })
deliver-client i fd job text s = record {
  pc = accepting;
  threads_eq = refl;
  queue_eq = refl;
  admitted_eq = refl;
  dropped_eq = refl;
  kept = λ p. omega arith;
  not_adding = refl;
  not_asleep = refl;
  not_woken = refl;
  same_kind = refl;
}

pub deliver-Delivered :
    (i : ℕ) (caller : Caller) (job : ClientRequest) (s : System) {s' : System}
    → deliver i caller job s ≡ some s'
    → Delivered i caller job s s'
unfolding deliver
deliver-Delivered i for_worker job s {s'} e =
    subst (Delivered i for_worker job s) (cc e) (deliver-worker i job s)
deliver-Delivered i (for_client fd) job s {s'} e =
    elim (Option-cases (behind_method job.read_buffer)) [
      | inl short ↦ absurd (cc (rw (short) at (e)))
      | inr (text, long) ↦
          subst (Delivered i (for_client fd) job s) (cc (rw (long) at (e)))
            (deliver-client i fd job text s)
    ]

-- The two ways in which a call ends.
pub data Called (i : ℕ) (caller : Caller) (s s' : System) : Type 0 where
  waited : get_work s.queue ≡ some waits → s' ≡ at s i (asleep caller) → Called i caller s s'
  went_on :
      (job : ClientRequest) (queue' : PriorityQueue)
      → get_work s.queue ≡ some (returns job queue')
      → Delivered i caller job (record s { queue = queue' }) s'
      → Called i caller s s'

pub call-Called :
    (i : ℕ) (caller : Caller) (s : System) {s' : System}
    → call i caller s ≡ some s'
    → Called i caller s s'
unfolding call
call-Called i caller s {s'} e = elim (Option-cases (get_work s.queue)) [
  | inl fault ↦ absurd (cc (rw (fault) at (e)))
  | inr (waits, out) ↦ waited out (cc (rw (out) at (e)))
  | inr (returns job queue', out) ↦
      went_on job queue' out
        (deliver-Delivered i caller job (record s { queue = queue' }) (rw (out) at (e)))
]

-- A worker that has served its job goes back to `get_work`.
pub serve-Served :
    (i : ℕ) (job : ClientRequest) (sockets : Sockets) (s : System) {s' : System}
    → serve i job sockets s ≡ some s'
    → record (at s i (calling for_worker)) { finished = job ∷ s.finished } ≡ s'
unfolding serve
serve-Served i job sockets s e = elim (Option-cases (serve_request sockets job)) [
  | inl fault ↦ absurd (cc (rw (fault) at (e)))
  | inr (served, out) ↦ cc (rw (out) at (e))
]
