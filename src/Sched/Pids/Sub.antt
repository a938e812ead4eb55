-- ===== src/Sched/Pids/Sub.antt =====
-- Operations that give no slot a new pid.
use cs537_operating_system_u.Base.{
  ℕ, zero, suc, ◌≤◌, ◌≡◌, refl, ap, sym, ◌∙◌, List, [], ◌∷◌, some, arith, true, map, get_elem?, set,
  get_elem?-set_self, get_elem?-set_ne, get_elem?-lt, ℕ_discrete,
}
use mathlib.Core.Path.{subst}
use cs537_operating_system_u.Sched.Table.{
  Chan, Proc, Kernel, is_used, wake, wakeup1, update_proc, update_priority, wake_sleeper, wakeup2,
}
use cs537_operating_system_u.Sched.Pids.{Has, IsValid}

-- Each slot in use of the new table was in use with the same pid in the old one.
abbrev pub Sub : List Proc → List Proc → Type 0
Sub procs' procs = (i n : ℕ) → Has procs' i n → Has procs i n

-- What an update of one slot may do to it.
abbrev pub KeepsPid : Proc → Proc → Type 0
KeepsPid p v = is_used v.state ≡ true → (is_used p.state ≡ true) × (p.pid ≡ v.pid)

pub Sub-set :
    (procs : List Proc) (i : ℕ) (p v : Proc)
    → get_elem? procs i ≡ some p
    → KeepsPid p v
    → Sub (set procs i v) procs
Sub-set procs i p v at keep j n (q, e, used, pid) = elim (ℕ_discrete i j) [
  | yes same ↦
      let here : get_elem? (set procs i v) j ≡ some v =
        subst (λ k. get_elem? (set procs i v) k ≡ some v) same
          (get_elem?-set_self procs i v (get_elem?-lt procs i at)) in
      let q_is_v : v ≡ q = cc in
      let (used', pid') = keep (rw q_is_v used) in
      (
        p,
        subst (λ k. get_elem? procs k ≡ some p) same at,
        used',
        pid' ∙ ap (λ (r : Proc). r.pid) q_is_v ∙ pid,
      )
  | no other ↦ (q, sym (get_elem?-set_ne procs v other) ∙ e, used, pid)
]

pub Sub-map :
    (f : Proc → Proc) (procs : List Proc)
    → ((p : Proc) → KeepsPid p (f p))
    → Sub (map f procs) procs
Sub-map f [] keep i n (q, e, used, pid) = absurd (cc)
Sub-map f (p ∷ procs) keep zero n (q, e, used, pid) =
    let same : f p ≡ q = cc in
    let (used', pid') = keep p (rw same used) in
    (p, refl, used', pid' ∙ ap (λ (r : Proc). r.pid) same ∙ pid)
Sub-map f (p ∷ procs) keep (suc i) n h = Sub-map f procs keep i n h

-- Each slot of the new table is in use if it was, with the same pid.
abbrev pub Same : List Proc → List Proc → Type 0
Same procs' procs =
    (i : ℕ) (p' : Proc)
    → get_elem? procs' i ≡ some p'
    → (p : Proc) × (get_elem? procs i ≡ some p)
      × (is_used p.state ≡ is_used p'.state)
      × (p.pid ≡ p'.pid)

pub Same-Sub : (xs ys : List Proc) → Same xs ys → Sub xs ys
Same-Sub xs ys same i n (p', e, used, pid) =
    let (p, at, used', pid') = same i p' e in (p, at, used' ∙ used, pid' ∙ pid)

pub Same-trans : (xs ys zs : List Proc) → Same xs ys → Same ys zs → Same xs zs
Same-trans xs ys zs f g i p'' e =
    let (p', e', used', pid') = f i p'' e in
    let (p, at, used, pid) = g i p' e' in (p, at, used ∙ used', pid ∙ pid')

pub Same-set :
    (procs : List Proc) (i : ℕ) (p v : Proc)
    → get_elem? procs i ≡ some p
    → is_used p.state ≡ is_used v.state
    → p.pid ≡ v.pid
    → Same (set procs i v) procs
Same-set procs i p v at used pid j q e = elim (ℕ_discrete i j) [
  | yes same ↦
      let here : get_elem? (set procs i v) j ≡ some v =
        subst (λ k. get_elem? (set procs i v) k ≡ some v) same
          (get_elem?-set_self procs i v (get_elem?-lt procs i at)) in
      let q_is_v : v ≡ q = cc in
      (
        p,
        subst (λ k. get_elem? procs k ≡ some p) same at,
        used ∙ ap (λ (r : Proc). is_used r.state) q_is_v,
        pid ∙ ap (λ (r : Proc). r.pid) q_is_v,
      )
  | no other ↦ (q, sym (get_elem?-set_ne procs v other) ∙ e, refl, refl)
]

pub Same-map :
    (f : Proc → Proc) (procs : List Proc)
    → ((p : Proc) → (is_used p.state ≡ is_used (f p).state) × (p.pid ≡ (f p).pid))
    → Same (map f procs) procs
Same-map f [] keep i q e = absurd (cc)
Same-map f (p ∷ procs) keep zero q e =
    let same : f p ≡ q = cc in
    (
      p,
      refl,
      (keep p).0 ∙ ap (λ (r : Proc). is_used r.state) same,
      (keep p).1 ∙ ap (λ (r : Proc). r.pid) same,
    )
Same-map f (p ∷ procs) keep (suc i) q e = Same-map f procs keep i q e

pub wakeup1-Same : (chan : Chan) (procs : List Proc) → Same (wakeup1 chan procs) procs
unfolding wakeup1 wake
wakeup1-Same chan procs = Same-map (wake chan) procs (λ p. ground arith)

pub update_priority-Sub : (procs : List Proc) → Sub (update_priority procs) procs
unfolding update_priority update_proc
update_priority-Sub procs = Sub-map update_proc procs (λ p used. ground arith)

pub wakeup2-Sub : (ticks : ℕ) (procs : List Proc) → Sub (wakeup2 ticks procs) procs
unfolding wakeup2 wake_sleeper
wakeup2-Sub ticks procs = Sub-map (wake_sleeper ticks) procs (λ p used. ground arith)

pub Sub-IsValid :
    (kernel kernel' : Kernel)
    → IsValid kernel
    → Sub kernel'.procs kernel.procs
    → kernel.nextpid ≤ kernel'.nextpid
    → IsValid kernel'
Sub-IsValid kernel kernel' v sub le = record {
  below = λ i n h. omega (arith, v.below i n (sub i n h));
  distinct = λ i j n h k. v.distinct i j n (sub i n h) (sub j n k);
}
