-- ===== src/Sched/Pids/Exit.antt =====
-- `exit` keeps the pids of the slots in use.
use cs537_operating_system_u.Base.{
  ℕ, zero, suc, ◌≡◌, refl, ap, sym, ◌∙◌, List, Option, none, some, arith, ◌==◌, true, false,
  if◌then◌else◌, Bool-cases, Option-cases, inl, inr, get_elem?, set, length,
}
use mathlib.Core.Path.{subst}
use cs537_operating_system_u.Sched.Table.{
  zombie, proc_chan, Proc, Kernel, is_used, is_zombie, same_slot, wakeup1,
}
use cs537_operating_system_u.Sched.Process.{reparent, exit, wakeup_parent}
use cs537_operating_system_u.Sched.Pids.Sub.{
  Sub, KeepsPid, Sub-set, Same, Same-Sub, Same-trans, Same-set, wakeup1-Same,
}

-- What an operation with a result may do to the kernel.
abbrev pub KeepsPids : Kernel → Kernel → Type 0
KeepsPids kernel kernel' = Sub kernel'.procs kernel.procs × (kernel'.nextpid ≡ kernel.nextpid)

Same-refl : (procs : List Proc) → Same procs procs
Same-refl procs i p e = (p, e, refl, refl)

adopt : List Proc → ℕ → ℕ → ℕ → List Proc
adopt procs i current initproc = elim (get_elem? procs i) [
  | none ↦ procs
  | some p ↦
      let adopted = set procs i (record p { parent = some initproc }) in
      if same_slot p.parent current
      then if is_zombie p.state then wakeup1 (proc_chan initproc) adopted else adopted
      else procs
]

adopt-Same :
    (procs : List Proc) (i current initproc : ℕ) → Same (adopt procs i current initproc) procs
unfolding adopt
adopt-Same procs i current initproc = elim (Option-cases (get_elem? procs i)) [
  | inl out ↦ rw (out, adopt) (Same-refl procs)
  | inr (p, at) ↦ elim (Bool-cases (same_slot p.parent current)) [
    | inr other ↦ rw (at, adopt, other) (Same-refl procs)
    | inl child ↦
        let adopted = set procs i (record p { parent = some initproc }) in
        let sub : Same adopted procs =
          Same-set procs i p (record p { parent = some initproc }) at refl refl in
        elim (Bool-cases (is_zombie p.state)) [
          | inr alive ↦ rw (at, adopt, child, alive) sub
          | inl dead ↦
              rw (at, adopt, child, dead)
                (Same-trans (wakeup1 (proc_chan initproc) adopted) adopted procs
                  (wakeup1-Same (proc_chan initproc) adopted) sub)
        ]
  ]
]

reparent-Same :
    (rounds i current initproc : ℕ) (procs : List Proc)
    → Same (reparent rounds i current initproc procs) procs
unfolding reparent adopt
reparent-Same zero i current initproc procs = Same-refl procs
reparent-Same (suc rounds) i current initproc procs =
    Same-trans (reparent rounds (suc i) current initproc (adopt procs i current initproc))
      (adopt procs i current initproc) procs
      (reparent-Same rounds (suc i) current initproc (adopt procs i current initproc))
      (adopt-Same procs i current initproc)

wakeup_parent-Same :
    (parent : Option ℕ) (procs : List Proc) → Same (wakeup_parent parent procs) procs
wakeup_parent-Same none procs = Same-refl procs
wakeup_parent-Same (some parent) procs = wakeup1-Same (proc_chan parent) procs

-- The table in `exit` before its own slot becomes a zombie.
abbrev orphaned : Kernel → ℕ → Proc → List Proc
orphaned kernel current p =
    reparent (length kernel.procs) 0 current kernel.initproc (wakeup_parent p.parent kernel.procs)

orphaned-Same :
    (kernel : Kernel) (current : ℕ) (p : Proc) → Same (orphaned kernel current p) kernel.procs
orphaned-Same kernel current p =
    let woken = wakeup_parent p.parent kernel.procs in
    Same-trans (orphaned kernel current p) woken kernel.procs
      (reparent-Same (length kernel.procs) 0 current kernel.initproc woken)
      (wakeup_parent-Same p.parent kernel.procs)

module _ (kernel : Kernel) (current : ℕ) (p : Proc)
    (at : get_elem? kernel.procs current ≡ some p) where
  exit-panics : (current == kernel.initproc) ≡ true → exit kernel current ≡ none
  unfolding exit
  exit-panics init = rw (at, exit, init)

  exit-lost : get_elem? (orphaned kernel current p) current ≡ none → exit kernel current ≡ none
  unfolding exit
  exit-lost out =
      rw (at, exit, out)
        (elim (Bool-cases (current == kernel.initproc)) [
          | inl init ↦ rw init
          | inr other ↦ rw other
        ])

  exit-zombie :
      (q : Proc)
      → get_elem? (orphaned kernel current p) current ≡ some q
      → (current == kernel.initproc) ≡ false
      → exit kernel current
        ≡ some (record kernel {
          procs = set (orphaned kernel current p) current (record q { state = zombie });
        })
  unfolding exit
  exit-zombie q e other = rw (at, exit, e, other)

pub exit-KeepsPids :
    (kernel : Kernel) (current : ℕ) {p : Proc} {kernel' : Kernel}
    → get_elem? kernel.procs current ≡ some p
    → is_used p.state ≡ true
    → exit kernel current ≡ some kernel'
    → KeepsPids kernel kernel'
exit-KeepsPids kernel current {p} {kernel'} at used h =
    elim (Bool-cases (current == kernel.initproc)) [
      | inl init ↦ absurd (cc (exit-panics kernel current p at init))
      | inr other ↦ elim (Option-cases (get_elem? (orphaned kernel current p) current)) [
        | inl out ↦ absurd (cc (exit-lost kernel current p at out))
        | inr (q, e) ↦
            let (p', at', used', pid') = orphaned-Same kernel current p current q e in
            let p_is : p' ≡ p = cc in
            let procs = orphaned kernel current p in
            let keep : KeepsPid q (record q { state = zombie }) =
              λ _. (sym used' ∙ ap (λ (r : Proc). is_used r.state) p_is ∙ used, refl) in
            let sub = Sub-set procs current q (record q { state = zombie }) e keep in
            let result : record kernel { procs = set procs current (record q { state = zombie }) }
                ≡ kernel' =
              cc (exit-zombie kernel current p at q e other) in
            subst (KeepsPids kernel) result (
              (λ i n k.
                  Same-Sub procs kernel.procs (orphaned-Same kernel current p) i n (sub i n k)),
              omega arith,
            )
      ]
    ]
