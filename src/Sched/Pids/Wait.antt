-- ===== src/Sched/Pids/Wait.antt =====
-- A round of `wait` keeps the pids of the slots in use.
use cs537_operating_system_u.Base.{
  ℕ, suc, ◌+◌, ◌≡◌, refl, sym, ◌∙◌, List, [], ◌∷◌, Option, none, some, arith, Bool, true, false,
  if◌then◌else◌, ◌&&◌, Bool-cases, Option-cases, inl, inr, get_elem?, set, not, ◌||◌,
}
use mathlib.Core.Path.{subst}
use cs537_operating_system_u.Base.Int.{ℤ, negsuc}
use cs537_operating_system_u.Sched.Table.{sleeping, proc_chan, Proc, Kernel, is_zombie, same_slot}
use cs537_operating_system_u.Sched.Process.{to_int, scan_children, reap, wait_round}
use cs537_operating_system_u.Sched.Pids.Sub.{KeepsPid, Sub-set}
use cs537_operating_system_u.Sched.Pids.Calls.{InUse, used_there, KeepsPids-unchanged}
use cs537_operating_system_u.Sched.Pids.Exit.{KeepsPids}

scan_children-found :
    (i current : ℕ) (havekids : Bool) (ps : List Proc) {j : ℕ} {p : Proc}
    → (scan_children i current havekids ps).0 ≡ some (j, p)
    → (k : ℕ) × (j ≡ i + k) × (get_elem? ps k ≡ some p)
unfolding scan_children
scan_children-found i current havekids [] h = absurd (cc)
scan_children-found i current havekids (q ∷ ps) {j} {p} h =
    elim (Bool-cases (same_slot q.parent current && is_zombie q.state)) [
      | inl hit ↦ (0, ground (arith, hit), ground (arith, hit))
      | inr miss ↦
          let (k, e, at) =
            scan_children-found (suc i) current
              (if same_slot q.parent current then true else havekids) ps (rw miss at h) in
          (suc k, omega (arith, e), at)
    ]

reap-KeepsPid : (p : Proc) → KeepsPid p (reap p)
unfolding reap
reap-KeepsPid p used = absurd (cc)

module _ (kernel : Kernel) (current : ℕ) where
  abbrev scanned : Option (ℕ × Proc) × Bool
  scanned = scan_children 0 current false kernel.procs

  wait_round-reaps :
      (curproc p : Proc) (i : ℕ)
      → get_elem? kernel.procs current ≡ some curproc
      → scanned.0 ≡ some (i, p)
      → wait_round kernel current
        ≡ some (some (to_int p.pid), record kernel { procs = set kernel.procs i (reap p) })
  unfolding wait_round
  wait_round-reaps curproc p i at found = rw (at, wait_round, found)

  wait_round-fails :
      (curproc : Proc)
      → get_elem? kernel.procs current ≡ some curproc
      → scanned.0 ≡ none
      → (not scanned.1 || curproc.killed) ≡ true
      → wait_round kernel current ≡ some (some (negsuc 0), kernel)
  unfolding wait_round
  wait_round-fails curproc at found stop = rw (at, wait_round, found) (ground (arith, stop))

  wait_round-sleeps :
      (curproc : Proc)
      → get_elem? kernel.procs current ≡ some curproc
      → scanned.0 ≡ none
      → (not scanned.1 || curproc.killed) ≡ false
      → wait_round kernel current
        ≡ some (
          none,
          record kernel {
            procs =
                set kernel.procs current
                  (record curproc { chan = some (proc_chan current); state = sleeping });
          },
        )
  unfolding wait_round
  wait_round-sleeps curproc at found goes_on = rw (at, wait_round, found) (ground (arith, goes_on))

  wait_round-lost : get_elem? kernel.procs current ≡ none → wait_round kernel current ≡ none
  unfolding wait_round
  wait_round-lost out = rw out

  pub wait_round-KeepsPids :
      {r : Option ℤ} {kernel' : Kernel}
      → InUse kernel current
      → wait_round kernel current ≡ some (r, kernel')
      → KeepsPids kernel kernel'
  wait_round-KeepsPids {r} {kernel'} used h = elim (Option-cases (get_elem? kernel.procs current)) [
    | inl out ↦ absurd (cc (wait_round-lost out))
    | inr (curproc, at) ↦ elim (Option-cases scanned.0) [
      | inr ((i, p), found) ↦
          let (k, e, child) = scan_children-found 0 current false kernel.procs found in
          let at_i : get_elem? kernel.procs i ≡ some p =
            subst (λ j. get_elem? kernel.procs j ≡ some p) (sym (omega arith)) child in
          let result : record kernel { procs = set kernel.procs i (reap p) } ≡ kernel' =
            cc (wait_round-reaps curproc p i at found) in
          subst (KeepsPids kernel) result
            (Sub-set kernel.procs i p (reap p) at_i (reap-KeepsPid p), omega arith)
      | inl no_zombie ↦ elim (Bool-cases (not scanned.1 || curproc.killed)) [
        | inl stop ↦
            KeepsPids-unchanged kernel (some (negsuc 0)) r
              (sym (wait_round-fails curproc at no_zombie stop) ∙ h)
        | inr goes_on ↦
            let v = record curproc { chan = some (proc_chan current); state = sleeping } in
            let result : record kernel { procs = set kernel.procs current v } ≡ kernel' =
              cc (wait_round-sleeps curproc at no_zombie goes_on) in
            subst (KeepsPids kernel) result (
              Sub-set kernel.procs current curproc v at
                  (λ _. (used_there kernel current used curproc at, refl)),
              omega arith,
            )
      ]
    ]
  ]
