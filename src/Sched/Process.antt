-- ===== src/Sched/Process.antt =====
-- The life of a process in p4/xv6-public/proc.c. `none` is a panic of the kernel, or an access
-- outside the table. What the kernel takes from its allocators is an argument: the page that `kalloc`
-- gives, and whether `copyuvm` and `setupkvm` succeed.
use cs537_operating_system_u.Base.{
  ℕ, zero, suc, ◌+◌, ◌-◌, ◌%◌, ltb, List, [], ◌∷◌, Option, none, some, ◌==◌, if◌then◌else◌, ◌&&◌,
  not, Bool, true, false, get_elem?, set, length, replicate, ◌>>=◌,
}
use cs537_operating_system_u.Base.Int.{ℤ, pos, negsuc}
use cs537_operating_system_u.Base.CString.{chars}
use cs537_operating_system_u.Sched.Table.{
  unused, embryo, sleeping, runnable, zombie, Chan, proc_chan, Proc, Kernel, is_used, is_sleeping,
  is_zombie, same_slot, wakeup1,
}

-- A pid is an int by its 32 bits.
abbrev pub pid_end : ℕ
pid_end = 0x100000000

abbrev pub to_int : ℕ → ℤ
to_int n = if ltb n 0x80000000 then pos n else negsuc (0xffffffff - n)

-- The first UNUSED slot, from slot `i` on.
unfoldable pub find_unused : ℕ → List Proc → Option ℕ
find_unused i [] = none
find_unused i (p ∷ ps) =
    let rest = find_unused (suc i) ps in if is_used p.state then rest else some i

-- The slot's process at `found`, with its stack if `kalloc` gives one, or UNUSED again.
unfoldable pub init_proc : Proc → ℕ → Option ℕ → Proc
init_proc p pid none = record p { state = unused; pid = pid; kstack = none }
init_proc p pid (some page) = record p {
  state = embryo;
  pid = pid;
  kstack = some page;
  nice_value = 0;
  cpu_ticks = 0;
  priority = 0;
  exec_ticks = 0;
}

abbrev pub is_some {ℓ} : {A : Type ℓ} → Option A → Bool
is_some none = false
is_some (some a) = true

-- The slot that is returned, or NULL.
unfoldable pub allocproc : Kernel → Option ℕ → Option ℕ × Kernel
allocproc kernel page = elim (find_unused 0 kernel.procs) [
  | none ↦ (none, kernel)
  | some i ↦ elim (get_elem? kernel.procs i) [
    | none ↦ (none, kernel)
    | some p ↦ (
      if is_some page then some i else none,
      record kernel {
        procs = set kernel.procs i (init_proc p kernel.nextpid page);
        nextpid = (kernel.nextpid + 1) % pid_end;
      },
    )
  ]
]

-- The table before the first process: zeroed memory.
abbrev pub zeroed : Proc
zeroed = record {
  state = unused;
  pid = 0;
  parent = none;
  chan = none;
  killed = false;
  kstack = none;
  name = [];
  cpu_ticks = 0;
  priority = 0;
  wakeuptime = 0;
  nice_value = 0;
  exec_ticks = 0;
}

abbrev pub nproc : ℕ
nproc = 64

abbrev pub zeroed_kernel : Kernel
zeroed_kernel = record { procs = replicate nproc zeroed; nextpid = 1; initproc = 0; ticks = 0 }

-- The first process; a NULL from `allocproc` is used as a pointer, and without `setupkvm` it panics.
unfoldable pub userinit : Kernel → Option ℕ → Bool → Option Kernel
userinit kernel page set_up =
    let (slot, kernel') = allocproc kernel page in
    let ready = slot >>= λ i.
    (get_elem? kernel'.procs i >>= λ p. some (record kernel' {
      procs = set kernel'.procs i (record p { name = chars "initcode"; state = runnable });
      initproc = i;
    })) in
    if set_up then ready else none

-- What `fork` makes of the slot that `allocproc` gave it; -1 and UNUSED if `copyuvm` fails.
unfoldable pub fork_into : Kernel → ℕ → Proc → ℕ → Proc → Bool → ℤ × Kernel
fork_into kernel current curproc i np copied =
    if copied
    then (
      to_int np.pid,
      record kernel {
        procs =
            set kernel.procs i
              (record np { parent = some current; name = curproc.name; state = runnable });
      },
    )
    else (
      negsuc 0,
      record kernel { procs = set kernel.procs i (record np { kstack = none; state = unused }) },
    )

unfoldable pub fork : Kernel → ℕ → Option ℕ → Bool → Option (ℤ × Kernel)
fork kernel current page copied =
    let (slot, kernel') = allocproc kernel page in
    elim slot [
      | none ↦ some (negsuc 0, kernel')
      | some i ↦ get_elem? kernel'.procs i >>= λ np.
          (get_elem? kernel'.procs current >>= λ curproc.
          some (fork_into kernel' current curproc i np copied))
    ]

-- The loop of `exit` over the table: `rounds` slots are left, from slot `i` on.
unfoldable pub reparent : ℕ → ℕ → ℕ → ℕ → List Proc → List Proc
reparent zero i current initproc procs = procs
reparent (suc rounds) i current initproc procs =
    reparent rounds (suc i) current initproc (elim (get_elem? procs i) [
      | none ↦ procs
      | some p ↦
          let adopted = set procs i (record p { parent = some initproc }) in
          if same_slot p.parent current
          then if is_zombie p.state then wakeup1 (proc_chan initproc) adopted else adopted
          else procs
    ])

-- `wakeup1(curproc->parent)`; a NULL parent is the channel that nobody sleeps on.
abbrev pub wakeup_parent : Option ℕ → List Proc → List Proc
wakeup_parent none procs = procs
wakeup_parent (some parent) procs = wakeup1 (proc_chan parent) procs

unfoldable pub exit : Kernel → ℕ → Option Kernel
exit kernel current = do
  curproc ← get_elem? kernel.procs current
  let procs =
      reparent (length kernel.procs) 0 current kernel.initproc
        (wakeup_parent curproc.parent kernel.procs)
  let exited = get_elem? procs current >>= λ p.
      some (record kernel { procs = set procs current (record p { state = zombie }) })
  if current == kernel.initproc then none else exited

-- One pass of `wait` over the table from slot `i` on: the first child that is a zombie, and whether
-- there is any child up to there.
unfoldable pub scan_children : ℕ → ℕ → Bool → List Proc → Option (ℕ × Proc) × Bool
scan_children i current havekids [] = (none, havekids)
scan_children i current havekids (p ∷ ps) =
    let child = same_slot p.parent current in
    let rest = scan_children (suc i) current (if child then true else havekids) ps in
    if child && is_zombie p.state then (some (i, p), true) else rest

-- The child's slot when `wait` has taken it.
unfoldable pub reap : Proc → Proc
reap p = record p {
  pid = 0;
  kstack = none;
  parent = none;
  name = [];
  killed = false;
  state = unused;
}

-- One round of `wait`: the value that it returns, or `none` where it goes to sleep on its own slot.
unfoldable pub wait_round : Kernel → ℕ → Option (Option ℤ × Kernel)
wait_round kernel current = do
  curproc ← get_elem? kernel.procs current
  let (found, havekids) = scan_children 0 current false kernel.procs
  let asleep = record kernel {
    procs =
        set kernel.procs current
          (record curproc { chan = some (proc_chan current); state = sleeping });
  }
  some (elim found [
    | some (i, p) ↦ (some (to_int p.pid), record kernel { procs = set kernel.procs i (reap p) })
    | none ↦
        if not havekids
        then (some (negsuc 0), kernel)
        else if curproc.killed
        then (some (negsuc 0), kernel)
        else (none, asleep)
  ])

-- `yield` up to the switch.
unfoldable pub yield : Kernel → ℕ → Option Kernel
yield kernel current = do
  p ← get_elem? kernel.procs current
  some (record kernel { procs = set kernel.procs current (record p { state = runnable }) })

-- `sleep` up to the switch, and from there on.
unfoldable pub sleep : Kernel → ℕ → Chan → Option Kernel
sleep kernel current chan = do
  p ← get_elem? kernel.procs current
  some (record kernel {
    procs = set kernel.procs current (record p { chan = some chan; state = sleeping });
  })

unfoldable pub awake : Kernel → ℕ → Option Kernel
awake kernel current = do
  p ← get_elem? kernel.procs current
  some (record kernel { procs = set kernel.procs current (record p { chan = none }) })

-- The loop of `kill`; `none` if no slot has the pid.
unfoldable pub kill_from : ℕ → List Proc → Option (List Proc)
kill_from pid [] = none
kill_from pid (p ∷ ps) =
    let rest = kill_from pid ps >>= λ ps'. some (p ∷ ps') in
    if p.pid == pid
    then some
        (record p { killed = true; state = if is_sleeping p.state then runnable else p.state } ∷ ps)
    else rest

unfoldable pub kill : Kernel → ℕ → ℤ × Kernel
kill kernel pid = elim (kill_from pid kernel.procs) [
  | none ↦ (negsuc 0, kernel)
  | some procs ↦ (pos 0, record kernel { procs = procs })
]
