-- ===== src/Kernel/Known.antt =====
-- The processes that CPUs and the entries of MTSQueue name, through what the kernel does with both.
use tp_sisop_go_utn.Kernel.Api.{finish, block, wait_for}
use tp_sisop_go_utn.Kernel.Devices.{serve_waiting, take_blocked, drop_waiting}
use tp_sisop_go_utn.Kernel.DevicesPlaced.{KnownBlocked}
use tp_sisop_go_utn.Kernel.Disconnections.{KnownBlocked-remove}
use tp_sisop_go_utn.Kernel.Moves.{nothing, one, Taken}
use tp_sisop_go_utn.Kernel.Pcb.{exit, State}
use tp_sisop_go_utn.Kernel.Queues.{enqueue, if_found, remove_by_pid}
use tp_sisop_go_utn.Kernel.Scheduler.{assign_cpu}
use tp_sisop_go_utn.Kernel.Shared.{
  create_process, free_cpu, free_cpus, KernelConfig, remove_blocked_by_pid, runs, terminate_process,
  update_burst_estimation,
}
use tp_sisop_go_utn.Kernel.State.{Blocked, CpuConnection, Kernel}
use tp_sisop_go_utn.Kernel.Syscalls.{KnownCpus}
use tp_sisop_go_utn.Utils.Strings.{Text}
use tp_sisop_go_utn.Base.{
  ℤ, [], arith, Bool-cases, inl, inr, length, List, none, Option, some, ℕ, ◌++◌, ◌+◌, ◌<◌, ◌==◌,
  ◌≡◌, ◌≤◌, ◌∷◌,
}

-- What points to a connection is its place, from `i` on.
abbrev pub IsNumbered : ℕ → List CpuConnection → Type 0
IsNumbered i [] = Unit {0}
IsNumbered i (c ∷ cs) = (c.ref ≡ i) × IsNumbered (i + 1) cs

-- Every process that a CPU or an entry of MTSQueue points to was created, TotalProcessesCreated
-- counts the processes that were, and the pointers to CPUs are their places.
abbrev pub IsKnown : Kernel → Type 0
IsKnown k =
    KnownCpus k.next_pid k.available_cpus
    × KnownBlocked k.next_pid k.mts_queue
    × (k.total_processes_created ≡ k.next_pid)
    × IsNumbered 0 k.available_cpus

KnownCpus-le : (m n : ℕ) (cs : List CpuConnection) → m ≤ n → KnownCpus m cs → KnownCpus n cs
KnownCpus-le m n [] le h = tt
KnownCpus-le m n (c ∷ cs) le h = (λ p e. omega (arith, h.0 p e), KnownCpus-le m n cs le h.1)

KnownBlocked-le : (m n : ℕ) (bs : List Blocked) → m ≤ n → KnownBlocked m bs → KnownBlocked n bs
KnownBlocked-le m n [] le h = tt
KnownBlocked-le m n (b ∷ bs) le h = (omega arith, KnownBlocked-le m n bs le h.1)

pub KnownCpus-append :
    (n : ℕ) (c : CpuConnection) (cs : List CpuConnection)
    → c.process ≡ none
    → KnownCpus n cs
    → KnownCpus n (cs ++ c ∷ [])
KnownCpus-append n c [] idle h = (λ p e. absurd (cc), tt)
KnownCpus-append n c (d ∷ cs) idle h = (h.0, KnownCpus-append n c cs idle h.1)

KnownBlocked-append :
    (n : ℕ) (b : Blocked) (bs : List Blocked)
    → b.process < n
    → KnownBlocked n bs
    → KnownBlocked n (bs ++ b ∷ [])
KnownBlocked-append n b [] lt h = (lt, tt)
KnownBlocked-append n b (d ∷ bs) lt h = (h.0, KnownBlocked-append n b bs lt h.1)

KnownCpus-free : (n x : ℕ) (cs : List CpuConnection) → KnownCpus n cs → KnownCpus n (free_cpus x cs)
unfolding free_cpus
KnownCpus-free n x [] h = tt
KnownCpus-free n x (c ∷ cs) h = elim (Bool-cases (runs c.process x)) [
  | inl e ↦ rw e (λ p f. absurd (cc), KnownCpus-free n x cs h.1)
  | inr e ↦ rw e (h.0, KnownCpus-free n x cs h.1)
]

pub KnownCpus-assign :
    (n ref : ℕ) (o : Option ℕ) (cs : List CpuConnection)
    → ((p : ℕ) → o ≡ some p → p < n)
    → KnownCpus n cs
    → KnownCpus n (assign_cpu ref o cs)
KnownCpus-assign n ref o [] lt h = tt
KnownCpus-assign n ref o (c ∷ cs) lt h = elim (Bool-cases (c.ref == ref)) [
  | inl e ↦ rw e (lt, h.1)
  | inr e ↦ rw e (h.0, KnownCpus-assign n ref o cs lt h.1)
]

IsNumbered-free :
    (i x : ℕ) (cs : List CpuConnection) → IsNumbered i cs → IsNumbered i (free_cpus x cs)
unfolding free_cpus
IsNumbered-free i x [] h = tt
IsNumbered-free i x (c ∷ cs) h = elim (Bool-cases (runs c.process x)) [
  | inl e ↦ rw e (h.0, IsNumbered-free (i + 1) x cs h.1)
  | inr e ↦ rw e (h.0, IsNumbered-free (i + 1) x cs h.1)
]

pub IsNumbered-assign :
    (i ref : ℕ) (o : Option ℕ) (cs : List CpuConnection)
    → IsNumbered i cs
    → IsNumbered i (assign_cpu ref o cs)
IsNumbered-assign i ref o [] h = tt
IsNumbered-assign i ref o (c ∷ cs) h = elim (Bool-cases (c.ref == ref)) [
  | inl e ↦ rw e h
  | inr e ↦ rw e (h.0, IsNumbered-assign (i + 1) ref o cs h.1)
]

pub IsNumbered-append :
    (i : ℕ) (c : CpuConnection) (cs : List CpuConnection)
    → c.ref ≡ i + length cs
    → IsNumbered i cs
    → IsNumbered i (cs ++ c ∷ [])
IsNumbered-append i c [] e h = (omega (arith, e), tt)
IsNumbered-append i c (d ∷ cs) e h = (h.0, IsNumbered-append (i + 1) c cs (omega (arith, e)) h.1)

pub KnownBlocked-serve :
    (n : ℕ) (name : Text) (bs : List Blocked)
    → KnownBlocked n bs
    → KnownBlocked n (serve_waiting name bs).1
unfolding serve_waiting
KnownBlocked-serve n name [] h = tt
KnownBlocked-serve n name (b ∷ bs) h = ground (arith, KnownBlocked-serve n name bs h.1)

pub KnownBlocked-take :
    (n : ℕ) (name : Text) (pid : ℕ) (bs : List Blocked)
    → KnownBlocked n bs
    → KnownBlocked n (take_blocked name pid bs).1
unfolding take_blocked
KnownBlocked-take n name pid [] h = tt
KnownBlocked-take n name pid (b ∷ bs) h = ground (arith, KnownBlocked-take n name pid bs h.1)

pub KnownBlocked-drop :
    (n : ℕ) (name : Text) (bs : List Blocked)
    → KnownBlocked n bs
    → KnownBlocked n (drop_waiting name bs)
unfolding drop_waiting
KnownBlocked-drop n name [] h = tt
KnownBlocked-drop n name (b ∷ bs) h = ground (arith, KnownBlocked-drop n name bs h.1)

pub create_process-IsKnown :
    (c : KernelConfig) (now : ℕ) (path : Text) (size : ℤ) (k : Kernel)
    → IsKnown k
    → IsKnown (create_process c now path size k)
unfolding create_process enqueue
create_process-IsKnown c now path size k h = (
  KnownCpus-le k.next_pid (k.next_pid + 1) k.available_cpus (omega arith) h.0,
  KnownBlocked-le k.next_pid (k.next_pid + 1) k.mts_queue (omega arith) h.1,
  omega (arith, h.2),
  h.3,
)

pub free_cpu-IsKnown : (x : ℕ) (k : Kernel) → IsKnown k → IsKnown (free_cpu x k)
unfolding free_cpu
free_cpu-IsKnown x k h = (
  KnownCpus-free k.next_pid x k.available_cpus h.0,
  h.1,
  h.2,
  IsNumbered-free 0 x k.available_cpus h.3,
)

pub terminate-IsKnown : (k : Kernel) → IsKnown k → IsKnown (terminate_process k)
unfolding terminate_process
terminate-IsKnown k h = elim (Bool-cases (length (k.queue exit) == k.total_processes_created)) [
  | inl e ↦ rw (e, terminate_process) h
  | inr e ↦ rw (e, terminate_process) h
]

pub remove_blocked-IsKnown : (x : ℕ) (k : Kernel) → IsKnown k → IsKnown (remove_blocked_by_pid x k)
remove_blocked-IsKnown x k h = (h.0, KnownBlocked-remove k.next_pid x k.mts_queue h.1, h.2, h.3)

pub finish-IsKnown : (now x : ℕ) (k : Kernel) → IsKnown k → IsKnown (finish now x k)
unfolding enqueue remove_by_pid
finish-IsKnown now x k h =
    terminate-IsKnown (enqueue now exit x (remove_by_pid ((k.heap x).pcb.state) x k).1) h

block-IsKnown : (c : KernelConfig) (now x : ℕ) (k : Kernel) → IsKnown k → IsKnown (block c now x k)
unfolding enqueue remove_by_pid update_burst_estimation
block-IsKnown c now x k h = free_cpu-IsKnown x (remove_by_pid ((k.heap x).pcb.state) x k).1 h

-- A process that blocks waits in MTSQueue.
pub waiting-IsKnown :
    (c : KernelConfig) (now x : ℕ) (b : Blocked) (k : Kernel)
    → b.process < k.next_pid
    → IsKnown k
    → IsKnown (wait_for b (block c now x k))
unfolding enqueue remove_by_pid update_burst_estimation free_cpu
waiting-IsKnown c now x b k lt h =
    let known = block-IsKnown c now x k h in
    (known.0, KnownBlocked-append k.next_pid b k.mts_queue lt known.1, known.2, known.3)

-- What is done with the process that was taken out of a queue.
pub if_found-IsKnown :
    (s : State) (k : Kernel) (r : Option ℕ × Kernel) (f : ℕ → Kernel → Kernel)
    → Taken s k r
    → IsKnown r.1
    → ((x : ℕ) → x < k.next_pid → IsKnown (f x r.1))
    → IsKnown (if_found r f)
if_found-IsKnown s k (none, k') f t h keep = h
if_found-IsKnown s k (some p, k') f (nothing e q) h keep = absurd (cc)
if_found-IsKnown s k (some p, k') f (one x e lt at_s q) h keep =
    let same : p ≡ x = cc in rw same (keep x lt)
