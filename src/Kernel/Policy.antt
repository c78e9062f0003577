-- ===== src/Kernel/Policy.antt =====
-- The order in which the schedulers take processes: the sorting of kernel/queues/queues.go and the
-- turn of STS.
use tp_sisop_go_utn.Kernel.Known.{IsNumbered}
use mathlib.Core.Option.{some-injective}
use tp_sisop_go_utn.Base.{
  Option-cases, none, false, ◌++◌, ◌+◌, ◌==◌, Bool-cases, IsSorted, List, [], ap, arith, count,
  head?, inl, inr, refl, some, subst, sym, true, ℕ, ◌∙◌, ◌∷◌, ◌≡◌, ◌≤◌,
}
use tp_sisop_go_utn.Kernel.Moves.{placed_in, sorted_queue-count}
use tp_sisop_go_utn.Kernel.Pcb.{exec, ready, set_state}
use tp_sisop_go_utn.Kernel.Placement.{IsPlaced}
use tp_sisop_go_utn.Kernel.Queues.{
  int_key, SortBy, SortSlice, dequeue, enqueue, estimated_burst, if_found, no_sort, size, sort_key,
  sorted_queue,
}
use tp_sisop_go_utn.Kernel.Scheduler.{assign_cpu, send_to_execute, sts_dispatch}
use tp_sisop_go_utn.Kernel.Shared.{idle_cpu, get_available_cpu}
use tp_sisop_go_utn.Kernel.State.{CpuConnection, Kernel, state_of}

IsSorted-zero : (q : List ℕ) → IsSorted (λ p. 0) q
IsSorted-zero [] = tt
IsSorted-zero (x ∷ []) = tt
IsSorted-zero (x ∷ y ∷ q) = (omega arith, IsSorted-zero (y ∷ q))

sorted_queue-IsSorted :
    (lib : SortSlice) (by : SortBy) (k : Kernel) (q : List ℕ)
    → IsSorted (sort_key by k) (sorted_queue lib by k q)
unfolding sorted_queue
sorted_queue-IsSorted lib by k [] = tt
sorted_queue-IsSorted lib by k (p ∷ []) = tt
sorted_queue-IsSorted lib no_sort k (p ∷ q ∷ rest) = IsSorted-zero (p ∷ q ∷ rest)
sorted_queue-IsSorted lib size k (p ∷ q ∷ rest) = lib.sort_by-IsSorted _ (p ∷ q ∷ rest)
sorted_queue-IsSorted lib estimated_burst k (p ∷ q ∷ rest) = lib.sort_by-IsSorted _ (p ∷ q ∷ rest)

IsSorted-least :
    (key : ℕ → ℕ) (x y : ℕ) (q : List ℕ)
    → IsSorted key (x ∷ q)
    → 1 ≤ count y (x ∷ q)
    → key x ≤ key y
IsSorted-least key x y [] h c = ground arith
IsSorted-least key x y (z ∷ q) h c = elim (Bool-cases (x == y)) [
  | inl e ↦ ground (arith, e)
  | inr e ↦ omega (arith, IsSorted-least key z y q h.1 (ground (arith, e)), h.0)
]

abbrev pub NoneBelow : (ℕ → ℕ) → ℕ → List ℕ → Type 0
NoneBelow key n [] = Unit {0}
NoneBelow key n (x ∷ xs) = (n ≤ key x) × NoneBelow key n xs

NoneBelow-all :
    (key : ℕ → ℕ) (n : ℕ) (q : List ℕ) → ((y : ℕ) → 1 ≤ count y q → n ≤ key y) → NoneBelow key n q
NoneBelow-all key n [] least = tt
NoneBelow-all key n (x ∷ xs) least =
    (least x (ground arith), NoneBelow-all key n xs (λ y c. least y (ground arith)))

-- The process that is next in a queue: its first, or one that is no larger than any other, or one
-- whose estimate is no larger.
abbrev pub IsNext : SortBy → Kernel → List ℕ → ℕ → Type 0
IsNext no_sort k q p = head? q ≡ some p
IsNext size k q p =
    (1 ≤ count p q) × NoneBelow (λ r. int_key (k.heap r).size) (int_key (k.heap p).size) q
IsNext estimated_burst k q p =
    (1 ≤ count p q) × NoneBelow (λ r. (k.heap r).estimated_burst) (k.heap p).estimated_burst q

sorted_queue_first : (lib : SortSlice) (k : Kernel) (q : List ℕ) → sorted_queue lib no_sort k q ≡ q
unfolding sorted_queue
sorted_queue_first lib k [] = refl
sorted_queue_first lib k (p ∷ []) = refl
sorted_queue_first lib k (p ∷ q ∷ rest) = refl

sorted_queue_least :
    (lib : SortSlice) (by : SortBy) (k : Kernel) (p : ℕ) (q rest : List ℕ)
    → sorted_queue lib by k q ≡ p ∷ rest
    → (1 ≤ count p q) × NoneBelow (sort_key by k) (sort_key by k p) q
sorted_queue_least lib by k p q rest e = (
  ground (arith, sorted_queue-count lib by k q p, e),
  NoneBelow-all (sort_key by k) (sort_key by k p) q (λ y c.
      IsSorted-least (sort_key by k) p y rest
        (subst (IsSorted (sort_key by k)) e (sorted_queue-IsSorted lib by k q))
        (ground (arith, sorted_queue-count lib by k q y, e, c))),
)

sorted_queue-IsNext :
    (lib : SortSlice) (by : SortBy) (k : Kernel) (p : ℕ) (q rest : List ℕ)
    → sorted_queue lib by k q ≡ p ∷ rest
    → IsNext by k q p
sorted_queue-IsNext lib no_sort k p q rest e = ap head? (sym (sorted_queue_first lib k q) ∙ e)
sorted_queue-IsNext lib size k p q rest e = sorted_queue_least lib size k p q rest e
sorted_queue-IsNext lib estimated_burst k p q rest e =
    sorted_queue_least lib estimated_burst k p q rest e

-- The CPUs before, where `cpu` is idle and those in front of it are not, and after, where it has the
-- process and no other has changed.
pub record Assigned (cpu : CpuConnection) (p : ℕ) (cs ds : List CpuConnection) : Type 0 where
  pub front : List CpuConnection
  pub behind : List CpuConnection
  pub before : cs ≡ front ++ cpu ∷ behind
  pub after : ds ≡ front ++ (record cpu { process = some p }) ∷ behind
  pub idle : cpu.process ≡ none
  pub front_busy : idle_cpu front ≡ none

idle_cpu-ge :
    (i : ℕ) (cpu : CpuConnection) (cs : List CpuConnection)
    → IsNumbered i cs
    → idle_cpu cs ≡ some cpu
    → i ≤ cpu.ref
unfolding idle_cpu
idle_cpu-ge i cpu [] h e = absurd (cc)
idle_cpu-ge i cpu (c ∷ cs) h e = elim (Option-cases c.process) [
  | inl f ↦
      let same : c ≡ cpu = some-injective c cpu (rw (f, idle_cpu) at e) in
      omega (arith, h.0, ap (λ d. d.ref) same)
  | inr (p, f) ↦ omega (arith, idle_cpu-ge (i + 1) cpu cs h.1 (rw (f, idle_cpu) at e))
]

assign_cpu-Assigned :
    (i p : ℕ) (cpu : CpuConnection) (cs : List CpuConnection)
    → IsNumbered i cs
    → idle_cpu cs ≡ some cpu
    → Assigned cpu p cs (assign_cpu cpu.ref (some p) cs)
unfolding idle_cpu
assign_cpu-Assigned i p cpu [] h e = absurd (cc)
assign_cpu-Assigned i p cpu (c ∷ cs) h e = elim (Option-cases c.process) [
  | inl f ↦
      let same : c ≡ cpu = some-injective c cpu (rw (f, idle_cpu) at e) in
      subst (λ d. Assigned d p (c ∷ cs) (assign_cpu d.ref (some p) (c ∷ cs))) same
        (record {
          front = [];
          behind = cs;
          before = refl;
          after = ground arith;
          idle = f;
          front_busy = refl;
        })
  | inr (q, f) ↦
      let there = rw (f, idle_cpu) at e in
      let r = assign_cpu-Assigned (i + 1) p cpu cs h.1 there in
      let other : (c.ref == cpu.ref) ≡ false =
        ground (arith, h.0, idle_cpu-ge (i + 1) cpu cs h.1 there) in
      rw other (record {
        front = c ∷ r.front;
        behind = r.behind;
        before = ap (λ l. c ∷ l) r.before;
        after = ap (λ l. c ∷ l) r.after;
        idle = r.idle;
        front_busy = rw (f, idle_cpu) r.front_busy;
      })
]

-- What a turn of STS leads to: a process of READY is in EXEC, on the idle CPU and on no other that it
-- was not on before.
pub record Dispatched (by : SortBy) (cpu : CpuConnection) (k u : Kernel) : Type 0 where
  pub process : ℕ
  pub chosen : IsNext by k (k.queue ready) process
  pub executing : state_of u process ≡ exec
  pub on_cpu : Assigned cpu process k.available_cpus u.available_cpus

-- A turn of STS while a CPU is idle and takes the process, with every process in its place, every
-- connection pointed to by its place, and some process in READY, puts a process of READY in EXEC:
-- with SJF or SRT none of READY has a lower estimate, whatever order sort.Slice gives equal ones,
-- and with FIFO it is the first of READY. The first CPU that was idle has that process, and the
-- other connections are as they were.
pub sts_dispatch-Dispatched :
    (lib : SortSlice) (by : SortBy) (now : ℕ) (cpu : CpuConnection) (x : ℕ) (k : Kernel)
    → IsPlaced none k
    → IsNumbered 0 k.available_cpus
    → get_available_cpu k ≡ some cpu
    → 1 ≤ count x (k.queue ready)
    → Dispatched by cpu k (sts_dispatch lib by true now k)
unfolding sts_dispatch get_available_cpu dequeue send_to_execute enqueue set_state
sts_dispatch-Dispatched lib by now cpu x k h numbered idle waiting =
    rw (idle, sts_dispatch) (turn (sorted_queue lib by k (k.queue ready)) refl)
  where
    turn :
        (q : List ℕ)
        → sorted_queue lib by k (k.queue ready) ≡ q
        → Dispatched by cpu k
            (if_found (dequeue lib ready by k) (λ p k'. send_to_execute true now cpu.ref p k'))
    turn [] e = absurd (ground (arith, waiting, sorted_queue-count lib by k (k.queue ready) x, e))
    turn (p ∷ rest) e =
        let least = sorted_queue_least lib by k p (k.queue ready) rest e in
        let (lt, at_ready) = placed_in p ready k h least.0 in
        rw (e, if_found)
          (record {
            process = p;
            chosen = sorted_queue-IsNext lib by k p (k.queue ready) rest e;
            executing = rw at_ready (ground arith);
            on_cpu = rw at_ready (assign_cpu-Assigned 0 p cpu k.available_cpus numbered idle);
          })
