-- ===== src/Kernel/Preemption.antt =====
-- The interrupt branch of STS and the places of processes.
use tp_sisop_go_utn.Kernel.Moves.{search_queue-Taken, remove_by_pid-Taken, if_found-IsPlaced}
use tp_sisop_go_utn.Kernel.Preservation.{next_pid-remove}
use tp_sisop_go_utn.Kernel.Turns.{send_to_execute-IsPlaced}
use tp_sisop_go_utn.Kernel.Interrupts.{
  time_left, get_cpu_with_longues_burst, preempt, preempt_for, sts_interrupt,
}
use tp_sisop_go_utn.Kernel.Placement.{IsPlaced}
use tp_sisop_go_utn.Kernel.Scheduler.{send_to_execute}
use tp_sisop_go_utn.Kernel.Queues.{remove_by_pid, SortBy, if_found, SortSlice, search_queue}
use tp_sisop_go_utn.Kernel.Pcb.{ready}
use tp_sisop_go_utn.Kernel.State.{CpuConnection, Kernel}
use mathlib.Core.Option.{some-injective}
use tp_sisop_go_utn.Base.{
  arith, inl, Bool, ℕ, false, Option-cases, inr, ltb, subst, some, true, ◌&&◌, none, Option,
  if◌then◌else◌, ◌≡◌,
}

handed_over-IsPlaced :
    (taken : Bool) (now p : ℕ) (ref : ℕ) (k : Kernel)
    → IsPlaced none k
    → IsPlaced none (if_found (remove_by_pid ready p k) (send_to_execute taken now ref))
handed_over-IsPlaced taken now p ref k h =
    if_found-IsPlaced ready k (remove_by_pid ready p k) (send_to_execute taken now ref)
      (remove_by_pid-Taken ready p k h)
      (λ x f lt at_s q.
        send_to_execute-IsPlaced taken now x ref (remove_by_pid ready p k).1
          (rw (next_pid-remove ready p k) lt) (unfold remove_by_pid in at_s) q)

preempt-IsPlaced :
    (answered taken : Bool) (now p : ℕ) (cpu : CpuConnection) (k : Kernel)
    → IsPlaced none k
    → IsPlaced none (preempt answered taken now p cpu k)
preempt-IsPlaced answered taken now p cpu k h = elim (Option-cases cpu.process) [
  | inl e ↦ rw e h
  | inr (q, e) ↦ rw e (either (ltb (k.heap p).estimated_burst (time_left now k q) && answered))
]
  where
    either :
        (b : Bool)
        → IsPlaced none (
            if b then if_found (remove_by_pid ready p k) (send_to_execute taken now cpu.ref) else k)
    either true = handed_over-IsPlaced taken now p cpu.ref k h
    either false = h

preempt_for-IsPlaced :
    (answered taken : Bool) (now : ℕ) (r : Option ℕ × Kernel) (after : Kernel)
    → IsPlaced none r.1
    → preempt_for answered taken now r ≡ some after
    → IsPlaced none after
preempt_for-IsPlaced answered taken now (none, k) after h e =
    subst (λ t. IsPlaced none t) (some-injective k after e) h
preempt_for-IsPlaced answered taken now (some p, k) after h e =
    elim (Option-cases (get_cpu_with_longues_burst now k k.available_cpus)) [
      | inl f ↦ absurd (ground (arith, e, f))
      | inr (cpu, f) ↦
          subst (λ t. IsPlaced none t)
            (some-injective (preempt answered taken now p cpu k) after (rw (f, preempt_for) at e))
            (preempt-IsPlaced answered taken now p cpu k h)
    ]

-- The branch of STS that may interrupt a CPU, where it does not panic, keeps every process once in
-- the queue of its state and in no other, whatever order sort.Slice gives equal keys, and whether
-- or not the CPU answers the interrupt and takes the process.
pub sts_interrupt-IsPlaced :
    (lib : SortSlice) (by : SortBy) (answered taken : Bool) (now : ℕ) (k after : Kernel)
    → IsPlaced none k
    → sts_interrupt lib by answered taken now k ≡ some after
    → IsPlaced none after
unfolding sts_interrupt
sts_interrupt-IsPlaced lib by answered taken now k after h e =
    preempt_for-IsPlaced answered taken now (search_queue lib ready by k) after
      (search_queue-Taken lib ready by k h) e
