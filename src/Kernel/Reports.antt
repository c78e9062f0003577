-- ===== src/Kernel/Reports.antt =====
-- HandleReason of kernel/api/kernel_api.go and the places of processes.
use tp_sisop_go_utn.Kernel.Moves.{with_process-IsPlaced, remove_by_pid-Taken, nothing, one}
use tp_sisop_go_utn.Kernel.Placement.{
  remove_by_pid-IsPlaced, remove_by_pid-found, enqueue-IsPlaced, IsPlaced,
}
use tp_sisop_go_utn.Kernel.Preservation.{
  free_cpu-IsPlaced, next_pid-remove, update_burst-IsPlaced, terminate-IsPlaced,
}
use tp_sisop_go_utn.Kernel.Queues.{enqueue, remove_by_pid}
use tp_sisop_go_utn.Kernel.Api.{
  with_removed, by_reason, Reason, handle_reason, interrupt, exits, unstated,
}
use tp_sisop_go_utn.Kernel.Shared.{free_cpu, update_burst_estimation, KernelConfig}
use tp_sisop_go_utn.Base.{pos, arith, ℕ, ◌≡◌, ℤ, ◌<◌, count, refl, subst, ◌≢◌, none, some}
use tp_sisop_go_utn.Base.Outcome.{done, state_after}
use tp_sisop_go_utn.Kernel.State.{state_of, with_process, Kernel}
use tp_sisop_go_utn.Kernel.Pcb.{State, exit, ready, exec}

by_reason_taken :
    (reason : Reason) (now x : ℕ) (k : Kernel)
    → reason ≢ unstated
    → x < k.next_pid
    → IsPlaced (some x) k
    → IsPlaced none (by_reason reason now x k)
by_reason_taken interrupt now x k n lt h = enqueue-IsPlaced now ready x k lt h
by_reason_taken exits now x k n lt h =
    terminate-IsPlaced (enqueue now exit x k) (enqueue-IsPlaced now exit x k lt h)
by_reason_taken unstated now x k n lt h = absurd (n refl)

-- What HandleReason does with a process that it found.
abbrev reported : KernelConfig → ℕ → ℕ → ℕ → Reason → Kernel → Kernel
reported c now x pc reason k = by_reason reason now x (
    update_burst_estimation c now x
      (free_cpu x (with_process x (λ q. record q { pcb = record q.pcb { pc = pc } }) k)))

handle_reason_found :
    (c : KernelConfig) (now pid x pc : ℕ) (reason : Reason) (k : Kernel)
    → (remove_by_pid exec pid k).0 ≡ some x
    → handle_reason c now pid (pos pc) reason k
      ≡ done tt (reported c now x pc reason (remove_by_pid exec pid k).1)
unfolding handle_reason
handle_reason_found c now pid x pc reason k e = rw (e, with_removed) refl

pub handle_reason_absent :
    (c : KernelConfig) (now pid : ℕ) (pc : ℤ) (reason : Reason) (k : Kernel)
    → (remove_by_pid exec pid k).0 ≡ none
    → handle_reason c now pid pc reason k ≡ done tt (remove_by_pid exec pid k).1
unfolding handle_reason
handle_reason_absent c now pid pc reason k e = rw (e, with_removed) refl

reported-IsPlaced :
    (c : KernelConfig) (now x pc : ℕ) (reason : Reason) (k : Kernel)
    → reason ≢ unstated
    → x < k.next_pid
    → IsPlaced (some x) k
    → IsPlaced none (reported c now x pc reason k)
reported-IsPlaced c now x pc reason k n lt h =
    by_reason_taken reason now x k''' n (unfold update_burst_estimation free_cpu in lt) (
      update_burst-IsPlaced c now x (some x) k'' (
        free_cpu-IsPlaced (some x) x k' (
          with_process-IsPlaced (some x) x (λ q. record q { pcb = record q.pcb { pc = pc } }) k
            (λ q. refl) h)))
  where
    k' : Kernel
    k' = with_process x (λ q. record q { pcb = record q.pcb { pc = pc } }) k

    k'' : Kernel
    k'' = free_cpu x k'

    k''' : Kernel
    k''' = update_burst_estimation c now x k''

-- HandleReason with a reason that is not empty and a counter that is not negative keeps every
-- process once in the queue of its state and in no other, also when the pid is not in EXEC.
pub handle_reason-IsPlaced :
    (c : KernelConfig) (now pid pc : ℕ) (reason : Reason) (k : Kernel)
    → reason ≢ unstated
    → IsPlaced none k
    → IsPlaced none (state_after k (handle_reason c now pid (pos pc) reason k))
handle_reason-IsPlaced c now pid pc reason k n h = elim (remove_by_pid-Taken exec pid k h) [
  | nothing e p ↦ rw (handle_reason_absent c now pid (pos pc) reason k e) p
  | one x e lt at_s p ↦ rw (handle_reason_found c now pid x pc reason k e) (
      reported-IsPlaced c now x pc reason (remove_by_pid exec pid k).1 n
        (rw (next_pid-remove exec pid k) lt) p)
]

-- HandleReason with the empty reason, for a process in EXEC and with every process in its place
-- before, leaves that process in no queue.
pub handle_reason_loses :
    (c : KernelConfig) (now x pc : ℕ) (k : Kernel) (s : State)
    → IsPlaced none k
    → x < k.next_pid
    → state_of k x ≡ exec
    → count x ((state_after k (handle_reason c now x (pos pc) unstated k)).queue s) ≡ 0
handle_reason_loses c now x pc k s h lt at_exec =
    rw
      (handle_reason_found c now x x pc unstated k
        (subst (λ t. (remove_by_pid t x k).0 ≡ some x) at_exec (remove_by_pid-found x k lt h)))
      (lost (
        subst (λ t. IsPlaced (some x) (remove_by_pid t x k).1) at_exec
          (remove_by_pid-IsPlaced x k lt h)))
  where
    lost :
        IsPlaced (some x) (remove_by_pid exec x k).1
        → count x ((reported c now x pc unstated (remove_by_pid exec x k).1).queue s) ≡ 0
    lost p = unfold update_burst_estimation free_cpu in ground (arith, p.place x s)
