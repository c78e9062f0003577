-- ===== src/Kernel/Scheduler.antt =====
-- kernel/scheduler/scheduler.go: one turn of each scheduler's loop, from where it is awake to where
-- it waits again. What the memory and the CPUs answer are arguments.
use tp_sisop_go_utn.Kernel.Queues.{
  if_found, enqueue, dequeue, search_queue, SortBy, remove_by_pid, SortSlice,
}
use tp_sisop_go_utn.Kernel.Shared.{
  remove_blocked_by_pid, try_inititialize_process, get_available_cpu,
}
use tp_sisop_go_utn.Kernel.State.{with_process, state_of, CpuConnection, Blocked, Kernel}
use tp_sisop_go_utn.Kernel.Pcb.{eq_state, exit, new, ready, exec, blocked, susp_blocked, susp_ready}
use tp_sisop_go_utn.Base.{
  ◌==◌, none, Bool, Option, not, true, if◌then◌else◌, ℕ, ◌&&◌, false, ◌∷◌, [], List, some,
}

-- `cpu.Process = …`, through the pointer to the connection.
abbrev pub assign_cpu : ℕ → Option ℕ → List CpuConnection → List CpuConnection
assign_cpu ref p [] = []
assign_cpu ref p (c ∷ cs) =
    if c.ref == ref then record c { process = p } ∷ cs else c ∷ assign_cpu ref p cs

abbrev pub with_cpu : ℕ → Option ℕ → Kernel → Kernel
with_cpu ref p k = record k { available_cpus = assign_cpu ref p k.available_cpus }

-- The CPU refused: the process goes back to READY.
abbrev pub give_back : ℕ → ℕ → ℕ → Kernel → Kernel
give_back now ref p k =
    if_found (remove_by_pid (state_of k p) p k) λ q k'. with_cpu ref none (enqueue now ready q k')

-- sendToExecute, with whether the CPU took the request.
unfoldable pub send_to_execute : Bool → ℕ → ℕ → ℕ → Kernel → Kernel
send_to_execute taken now ref p k =
    if eq_state (state_of k p) exit
    then k
    else let running =
        with_process p (λ q. record q { start_time = now })
          (with_cpu ref (some p) (enqueue now exec p k)) in
      if taken then running else give_back now ref p running

-- The turn of STS while a CPU is idle.
unfoldable pub sts_dispatch : SortSlice → SortBy → Bool → ℕ → Kernel → Kernel
sts_dispatch lib sort_by taken now k = elim (get_available_cpu k) [
  | none ↦ k
  | some cpu ↦ if_found (dequeue lib ready sort_by k) λ p k'. send_to_execute taken now cpu.ref p k'
]

-- The turn of LTS at the head of NEW, with the memory's answer.
unfoldable pub lts_turn : SortSlice → SortBy → Bool → ℕ → Kernel → Kernel
lts_turn lib sort_by accepted now k =
    if_found (search_queue lib new sort_by k) λ p k'. (try_inititialize_process accepted now p k').1

-- Unsuspend, with the memory's answer.
abbrev pub unsuspend : Bool → ℕ → Kernel → Kernel
unsuspend true p = with_process p (λ q. record q { in_memory = true })
unsuspend false p = λ k. k

-- RequestSuspend, with the memory's answer.
abbrev pub request_suspend : Bool → ℕ → Kernel → Kernel
request_suspend accepted p =
    with_process p (λ r. record r { in_memory = if accepted then false else r.in_memory })

abbrev pub bring_back : Bool → ℕ → ℕ → Kernel → Kernel
bring_back true now p k = enqueue now ready p (remove_blocked_by_pid p (unsuspend true p k))
bring_back false now p k = enqueue now susp_ready p (unsuspend false p k)

-- One round of the loop of MTS over SUSP_READY, with the memory's answer to `unsuspend`.
unfoldable pub mts_round : SortSlice → SortBy → Bool → ℕ → Kernel → Kernel
mts_round lib sort_by brought_back now k =
    if_found (dequeue lib susp_ready sort_by k) (bring_back brought_back now)

-- The loop of MTS that starts timers.
abbrev pub start_timer : Kernel → Blocked → Kernel
start_timer k b =
    if not (k.heap b.process).timer_running
      && (eq_state (state_of k b.process) blocked && not b.dump_memory)
    then with_process b.process (λ q. record q { timer_running = true }) k
    else k

unfoldable pub start_timers : List Blocked → Kernel → Kernel
start_timers [] k = k
start_timers (b ∷ bs) k = start_timers bs (start_timer k b)

abbrev pub suspend : Bool → ℕ → ℕ → Kernel → Kernel
suspend accepted now p k =
    request_suspend accepted p
      (with_process p (λ r. record r { timer_running = false }) (enqueue now susp_blocked p k))

-- sendToWait, when its timer has run out, with the memory's answer to `suspend`.
unfoldable pub send_to_wait : Bool → ℕ → Blocked → Kernel → Kernel
send_to_wait accepted now b k =
    if not (eq_state (state_of k b.process) blocked)
    then k
    else if_found (remove_by_pid blocked b.process k) (suspend accepted now)
