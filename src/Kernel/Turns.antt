-- ===== src/Kernel/Turns.antt =====
-- The turns of the schedulers and the places of processes.
use tp_sisop_go_utn.Kernel.Moves.{
  with_process-IsPlaced, dequeue-Taken, remove_by_pid-Taken, if_found-IsPlaced,
}
use tp_sisop_go_utn.Kernel.Preservation.{next_pid-remove, remove_blocked-IsPlaced}
use tp_sisop_go_utn.Kernel.Scheduler.{
  suspend, bring_back, give_back, with_cpu, mts_round, send_to_execute, send_to_wait, sts_dispatch,
}
use tp_sisop_go_utn.Kernel.Shared.{remove_blocked_by_pid, get_available_cpu}
use tp_sisop_go_utn.Kernel.State.{with_process, state_of, Blocked, Kernel}
use tp_sisop_go_utn.Kernel.Pcb.{eq_state, State, ready, exec, blocked, susp_blocked, susp_ready}
use tp_sisop_go_utn.Kernel.Placement.{enqueue-IsPlaced, IsPlaced}
use tp_sisop_go_utn.Kernel.Queues.{enqueue, remove_by_pid, SortBy, SortSlice, dequeue}
use tp_sisop_go_utn.Base.{
  Bool, Bool-cases, ℕ, false, refl, Option-cases, inr, some, none, ◌<◌, inl, if◌then◌else◌, true,
  Option, ◌≡◌,
}

next_pid-dequeue :
    (lib : SortSlice) (s : State) (by : SortBy) (k : Kernel)
    → (dequeue lib s by k).1.next_pid ≡ k.next_pid
unfolding dequeue
next_pid-dequeue lib s by k = refl

with_cpu-IsPlaced :
    (moved : Option ℕ) (ref : ℕ) (c : Option ℕ) (k : Kernel)
    → IsPlaced moved k
    → IsPlaced moved (with_cpu ref c k)
with_cpu-IsPlaced none ref c k h = record { place = h.place }
with_cpu-IsPlaced (some y) ref c k h = record { place = h.place }

give_back-IsPlaced :
    (now x : ℕ) (ref : ℕ) (k : Kernel)
    → x < k.next_pid
    → IsPlaced none k
    → IsPlaced none (give_back now ref x k)
give_back-IsPlaced now x ref k lt h =
    if_found-IsPlaced (state_of k x) k r (λ q k'. with_cpu ref none (enqueue now ready q k'))
      (remove_by_pid-Taken (state_of k x) x k h)
      (λ y e l a p.
        with_cpu-IsPlaced none ref none (enqueue now ready y r.1)
          (enqueue-IsPlaced now ready y r.1 (rw (next_pid-remove (state_of k x) x k) l) p))
  where
    r : Option ℕ × Kernel
    r = remove_by_pid (state_of k x) x k

-- sendToExecute puts a process of READY that was taken out on the CPU, or back.
pub send_to_execute-IsPlaced :
    (taken : Bool) (now x : ℕ) (ref : ℕ) (k : Kernel)
    → x < k.next_pid
    → state_of k x ≡ ready
    → IsPlaced (some x) k
    → IsPlaced none (send_to_execute taken now ref x k)
unfolding send_to_execute
send_to_execute-IsPlaced taken now x ref k lt at_ready h =
    rw (at_ready, send_to_execute) (finish_turn taken)
  where
    queued : Kernel
    queued = with_cpu ref (some x) (enqueue now exec x k)

    running : Kernel
    running = with_process x (λ q. record q { start_time = now }) queued

    placed : IsPlaced none running
    placed =
        with_process-IsPlaced none x (λ q. record q { start_time = now }) queued (λ p. refl)
          (with_cpu-IsPlaced none ref (some x) (enqueue now exec x k)
            (enqueue-IsPlaced now exec x k lt h))

    finish_turn : (b : Bool) → IsPlaced none (if b then running else give_back now ref x running)
    finish_turn true = placed
    finish_turn false = give_back-IsPlaced now x ref running (unfold enqueue in lt) placed

-- A turn of STS with an idle CPU, whatever order sort.Slice gives equal keys and whether or not
-- the CPU takes the process, keeps every process once in the queue of its state and in no other.
pub sts_dispatch-IsPlaced :
    (lib : SortSlice) (by : SortBy) (taken : Bool) (now : ℕ) (k : Kernel)
    → IsPlaced none k
    → IsPlaced none (sts_dispatch lib by taken now k)
unfolding sts_dispatch
sts_dispatch-IsPlaced lib by taken now k h = elim (Option-cases (get_available_cpu k)) [
  | inl e ↦ rw (e, sts_dispatch) h
  | inr (cpu, e) ↦
      rw (e, sts_dispatch)
        (if_found-IsPlaced ready k (dequeue lib ready by k)
          (λ p k'. send_to_execute taken now cpu.ref p k') (dequeue-Taken lib ready by k h)
          (λ x f lt at_s p.
            send_to_execute-IsPlaced taken now x cpu.ref (dequeue lib ready by k).1
              (rw (next_pid-dequeue lib ready by k) lt) (unfold dequeue in at_s) p))
]

-- A round of MTS over SUSP_READY, whether or not the memory brings the process back, keeps every
-- process once in the queue of its state and in no other.
pub mts_round-IsPlaced :
    (lib : SortSlice) (by : SortBy) (brought_back : Bool) (now : ℕ) (k : Kernel)
    → IsPlaced none k
    → IsPlaced none (mts_round lib by brought_back now k)
unfolding mts_round
mts_round-IsPlaced lib by brought_back now k h =
    if_found-IsPlaced susp_ready k r (bring_back brought_back now)
      (dequeue-Taken lib susp_ready by k h)
      (λ x f lt at_s p. after x (rw (next_pid-dequeue lib susp_ready by k) lt) p brought_back)
  where
    r : Option ℕ × Kernel
    r = dequeue lib susp_ready by k

    after :
        (x : ℕ)
        → x < r.1.next_pid
        → IsPlaced (some x) r.1
        → (b : Bool) → IsPlaced none (bring_back b now x r.1)
    after x lt p true =
        enqueue-IsPlaced now ready x
          (remove_blocked_by_pid x (with_process x (λ q. record q { in_memory = true }) r.1)) lt
          (remove_blocked-IsPlaced (some x) x
            (with_process x (λ q. record q { in_memory = true }) r.1)
            (with_process-IsPlaced (some x) x (λ q. record q { in_memory = true }) r.1 (λ q. refl)
              p))
    after x lt p false = enqueue-IsPlaced now susp_ready x r.1 lt p

-- sendToWait, when its timer has run out, keeps every process once in the queue of its state and
-- in no other, whether or not the memory accepts the suspension.
pub send_to_wait-IsPlaced :
    (accepted : Bool) (now : ℕ) (b : Blocked) (k : Kernel)
    → IsPlaced none k
    → IsPlaced none (send_to_wait accepted now b k)
unfolding send_to_wait
send_to_wait-IsPlaced accepted now b k h =
    elim (Bool-cases (eq_state (state_of k b.process) blocked)) [
      | inr e ↦ rw (e, send_to_wait) h
      | inl e ↦
          rw (e, send_to_wait)
            (if_found-IsPlaced blocked k r (suspend accepted now)
              (remove_by_pid-Taken blocked b.process k h)
              (λ x f lt at_s p.
                with_process-IsPlaced none x
                  (λ q. record q { in_memory = if accepted then false else q.in_memory })
                  (with_process x (λ q. record q { timer_running = false })
                    (enqueue now susp_blocked x r.1))
                  (λ q. refl)
                  (with_process-IsPlaced none x (λ q. record q { timer_running = false })
                    (enqueue now susp_blocked x r.1) (λ q. refl)
                    (enqueue-IsPlaced now susp_blocked x r.1
                      (rw (next_pid-remove blocked b.process k) lt) p))))
    ]
  where
    r : Option ℕ × Kernel
    r = remove_by_pid blocked b.process k
