-- ===== src/Kernel/Reachable.antt =====
-- Every step of the kernel, in any order: the places of processes, and what CPUs and MTSQueue point
-- to.
use tp_sisop_go_utn.Base.{arith, none, refl, ℕ}
use tp_sisop_go_utn.Kernel.Api.{receive_cpu, recieve_syscall}
use tp_sisop_go_utn.Kernel.Devices.{handle_io_disconnected, handle_io_finished}
use tp_sisop_go_utn.Kernel.DevicesPlaced.{handle_io_finished-IsPlaced}
use tp_sisop_go_utn.Kernel.Disconnections.{handle_io_disconnected-IsPlaced}
use tp_sisop_go_utn.Kernel.Known.{create_process-IsKnown}
use tp_sisop_go_utn.Kernel.KnownDevices.{handle_io_disconnected-IsKnown, handle_io_finished-IsKnown}
use tp_sisop_go_utn.Kernel.KnownHandlers.{receive_cpu-IsKnown, recieve_syscall-IsKnown}
use tp_sisop_go_utn.Kernel.KnownSteps.{
  after_dump-IsKnown, lts_turn-IsKnown, mts_round-IsKnown, send_to_wait-IsKnown,
  start_timers-IsKnown, sts_dispatch-IsKnown, sts_interrupt-IsKnown,
}
use tp_sisop_go_utn.Kernel.Placement.{IsPlaced}
use tp_sisop_go_utn.Kernel.Preemption.{sts_interrupt-IsPlaced}
use tp_sisop_go_utn.Kernel.Preservation.{after_dump-IsPlaced, create_process-IsPlaced}
use tp_sisop_go_utn.Kernel.Queues.{SortSlice}
use tp_sisop_go_utn.Kernel.Requests.{
  io_disconnected_request, io_finished_request, receive_pid_pc_reason, recieve_io_request,
}
use tp_sisop_go_utn.Kernel.Shared.{KernelConfig}
use tp_sisop_go_utn.Kernel.Sound.{
  IsSound, cpu_results-IsSound, ended-IsSound, io_notify-IsSound, io_request-IsSound,
}
use tp_sisop_go_utn.Kernel.State.{Kernel, Process}
use tp_sisop_go_utn.Kernel.Steps.{
  Reach, Step, cpu_notify, cpu_results, dump_ends, first_process, here, io_disconnected,
  io_finished, io_notify, lts, mts, next, sts, sts_preempts, syscall, timer_ends, timers_start,
}
use tp_sisop_go_utn.Kernel.StepsPlaced.{
  lts_turn-IsPlaced, receive_cpu-IsPlaced, start_timers-IsPlaced,
}
use tp_sisop_go_utn.Kernel.SyscallsPlaced.{recieve_syscall-IsPlaced}
use tp_sisop_go_utn.Kernel.Turns.{mts_round-IsPlaced, send_to_wait-IsPlaced, sts_dispatch-IsPlaced}

Step-IsSound :
    (c : KernelConfig) (lib : SortSlice) (k : Kernel) {u : Kernel}
    → IsSound k
    → Step c lib k u
    → IsSound u
Step-IsSound c lib k h (first_process now path bytes) = record {
  placed = create_process-IsPlaced c now path bytes k h.placed;
  known = create_process-IsKnown c now path bytes k h.known;
}
Step-IsSound c lib k h (lts by accepted now) = record {
  placed = lts_turn-IsPlaced lib by accepted now k h.placed;
  known = lts_turn-IsKnown lib by accepted now k h.known;
}
Step-IsSound c lib k h (sts by taken now) = record {
  placed = sts_dispatch-IsPlaced lib by taken now k h.placed;
  known = sts_dispatch-IsKnown lib by taken now k h.placed h.known;
}
Step-IsSound c lib k {u} h (sts_preempts by answered taken now e) = record {
  placed = sts_interrupt-IsPlaced lib by answered taken now k u h.placed e;
  known = sts_interrupt-IsKnown lib by answered taken now k u h.placed h.known e;
}
Step-IsSound c lib k h timers_start = record {
  placed = start_timers-IsPlaced k.mts_queue k h.placed;
  known = start_timers-IsKnown k.mts_queue k h.known;
}
Step-IsSound c lib k h (mts by back now) = record {
  placed = mts_round-IsPlaced lib by back now k h.placed;
  known = mts_round-IsKnown lib by back now k h.known;
}
Step-IsSound c lib k h (timer_ends accepted now b) = record {
  placed = send_to_wait-IsPlaced accepted now b k h.placed;
  known = send_to_wait-IsKnown accepted now b k h.known;
}
Step-IsSound c lib k h (dump_ends success now p lt) = record {
  placed = after_dump-IsPlaced success now p k lt h.placed;
  known = after_dump-IsKnown success now p k h.known;
}
Step-IsSound c lib k {u} h (cpu_notify id ip port e) =
    ended-IsSound k u (receive_cpu id ip port k)
      (record {
        placed = receive_cpu-IsPlaced id ip port k h.placed;
        known = receive_cpu-IsKnown id ip port k h.known;
      })
      e
Step-IsSound c lib k {u} h (io_notify is_post ip port name e) =
    ended-IsSound k u (recieve_io_request is_post ip port name k)
      (io_notify-IsSound is_post ip port name k h) e
Step-IsSound c lib k {u} h (io_finished now is_post ip port name pid e) =
    ended-IsSound k u (io_finished_request now is_post ip port name pid k)
      (unfold io_finished_request in
        io_request-IsSound (handle_io_finished now) is_post ip port name pid k
          (λ n. record {
            placed = handle_io_finished-IsPlaced now name ip port n k h.known.1 h.placed;
            known = handle_io_finished-IsKnown now name ip port n k h.known;
          })
          h)
      e
Step-IsSound c lib k {u} h (io_disconnected now is_post ip port name pid e) =
    ended-IsSound k u (io_disconnected_request now is_post ip port name pid k)
      (unfold io_disconnected_request in
        io_request-IsSound (handle_io_disconnected now) is_post ip port name pid k
          (λ n. record {
            placed = handle_io_disconnected-IsPlaced now name ip port n k h.known.1 h.placed;
            known = handle_io_disconnected-IsKnown now name ip port n k h.known;
          })
          h)
      e
Step-IsSound c lib k {u} h (cpu_results now is_post pid pc reason n e) =
    ended-IsSound k u (receive_pid_pc_reason c now is_post pid pc reason k)
      (cpu_results-IsSound c now is_post pid pc reason k n h) e
Step-IsSound c lib k {u} h (syscall now cpu_id pc body e) =
    ended-IsSound k u (recieve_syscall c now cpu_id pc body k)
      (record {
        placed = recieve_syscall-IsPlaced c now cpu_id pc body k h.known.0 h.placed;
        known = recieve_syscall-IsKnown c now cpu_id pc body k h.known;
      })
      e

pub Reach-IsSound :
    (c : KernelConfig) (lib : SortSlice) (heap : ℕ → Process) {k : Kernel}
    → Reach c lib heap k
    → IsSound k
Reach-IsSound c lib heap here = record {
  placed = record { place = λ p s. ground arith };
  known = (tt, tt, refl, tt);
}
Reach-IsSound c lib heap (next {k} r st) = Step-IsSound c lib k (Reach-IsSound c lib heap r) st

-- Whatever order the kernel's handlers, schedulers and goroutines take turns in, from its start
-- on, as long as none panics and every CPU names the reason of its report: every process that was
-- created is once in the queue of its state, and in no other queue.
pub Reach-IsPlaced :
    (c : KernelConfig) (lib : SortSlice) (heap : ℕ → Process) (k : Kernel)
    → Reach c lib heap k
    → IsPlaced none k
Reach-IsPlaced c lib heap k r = (Reach-IsSound c lib heap r).placed
