-- ===== src/Kernel/KnownHandlers.antt =====
-- The handlers of the CPUs: what CPUs and MTSQueue point to.
use tp_sisop_go_utn.Base.{
  arith, length, Bool, Bool-cases, Option, Option-cases, [], false, inl, inr, negsuc, none, pos,
  refl, some, true, ℕ, ℤ, ◌<◌,
}
use tp_sisop_go_utn.Base.Outcome.{modify, or_panic, state_after, ◌>>=◌}
use tp_sisop_go_utn.Kernel.Api.{
  Reason, by_reason, create_blocked, exits, handle_reason, has_io, interrupt, receive_cpu,
  recieve_syscall, syscall_dump_memory, syscall_exit, syscall_init_proc, syscall_io, take_io,
  unstated, with_removed, write_pc,
}
use tp_sisop_go_utn.Kernel.Known.{
  IsKnown, IsNumbered-append, KnownCpus-append, create_process-IsKnown, finish-IsKnown,
  free_cpu-IsKnown, terminate-IsKnown, waiting-IsKnown,
}
use tp_sisop_go_utn.Kernel.Pcb.{exec, exit}
use tp_sisop_go_utn.Kernel.Queues.{enqueue, find_pid, remove_by_pid}
use tp_sisop_go_utn.Kernel.Shared.{
  KernelConfig, free_cpu, terminate_process, update_burst_estimation,
}
use tp_sisop_go_utn.Kernel.State.{CpuConnection, Kernel, state_of, with_process}
use tp_sisop_go_utn.Kernel.Syscalls.{recieve_syscall-keeps}
use tp_sisop_go_utn.Utils.Codeutils.{Instruction}
use tp_sisop_go_utn.Utils.Strings.{Text}

syscall_io-IsKnown :
    (c : KernelConfig) (now x : ℕ) (device : Text) (time : ℤ) (k : Kernel)
    → x < k.next_pid
    → IsKnown k
    → IsKnown (state_after k (syscall_io c now x device time k))
unfolding syscall_io
syscall_io-IsKnown c now x device time k lt h = elim (Bool-cases (has_io device k.available_ios)) [
  | inl e ↦
      rw (e, syscall_io)
        (waiting-IsKnown c now x (create_blocked x device time (take_io device k.available_ios).1)
          (record k { available_ios = (take_io device k.available_ios).0 }) lt h)
  | inr e ↦ rw (e, syscall_io) (finish-IsKnown now x k h)
]

syscall_init-IsKnown :
    (c : KernelConfig) (now : ℕ) (path : Text) (size : ℤ) (k : Kernel)
    → IsKnown k
    → IsKnown (state_after k (syscall_init_proc c now path size k))
unfolding syscall_init_proc
syscall_init-IsKnown c now path size k h = create_process-IsKnown c now path size k h

syscall_dump-IsKnown :
    (c : KernelConfig) (now x : ℕ) (k : Kernel)
    → x < k.next_pid
    → IsKnown k
    → IsKnown (state_after k (syscall_dump_memory c now x k))
unfolding syscall_dump_memory
syscall_dump-IsKnown c now x k lt h =
    waiting-IsKnown c now x (create_blocked x [] (pos 0) true) k lt h

syscall_exit-IsKnown :
    (now x : ℕ) (k : Kernel)
    → x < k.next_pid
    → IsKnown k
    → IsKnown (state_after k (syscall_exit now x k))
unfolding syscall_exit remove_by_pid enqueue
syscall_exit-IsKnown now x k lt h = elim (Option-cases (find_pid x (k.queue (state_of k x)))) [
  | inl e ↦ rw (e, or_panic) h
  | inr (q, e) ↦
      let ended = enqueue now exit q (remove_by_pid (state_of k x) x k).1 in
      rw (e, or_panic) (free_cpu-IsKnown q (terminate_process ended) (terminate-IsKnown ended h))
]

pub recieve_syscall-IsKnown :
    (c : KernelConfig) (now : ℕ) (cpu_id pc : Text) (body : Option Instruction) (k : Kernel)
    → IsKnown k
    → IsKnown (state_after k (recieve_syscall c now cpu_id pc body k))
recieve_syscall-IsKnown c now cpu_id pc body k h =
    recieve_syscall-keeps c now IsKnown (syscall_io-IsKnown c now) (syscall_init-IsKnown c now)
      (syscall_dump-IsKnown c now) (syscall_exit-IsKnown now) (λ x n k h. h) cpu_id pc body k h.0 h

by_reason-IsKnown :
    (reason : Reason) (now x : ℕ) (k : Kernel) → IsKnown k → IsKnown (by_reason reason now x k)
unfolding enqueue
by_reason-IsKnown interrupt now x k h = h
by_reason-IsKnown exits now x k h = terminate-IsKnown (enqueue now exit x k) h
by_reason-IsKnown unstated now x k h = h

pub handle_reason-IsKnown :
    (c : KernelConfig) (now pid : ℕ) (pc : ℤ) (reason : Reason) (k : Kernel)
    → IsKnown k
    → IsKnown (state_after k (handle_reason c now pid pc reason k))
unfolding handle_reason remove_by_pid update_burst_estimation
handle_reason-IsKnown c now pid pc reason k h = reported (find_pid pid (k.queue exec)) pc
  where
    k' : Kernel
    k' = (remove_by_pid exec pid k).1

    reported :
        (o : Option ℕ) (n : ℤ)
        → IsKnown (
            state_after k (
              with_removed o
                (λ p. write_pc p n >>= λ _.
                  modify (λ k. update_burst_estimation c now p (free_cpu p k)) >>= λ _.
                  modify (by_reason reason now p))
                k'))
    reported none n = h
    reported (some p) (negsuc n) = h
    reported (some p) (pos n) =
        by_reason-IsKnown reason now p _ (
          free_cpu-IsKnown p (with_process p (λ q. record q { pcb = record q.pcb { pc = n } }) k')
            h)

pub receive_cpu-IsKnown :
    (id ip : Text) (port : ℤ × Bool) (k : Kernel)
    → IsKnown k
    → IsKnown (state_after k (receive_cpu id ip port k))
unfolding receive_cpu
receive_cpu-IsKnown id ip (port, true) k h =
    let c : CpuConnection = record {
      ref = length k.available_cpus;
      id = id;
      ip = ip;
      port = port;
      process = none;
    } in
    (
      KnownCpus-append k.next_pid c k.available_cpus refl h.0,
      h.1,
      h.2,
      IsNumbered-append 0 c k.available_cpus (omega arith) h.3,
    )
receive_cpu-IsKnown id ip (port, false) k h = h
