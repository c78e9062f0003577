-- ===== src/Kernel/SyscallsPlaced.antt =====
-- RecieveSyscall of kernel/api/kernel_api.go and the places of processes.
use tp_sisop_go_utn.Base.Outcome.{state_after}
use tp_sisop_go_utn.Kernel.Api.{recieve_syscall, syscall_exit, syscall_init_proc}
use tp_sisop_go_utn.Kernel.Placement.{
  remove_by_pid-IsPlaced, enqueue-IsPlaced, remove_by_pid-found, IsPlaced,
}
use tp_sisop_go_utn.Kernel.Preservation.{
  next_pid-remove, terminate-IsPlaced, free_cpu-IsPlaced, syscall_dump-IsPlaced,
  create_process-IsPlaced, syscall_io-IsPlaced,
}
use tp_sisop_go_utn.Kernel.Syscalls.{recieve_syscall-keeps, KnownCpus}
use tp_sisop_go_utn.Kernel.Queues.{enqueue, remove_by_pid}
use tp_sisop_go_utn.Kernel.Shared.{terminate_process, KernelConfig}
use tp_sisop_go_utn.Base.{◌<◌, none, ℤ, ℕ, Option, refl}
use tp_sisop_go_utn.Kernel.State.{state_of, Kernel}
use tp_sisop_go_utn.Kernel.Moves.{with_process-IsPlaced}
use tp_sisop_go_utn.Utils.Codeutils.{Instruction}
use tp_sisop_go_utn.Utils.Strings.{Text}
use tp_sisop_go_utn.Kernel.Pcb.{exit}

syscall_exit-IsPlaced :
    (now x : ℕ) (k : Kernel)
    → x < k.next_pid
    → IsPlaced none k
    → IsPlaced none (state_after k (syscall_exit now x k))
unfolding syscall_exit
syscall_exit-IsPlaced now x k lt h = rw (remove_by_pid-found x k lt h) (
    free_cpu-IsPlaced none x (terminate_process (enqueue now exit x k')) (
      terminate-IsPlaced (enqueue now exit x k') (
        enqueue-IsPlaced now exit x k' (rw (next_pid-remove (state_of k x) x k) lt)
          (remove_by_pid-IsPlaced x k lt h))))
  where
    k' : Kernel
    k' = (remove_by_pid (state_of k x) x k).1

syscall_init-IsPlaced :
    (c : KernelConfig) (now : ℕ) (path : Text) (size : ℤ) (k : Kernel)
    → IsPlaced none k
    → IsPlaced none (state_after k (syscall_init_proc c now path size k))
unfolding syscall_init_proc
syscall_init-IsPlaced c now path size k h = create_process-IsPlaced c now path size k h

-- RecieveSyscall, whatever the CPU asks for and however the request ends, keeps this: every
-- process that was created is once in the queue of its state, and in no other queue. It is assumed
-- before, and that the CPUs run processes that were created; after a panic the state before it
-- counts.
pub recieve_syscall-IsPlaced :
    (c : KernelConfig) (now : ℕ) (cpu_id pc : Text) (body : Option Instruction) (k : Kernel)
    → KnownCpus k.next_pid k.available_cpus
    → IsPlaced none k
    → IsPlaced none (state_after k (recieve_syscall c now cpu_id pc body k))
recieve_syscall-IsPlaced c now cpu_id pc body k known h =
    recieve_syscall-keeps c now (IsPlaced none) (syscall_io-IsPlaced c now)
      (syscall_init-IsPlaced c now) (syscall_dump-IsPlaced c now) (syscall_exit-IsPlaced now)
      (λ x n k.
        with_process-IsPlaced none x (λ q. record q { pcb = record q.pcb { pc = n } }) k
          (λ q. refl))
      cpu_id pc body k known h
