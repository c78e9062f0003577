-- ===== src/Kernel/Stranded.antt =====
-- What the kernel loses sight of: the CPU of a process that asked for a device that is not there, and
-- the memory of a process that waits for its dump.
use tp_sisop_go_utn.Base.{arith, false, none, ℕ, ℤ, ◌<◌, ◌≡◌}
use tp_sisop_go_utn.Base.Outcome.{state_after, ◌>>=◌}
use tp_sisop_go_utn.Kernel.Api.{Reason, finish, handle_reason, has_io, syscall_io}
use tp_sisop_go_utn.Kernel.Pcb.{exec, exit, set_state}
use tp_sisop_go_utn.Kernel.Placement.{IsPlaced, count-find_pid-none}
use tp_sisop_go_utn.Kernel.Preservation.{finish-IsPlaced}
use tp_sisop_go_utn.Kernel.Queues.{enqueue, remove_by_pid}
use tp_sisop_go_utn.Kernel.Reports.{handle_reason_absent}
use tp_sisop_go_utn.Kernel.Shared.{KernelConfig, terminate_process}
use tp_sisop_go_utn.Kernel.State.{Kernel, state_of}
use tp_sisop_go_utn.Utils.Strings.{Text}

finish_ends :
    (now x : ℕ) (k : Kernel)
    → (state_of (finish now x k) x ≡ exit) × ((finish now x k).available_cpus ≡ k.available_cpus)
unfolding terminate_process enqueue remove_by_pid set_state
finish_ends now x k = ground arith

module _ (c : KernelConfig) (now : ℕ) (x : ℕ) (device : Text) (time : ℤ) (k : Kernel)
    (missing : has_io device k.available_ios ≡ false) (lt : x < k.next_pid)
    (h : IsPlaced none k) where
  -- The syscall IO for a device that no connection has, for a process that was created and with
  -- every process in its place before: the process is in EXIT, and neither that nor its CPU's
  -- report afterwards, whatever the counter and the reason, changes what the CPUs run.
  pub syscall_io_keeps_cpu :
      (later : ℕ) (pc : ℤ) (reason : Reason)
      → (state_of (state_after k (syscall_io c now x device time k)) x ≡ exit)
        × ((state_after k (
              (syscall_io c now x device time >>= λ _. handle_reason c later x pc reason)
                k)).available_cpus
            ≡ k.available_cpus)
  unfolding syscall_io remove_by_pid terminate_process
  syscall_io_keeps_cpu later pc reason =
      let (at_exit, same) = finish_ends now x k in
      let ended = finish now x k in
      let gone =
        count-find_pid-none x (ended.queue exec)
          (ground (arith, (finish-IsPlaced now x k lt h).place x exec, at_exit)) in
      rw (missing, syscall_io, ◌>>=◌)
        (at_exit, rw (handle_reason_absent c later x pc reason ended gone) same)
