-- ===== src/Kernel/Runs.antt =====
-- A run of the whole kernel from its start, and of what it loses sight of.
use tp_sisop_go_utn.Base.{[], arith, none, pos, refl, some, true, ℕ, ◌++◌, ◌↔◌, ◌∷◌, ◌≡◌}
use tp_sisop_go_utn.Base.Outcome.{state_after, ◌>>=◌}
use tp_sisop_go_utn.Kernel.Api.{exits, finish, handle_reason, has_io, receive_cpu, syscall_io}
use tp_sisop_go_utn.Kernel.Closing.{AllExit, finish-closes}
use tp_sisop_go_utn.Kernel.Insertion.{by_insertion}
use tp_sisop_go_utn.Kernel.Interrupts.{get_cpu_with_longues_burst}
use tp_sisop_go_utn.Kernel.Longest.{Longest, get_cpu_with_longues_burst-Longest}
use tp_sisop_go_utn.Kernel.Pcb.{exec, exit, new, ready}
use tp_sisop_go_utn.Kernel.Placement.{IsPlaced}
use tp_sisop_go_utn.Kernel.Policy.{Dispatched, sts_dispatch-Dispatched}
use tp_sisop_go_utn.Kernel.Queues.{enqueue, estimated_burst, no_sort}
use tp_sisop_go_utn.Kernel.Reachable.{Reach-IsPlaced}
use tp_sisop_go_utn.Kernel.Samples.{
  estimates, idle, kernel_with, kernel_with-IsPlaced, process_zero,
}
use tp_sisop_go_utn.Kernel.Scheduler.{lts_turn, sts_dispatch}
use tp_sisop_go_utn.Kernel.Shared.{create_process, get_available_cpu, idle_cpu}
use tp_sisop_go_utn.Kernel.State.{Kernel, Process, state_of}
use tp_sisop_go_utn.Kernel.Steps.{Reach, cpu_notify, first_process, here, lts, next, start, sts}
use tp_sisop_go_utn.Kernel.Stranded.{syscall_io_keeps_cpu}
use tp_sisop_go_utn.Utils.Strings.{eq_text}

abbrev nowhere : ℕ → Process
nowhere p = process_zero new

abbrev created : Kernel
created = create_process estimates 5 [] (pos 8) (start nowhere)

abbrev connected : Kernel
connected = record created {
  available_cpus =
      created.available_cpus
      ++ (record { ref = 0; id = 49 ∷ []; ip = 1 ∷ []; port = pos 2; process = none }) ∷ [];
}

-- The first process, on a CPU.
abbrev running : Kernel
running = sts_dispatch by_insertion no_sort true 7 (lts_turn by_insertion no_sort true 6 connected)

run_created : Reach estimates by_insertion nowhere created
run_created = next here (first_process 5 [] (pos 8))

run : Reach estimates by_insertion nowhere running
unfolding create_process enqueue
run =
    next
      (next
        (next run_created (
          cpu_notify (49 ∷ []) (1 ∷ []) (pos 2, true) {u = connected} (unfold receive_cpu in refl)))
        (lts no_sort true 6))
      (sts no_sort true 7)

Reach-IsPlaced_example : IsPlaced none running
Reach-IsPlaced_example = Reach-IsPlaced estimates by_insertion nowhere running run

finish-closes_example :
    ((finish 9 0 created).closing ≡ true) ↔ AllExit created.next_pid (finish 9 0 created)
finish-closes_example =
    finish-closes estimates by_insertion nowhere created 9 0 run_created
      (unfold create_process enqueue in refl) (unfold create_process enqueue in omega arith)

syscall_io_keeps_cpu_example :
    (state_of
        (state_after (kernel_with exec) (syscall_io estimates 20 0 [] (pos 5) (kernel_with exec)))
        0
      ≡ exit)
    × ((state_after (kernel_with exec) (
          (syscall_io estimates 20 0 [] (pos 5) >>= λ _. handle_reason estimates 21 0 (pos 7) exits)
            (kernel_with exec))).available_cpus
        ≡ (kernel_with exec).available_cpus)
syscall_io_keeps_cpu_example =
    syscall_io_keeps_cpu estimates 20 0 [] (pos 5) (kernel_with exec)
      (unfold has_io eq_text in refl) (omega arith) (kernel_with-IsPlaced exec) 21 (pos 7) exits

sts_dispatch-Dispatched_example :
    Dispatched estimated_burst
      (record { ref = 0; id = 49 ∷ []; ip = 1 ∷ []; port = pos 2; process = none })
      idle
      (sts_dispatch by_insertion estimated_burst true 20 idle)
sts_dispatch-Dispatched_example =
    sts_dispatch-Dispatched by_insertion estimated_burst 20
      (record { ref = 0; id = 49 ∷ []; ip = 1 ∷ []; port = pos 2; process = none }) 0 idle
      (record { place = (kernel_with-IsPlaced ready).place }) (refl, tt)
      (unfold get_available_cpu idle_cpu in refl) (omega arith)

get_cpu_with_longues_burst-Longest_example :
    Longest 20
      (kernel_with exec)
      (kernel_with exec).available_cpus
      (get_cpu_with_longues_burst 20 (kernel_with exec) (kernel_with exec).available_cpus)
get_cpu_with_longues_burst-Longest_example =
    get_cpu_with_longues_burst-Longest 20 (kernel_with exec)
      (record { ref = 0; id = 49 ∷ []; ip = 1 ∷ []; port = pos 2; process = some 0 }) 0 [] refl
