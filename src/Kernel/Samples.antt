-- ===== src/Kernel/Samples.antt =====
-- A kernel with one process, in a state that is given, and runs of the handlers on it.
use tp_sisop_go_utn.Utils.Codeutils.{Instruction, Opcode}
use tp_sisop_go_utn.Kernel.Insertion.{by_insertion}
use tp_sisop_go_utn.Kernel.Shared.{tiempo_restante_de_rafaga, KernelConfig}
use tp_sisop_go_utn.Kernel.Queues.{sorted_queue, search_queue, estimated_burst}
use tp_sisop_go_utn.Kernel.Interrupts.{longest_cpu, get_cpu_with_longues_burst, sts_interrupt}
use tp_sisop_go_utn.Kernel.Preemption.{sts_interrupt-IsPlaced}
use tp_sisop_go_utn.Kernel.Devices.{
  first_waiting, drop_io, handle_io_disconnected, take_blocked, get_io, handle_io_finished,
}
use tp_sisop_go_utn.Kernel.Api.{has_io, handle_reason, recieve_syscall, interrupt, unstated}
use tp_sisop_go_utn.Kernel.Disconnections.{
  handle_io_disconnected_panics, handle_io_disconnected-IsPlaced,
}
use tp_sisop_go_utn.Base.Outcome.{panic, state_after}
use tp_sisop_go_utn.Kernel.Turns.{sts_dispatch-IsPlaced}
use tp_sisop_go_utn.Kernel.Scheduler.{sts_dispatch}
use tp_sisop_go_utn.Base.{
  ◌/◌, ◌<◌, pos, arith, ◌≡◌, count, ◌+◌, some, if◌then◌else◌, [], false, zero, refl, none, List,
  suc, ◌∷◌, ℕ, true,
}
use tp_sisop_go_utn.Utils.Strings.{eq_text}
use tp_sisop_go_utn.Kernel.SyscallsPlaced.{recieve_syscall-IsPlaced}
use tp_sisop_go_utn.Kernel.Times.{total_time-create, total_time}
use tp_sisop_go_utn.Kernel.DevicesPlaced.{handle_io_finished-IsPlaced}
use tp_sisop_go_utn.Kernel.Reports.{handle_reason-IsPlaced, handle_reason_loses}
use tp_sisop_go_utn.Utils.Strconv.{itoa}
use tp_sisop_go_utn.Kernel.Pcb.{
  susp_ready, create, set_states, zero_pcb, eq_state, State, exec, ready, blocked,
}
use tp_sisop_go_utn.Kernel.Placement.{places, IsPlaced}
use tp_sisop_go_utn.Kernel.State.{Blocked, IoConnection, Kernel, Process}
use mathlib.Core.Option.{some-injective}

abbrev pub estimates : KernelConfig
estimates = record {
  initial_estimate = 100;
  alpha_estimate = λ real previous. (real + previous + 1) / 2;
}

abbrev pub process_zero : State → Process
process_zero s = record {
  pcb = record (zero_pcb 0 []) { state = s };
  path = [];
  size = pos 8;
  start_time = 10;
  last_real_burst = 0;
  estimated_burst = 100;
  timer_running = false;
  in_memory = true;
}

abbrev only_in : State → State → List ℕ
only_in s t = if eq_state s t then 0 ∷ [] else []

abbrev printer : IoConnection
printer = record { name = 112 ∷ []; ip = 1 ∷ []; port = 2 ∷ []; disp = false }

abbrev waiting_for_printer : Blocked
waiting_for_printer = record {
  process = 0;
  name = 112 ∷ [];
  time = pos 5;
  working = true;
  dump_memory = false;
}

abbrev pub kernel_with : State → Kernel
kernel_with s = record {
  heap = λ p. process_zero s;
  queue = only_in s;
  available_ios = printer ∷ [];
  available_cpus =
      record { ref = 0; id = 49 ∷ []; ip = 1 ∷ []; port = pos 2; process = some 0 } ∷ [];
  mts_queue = waiting_for_printer ∷ [];
  next_pid = 1;
  total_processes_created = 1;
  closing = false;
}

pub kernel_with-IsPlaced : (s : State) → IsPlaced none (kernel_with s)
kernel_with-IsPlaced s = record { place = placed }
  where
    placed :
        (p : ℕ) (t : State) → count p ((kernel_with s).queue t) ≡ places none (kernel_with s) p t
    placed zero t = ground arith
    placed (suc p) t = ground arith

zero-known : (p : ℕ) → 0 ≡ p → p < 1
zero-known p e = omega arith

-- INIT_PROC of the code file "a", with a size of 8.
abbrev init_a : Instruction
init_a = record { opcode = Opcode.init_proc; args = (97 ∷ []) ∷ itoa 8 ∷ [] }

recieve_syscall-IsPlaced_example : IsPlaced none (
    state_after
      (kernel_with exec)
      (recieve_syscall estimates 20 (49 ∷ []) (itoa 7) (some init_a) (kernel_with exec)))
recieve_syscall-IsPlaced_example =
    recieve_syscall-IsPlaced estimates 20 (49 ∷ []) (itoa 7) (some init_a) (kernel_with exec)
      (λ p e. zero-known p (some-injective 0 p e), tt) (kernel_with-IsPlaced exec)

handle_reason-IsPlaced_example : IsPlaced none (
    state_after
      (kernel_with exec)
      (handle_reason estimates 20 0 (pos 7) interrupt (kernel_with exec)))
handle_reason-IsPlaced_example =
    handle_reason-IsPlaced estimates 20 0 7 interrupt (kernel_with exec) (λ e. absurd (cc))
      (kernel_with-IsPlaced exec)

handle_reason_loses_example :
    count 0 (
      (state_after
          (kernel_with exec)
          (handle_reason estimates 20 0 (pos 7) unstated (kernel_with exec))).queue
        exec)
    ≡ 0
handle_reason_loses_example =
    handle_reason_loses estimates 20 0 7 (kernel_with exec) exec (kernel_with-IsPlaced exec)
      (omega arith) refl

handle_io_finished-IsPlaced_example : IsPlaced none (
    state_after
      (kernel_with blocked)
      (handle_io_finished 20 (112 ∷ []) (1 ∷ []) (2 ∷ []) 0 (kernel_with blocked)))
handle_io_finished-IsPlaced_example =
    handle_io_finished-IsPlaced 20 (112 ∷ []) (1 ∷ []) (2 ∷ []) 0 (kernel_with blocked)
      (omega arith, tt) (kernel_with-IsPlaced blocked)

total_time-create_example :
    total_time (set_states ((5, ready) ∷ (9, exec) ∷ []) (create 2 0 [])).k_metrics.time_spent + 2
    ≡ 9
total_time-create_example =
    total_time-create 2 0 [] ((5, ready) ∷ (9, exec) ∷ []) (omega arith, (omega arith, tt))

abbrev pub idle : Kernel
idle = record (kernel_with ready) {
  available_cpus = record { ref = 0; id = 49 ∷ []; ip = 1 ∷ []; port = pos 2; process = none } ∷ [];
}

sts_dispatch-IsPlaced_example :
    IsPlaced none (sts_dispatch by_insertion estimated_burst true 20 idle)
sts_dispatch-IsPlaced_example =
    sts_dispatch-IsPlaced by_insertion estimated_burst true 20 idle
      (record { place = (kernel_with-IsPlaced ready).place })

handle_io_disconnected-IsPlaced_example : IsPlaced none (
    state_after
      (kernel_with blocked)
      (handle_io_disconnected 20 (112 ∷ []) (1 ∷ []) (2 ∷ []) 0 (kernel_with blocked)))
handle_io_disconnected-IsPlaced_example =
    handle_io_disconnected-IsPlaced 20 (112 ∷ []) (1 ∷ []) (2 ∷ []) 0 (kernel_with blocked)
      (omega arith, tt) (kernel_with-IsPlaced blocked)

-- Two suspended processes that are ready, and a device that nobody waits for.
abbrev two_suspended : Kernel
two_suspended = record (kernel_with susp_ready) {
  queue = λ s. if eq_state s susp_ready then 0 ∷ 1 ∷ [] else [];
  mts_queue = [];
  next_pid = 2;
}

handle_io_disconnected_panics_example :
    handle_io_disconnected 20 (112 ∷ []) (1 ∷ []) (2 ∷ []) 7 two_suspended ≡ panic
handle_io_disconnected_panics_example =
    handle_io_disconnected_panics 20 (112 ∷ []) (1 ∷ []) (2 ∷ []) 7 printer two_suspended
      (unfold get_io eq_text in refl) (unfold drop_io has_io eq_text in refl)
      (unfold take_blocked in refl) (unfold first_waiting in refl) (omega arith)

sts_interrupt-IsPlaced_example :
    IsPlaced none (search_queue by_insertion ready estimated_burst (kernel_with ready)).1
sts_interrupt-IsPlaced_example =
    sts_interrupt-IsPlaced by_insertion estimated_burst true true 20 (kernel_with ready)
      (search_queue by_insertion ready estimated_burst (kernel_with ready)).1
      (kernel_with-IsPlaced ready)
      (unfold sts_interrupt get_cpu_with_longues_burst longest_cpu search_queue sorted_queue
          tiempo_restante_de_rafaga in
        refl)
