-- ===== src/Kernel/Steps.antt =====
-- The kernel as a whole: kernel.go's main starts a server with a route for each handler and one
-- goroutine for each scheduler, and these take turns in any order. A handler, and a turn of a
-- scheduler, is one step; one that panics is none.
use tp_sisop_go_utn.Base.Outcome.{done, fail, Outcome, panic}
use tp_sisop_go_utn.Base.{[], Bool, false, none, Option, some, ℕ, ℤ, ◌<◌, ◌≡◌, ◌≢◌}
use tp_sisop_go_utn.Kernel.Api.{after_dump, receive_cpu, recieve_syscall}
use tp_sisop_go_utn.Kernel.Interrupts.{sts_interrupt}
use tp_sisop_go_utn.Kernel.Queues.{SortBy, SortSlice}
use tp_sisop_go_utn.Kernel.Requests.{
  io_disconnected_request, io_finished_request, receive_pid_pc_reason, recieve_io_request,
}
use tp_sisop_go_utn.Kernel.Scheduler.{lts_turn, mts_round, send_to_wait, start_timers, sts_dispatch}
use tp_sisop_go_utn.Kernel.Shared.{create_process, KernelConfig}
use tp_sisop_go_utn.Kernel.State.{Blocked, Kernel, Process}
use tp_sisop_go_utn.Utils.Codeutils.{Instruction}
use tp_sisop_go_utn.Utils.Strings.{Text}

-- The variables of kernel/globals when the program starts. No pointer leads into the heap yet.
abbrev pub start : (ℕ → Process) → Kernel
start heap = record {
  heap = heap;
  queue = λ s. [];
  available_ios = [];
  available_cpus = [];
  mts_queue = [];
  next_pid = 0;
  total_processes_created = 0;
  closing = false;
}

-- The state that an operation ends in, if it does not panic.
abbrev pub end_of : {E S A : Type 0} → Outcome E S A → Option S
end_of (done a t) = some t
end_of (fail e t) = some t
end_of panic = none

pub data Step (c : KernelConfig) (lib : SortSlice) (k : Kernel) : Kernel → Type 0 where
  -- main, for the process that the command line names
  first_process :
      (now : ℕ) (path : Text) (size : ℤ) → Step c lib k (create_process c now path size k)
  -- LTS
  lts : (by : SortBy) (accepted : Bool) (now : ℕ) → Step c lib k (lts_turn lib by accepted now k)
  -- STS, with a CPU that is idle, and with none
  sts : (by : SortBy) (taken : Bool) (now : ℕ) → Step c lib k (sts_dispatch lib by taken now k)
  sts_preempts :
      (by : SortBy) (answered taken : Bool) (now : ℕ) {u : Kernel}
      → sts_interrupt lib by answered taken now k ≡ some u
      → Step c lib k u
  -- MTS: its timers, and a round of its loop over SUSP_READY
  timers_start : Step c lib k (start_timers k.mts_queue k)
  mts : (by : SortBy) (back : Bool) (now : ℕ) → Step c lib k (mts_round lib by back now k)
  -- the goroutine sendToWait, when its time is over
  timer_ends :
      (accepted : Bool) (now : ℕ) (b : Blocked) → Step c lib k (send_to_wait accepted now b k)
  -- the goroutine of DUMP_MEMORY, when the memory has answered
  dump_ends :
      (success : Bool) (now p : ℕ) → p < k.next_pid → Step c lib k (after_dump success now p k)
  -- /cpu-notify
  cpu_notify :
      (id ip : Text) (port : ℤ × Bool) {u : Kernel}
      → end_of (receive_cpu id ip port k) ≡ some u
      → Step c lib k u
  -- /io-notify
  io_notify :
      (is_post : Bool) (ip port name : Text) {u : Kernel}
      → end_of (recieve_io_request is_post ip port name k) ≡ some u
      → Step c lib k u
  -- /io-finished
  io_finished :
      (now : ℕ) (is_post : Bool) (ip port name pid : Text) {u : Kernel}
      → end_of (io_finished_request now is_post ip port name pid k) ≡ some u
      → Step c lib k u
  -- /io-disconnected
  io_disconnected :
      (now : ℕ) (is_post : Bool) (ip port name pid : Text) {u : Kernel}
      → end_of (io_disconnected_request now is_post ip port name pid k) ≡ some u
      → Step c lib k u
  -- /cpu-results, from a CPU that names its reason
  cpu_results :
      (now : ℕ) (is_post : Bool) (pid pc reason : Text) {u : Kernel}
      → reason ≢ []
      → end_of (receive_pid_pc_reason c now is_post pid pc reason k) ≡ some u
      → Step c lib k u
  -- /syscall
  syscall :
      (now : ℕ) (cpu_id pc : Text) (body : Option Instruction) {u : Kernel}
      → end_of (recieve_syscall c now cpu_id pc body k) ≡ some u
      → Step c lib k u

pub data Reach (c : KernelConfig) (lib : SortSlice) (heap : ℕ → Process) : Kernel → Type 0 where
  here : Reach c lib heap (start heap)
  next : {k u : Kernel} → Reach c lib heap k → Step c lib k u → Reach c lib heap u
