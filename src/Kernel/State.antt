-- ===== src/Kernel/State.antt =====
-- kernel/globals/globals.go: the variables that the kernel's packages share.
-- A process is named by its pid, which getNextPID hands out once: where the source compares or
-- stores a pointer to a Process, the model has the pid, and `heap` is what it points to.
use tp_sisop_go_utn.Kernel.Pcb.{eq_state, Pcb, State}
use tp_sisop_go_utn.Utils.Strings.{Text}
use tp_sisop_go_utn.Base.{Bool, ◌==◌, List, ℤ, if◌then◌else◌, ℕ, Option}

-- Process. Times are milliseconds.
pub record Process : Type 0 where
  pub pcb : Pcb
  pub path : Text
  pub size : ℤ
  pub start_time : ℕ
  pub last_real_burst : ℕ
  pub estimated_burst : ℕ
  pub timer_running : Bool
  pub in_memory : Bool

-- IOConnection. The channel `Handler` holds at most the request that is being handed over.
pub record IoConnection : Type 0 where
  pub name : Text
  pub ip : Text
  pub port : Text
  pub disp : Bool

-- Blocked
pub record Blocked : Type 0 where
  pub process : ℕ
  pub name : Text
  pub time : ℤ
  pub working : Bool
  pub dump_memory : Bool

-- CPUConnection. What points to one is its `ref`: the place in AvailableCPUs at which it was added,
-- since none is ever taken out.
pub record CpuConnection : Type 0 where
  pub ref : ℕ
  pub id : Text
  pub ip : Text
  pub port : ℤ
  pub process : Option ℕ

pub record Kernel : Type 0 where
  pub heap : ℕ → Process
  pub queue : State → List ℕ
  pub available_ios : List IoConnection
  pub available_cpus : List CpuConnection
  pub mts_queue : List Blocked
  pub next_pid : ℕ
  pub total_processes_created : ℕ
  pub closing : Bool

abbrev pub state_of : Kernel → ℕ → State
state_of k p = (k.heap p).pcb.state

-- A write through the pointer to a process.
abbrev pub with_process : ℕ → (Process → Process) → Kernel → Kernel
with_process p f k = record k { heap = λ q. if p == q then f (k.heap q) else k.heap q }

abbrev pub with_queue : State → (List ℕ → List ℕ) → Kernel → Kernel
with_queue s f k = record k { queue = λ t. if eq_state s t then f (k.queue t) else k.queue t }
