-- ===== src/Kernel/Interrupts.antt =====
-- kernel/scheduler/scheduler.go: the branch of STS that interrupts a CPU.
use tp_sisop_go_utn.Kernel.Scheduler.{send_to_execute}
use tp_sisop_go_utn.Kernel.Queues.{remove_by_pid, search_queue, SortBy, if_found, SortSlice}
use tp_sisop_go_utn.Kernel.Shared.{tiempo_restante_de_rafaga}
use tp_sisop_go_utn.Kernel.State.{CpuConnection, Kernel}
use tp_sisop_go_utn.Base.{
  false, [], true, ◌&&◌, Option, ltb, some, none, ℕ, ◌∷◌, if◌then◌else◌, Bool, List,
}
use tp_sisop_go_utn.Kernel.Pcb.{ready}

-- The algorithms that STS accepts: "FIFO", "SJF" and "SRT".
pub data Algorithm : Type 0 where
  fifo sjf srt : Algorithm

-- ShouldTryInterrupt
unfoldable pub should_try_interrupt : Algorithm → Bool
should_try_interrupt srt = true
should_try_interrupt _ = false

abbrev pub time_left : ℕ → Kernel → ℕ → ℕ
time_left now k p = tiempo_restante_de_rafaga now (k.heap p)

-- One round of the loop of GetCPUWithLonguesBurst. A CPU that is busy is compared with the best so
-- far, and where that one has no process, `none` is the panic.
abbrev pub longer_cpu : ℕ → Kernel → CpuConnection → CpuConnection → Option CpuConnection
longer_cpu now k best cpu = elim cpu.process [
  | none ↦ some best
  | some p ↦ elim best.process [
    | none ↦ none
    | some q ↦ some (if ltb (time_left now k q) (time_left now k p) then cpu else best)
  ]
]

unfoldable pub longest_cpu : ℕ → Kernel → CpuConnection → List CpuConnection → Option CpuConnection
longest_cpu now k best [] = some best
longest_cpu now k best (cpu ∷ cpus) = elim (longer_cpu now k best cpu) [
  | none ↦ none
  | some next ↦ longest_cpu now k next cpus
]

-- GetCPUWithLonguesBurst. No CPU at all is an index out of range.
unfoldable pub get_cpu_with_longues_burst : ℕ → Kernel → List CpuConnection → Option CpuConnection
unfolding longest_cpu
get_cpu_with_longues_burst now k [] = none
get_cpu_with_longues_burst now k (cpu ∷ cpus) = longest_cpu now k cpu (cpu ∷ cpus)

-- The process `p` of READY against the one that the CPU runs. Where the CPU does not answer the
-- interrupt, STS ends.
abbrev pub preempt : Bool → Bool → ℕ → ℕ → CpuConnection → Kernel → Kernel
preempt answered taken now p cpu k = elim cpu.process [
  | none ↦ k
  | some q ↦
      if ltb (k.heap p).estimated_burst (time_left now k q) && answered
      then if_found (remove_by_pid ready p k) (send_to_execute taken now cpu.ref)
      else k
]

abbrev pub preempt_for : Bool → Bool → ℕ → Option ℕ × Kernel → Option Kernel
preempt_for answered taken now (none, k) = some k
preempt_for answered taken now (some p, k) =
    elim (get_cpu_with_longues_burst now k k.available_cpus) [
      | none ↦ none
      | some cpu ↦ some (preempt answered taken now p cpu k)
    ]

-- The branch of STS behind ShouldTryInterrupt; `none` is a panic.
unfoldable pub sts_interrupt : SortSlice → SortBy → Bool → Bool → ℕ → Kernel → Option Kernel
unfolding get_cpu_with_longues_burst
sts_interrupt lib sort_by answered taken now k =
    preempt_for answered taken now (search_queue lib ready sort_by k)
