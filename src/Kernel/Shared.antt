-- ===== src/Kernel/Shared.antt =====
-- kernel/shared and the helpers of kernel/globals. The channels that only wake a scheduler are left
-- out, and so are the log lines; what another program answers is an argument.
use tp_sisop_go_utn.Kernel.Pcb.{ready, exit, new, create}
use tp_sisop_go_utn.Kernel.Queues.{remove_by_pid, enqueue}
use tp_sisop_go_utn.Kernel.State.{with_process, Blocked, CpuConnection, Kernel, Process}
use tp_sisop_go_utn.Utils.Strings.{Text}
use tp_sisop_go_utn.Base.{
  ℤ, ltb, false, some, Bool, ◌-◌, [], List, Option, ◌+◌, none, ◌∷◌, length, true, ◌==◌,
  if◌then◌else◌, ℕ,
}

-- The fields of KernelConfig that count here. The float `alpha` comes with the arithmetic on it: what
-- ceil(alpha * real + (1 - alpha) * previous) is in float64, for these two.
pub record KernelConfig : Type 0 where
  pub initial_estimate : ℕ
  pub alpha_estimate : ℕ → ℕ → ℕ

-- CPUsNotConnected
unfoldable pub cpus_not_connected : Kernel → Bool
cpus_not_connected k = length k.available_cpus == 0

-- The first CPU without a process, by the loops of IsCPUAvailable and GetAvailableCPU.
unfoldable pub idle_cpu : List CpuConnection → Option CpuConnection
idle_cpu [] = none
idle_cpu (c ∷ cs) = elim c.process [ none ↦ some c | some p ↦ idle_cpu cs ]

-- IsCPUAvailable: also true while no CPU is connected.
unfoldable pub is_cpu_available : Kernel → Bool
unfolding idle_cpu
is_cpu_available k = elim (idle_cpu k.available_cpus) [
  | some c ↦ true
  | none ↦ length k.available_cpus == 0
]

-- GetAvailableCPU
unfoldable pub get_available_cpu : Kernel → Option CpuConnection
unfolding idle_cpu
get_available_cpu k = idle_cpu k.available_cpus

abbrev pub runs : Option ℕ → ℕ → Bool
runs none p = false
runs (some q) p = q == p

-- FreeCPU, over the list of CPUs.
unfoldable pub free_cpus : ℕ → List CpuConnection → List CpuConnection
free_cpus p [] = []
free_cpus p (c ∷ cs) =
    (if runs c.process p then record c { process = none } else c) ∷ free_cpus p cs

-- FreeCPU
unfoldable pub free_cpu : ℕ → Kernel → Kernel
unfolding free_cpus
free_cpu p k = record k { available_cpus = free_cpus p k.available_cpus }

-- ceil(alpha * realBurst + (1 - alpha) * previousEstimate)
abbrev pub new_estimate : KernelConfig → ℕ → ℕ → ℕ
new_estimate c real previous = c.alpha_estimate real previous

-- UpdateBurstEstimation
unfoldable pub update_burst_estimation : KernelConfig → ℕ → ℕ → Kernel → Kernel
update_burst_estimation c now p = with_process p (λ q. record q {
  last_real_burst = now - q.start_time;
  estimated_burst = new_estimate c (now - q.start_time) q.estimated_burst;
})

-- TiempoRestanteDeRafaga; the subtraction stops at 0, as the source's test has it.
unfoldable pub tiempo_restante_de_rafaga : ℕ → Process → ℕ
tiempo_restante_de_rafaga now p = p.estimated_burst - (now - p.start_time)

-- The loop of MayorTiempoRestanteDeRafaga and of MenorTiempoRestanteDeRafaga.
unfoldable pub mayor_loop : ℕ → Process → List Process → Process
mayor_loop now best [] = best
mayor_loop now best (p ∷ ps) =
    mayor_loop now
      (if ltb (tiempo_restante_de_rafaga now best) (tiempo_restante_de_rafaga now p)
        then p
        else best)
      ps

-- MayorTiempoRestanteDeRafaga
unfoldable pub mayor_tiempo_restante_de_rafaga : ℕ → List Process → Option Process
unfolding mayor_loop
mayor_tiempo_restante_de_rafaga now [] = none
mayor_tiempo_restante_de_rafaga now (p ∷ ps) = some (mayor_loop now p ps)

-- MenorTiempoRestanteDeRafaga, whose body is that of MayorTiempoRestanteDeRafaga.
unfoldable pub menor_tiempo_restante_de_rafaga : ℕ → List Process → Option Process
unfolding mayor_loop
menor_tiempo_restante_de_rafaga now [] = none
menor_tiempo_restante_de_rafaga now (p ∷ ps) = some (mayor_loop now p ps)

-- RemoveBlockedByPID
unfoldable pub remove_blocked : ℕ → List Blocked → List Blocked
remove_blocked pid [] = []
remove_blocked pid (b ∷ bs) = if b.process == pid then bs else b ∷ remove_blocked pid bs

abbrev pub remove_blocked_by_pid : ℕ → Kernel → Kernel
remove_blocked_by_pid pid k = record k { mts_queue = remove_blocked pid k.mts_queue }

-- newProcess, with getNextPID
abbrev pub new_process : KernelConfig → ℕ → Text → ℤ → ℕ → Process
new_process c now path size pid = record {
  pcb = create now pid path;
  path = path;
  size = size;
  start_time = 0;
  last_real_burst = 0;
  estimated_burst = c.initial_estimate;
  timer_running = false;
  in_memory = false;
}

-- The process that newProcess makes, before it is queued.
abbrev pub with_new : KernelConfig → ℕ → Text → ℤ → Kernel → Kernel
with_new c now path size k =
    with_process k.next_pid (λ q. new_process c now path size k.next_pid)
      (record k {
        next_pid = k.next_pid + 1;
        total_processes_created = k.total_processes_created + 1;
      })

-- CreateProcess, with HandleNewProcess: the process has its state NEW from Create, and again from
-- Enqueue.
unfoldable pub create_process : KernelConfig → ℕ → Text → ℤ → Kernel → Kernel
create_process c now path size k = enqueue now new k.next_pid (with_new c now path size k)

-- TryInititializeProcess, with the memory's answer to the creation.
unfoldable pub try_inititialize_process : Bool → ℕ → ℕ → Kernel → Bool × Kernel
try_inititialize_process accepted now p k =
    if accepted then (true, enqueue now ready p (remove_by_pid new p k).1) else (false, k)

-- TerminateProcess: the kernel closes once every process has ended. What the memory answers to the
-- deletion changes log lines only.
unfoldable pub terminate_process : Kernel → Kernel
terminate_process k =
    if length (k.queue exit) == k.total_processes_created then record k { closing = true } else k
