-- ===== src/Kernel/Api.antt =====
-- kernel/api/kernel_api.go: what a CPU reports and asks for.
use tp_sisop_go_utn.Kernel.Queues.{if_found, enqueue, remove_by_pid}
use tp_sisop_go_utn.Kernel.State.{
  with_process, state_of, CpuConnection, IoConnection, Blocked, Kernel,
}
use tp_sisop_go_utn.Base.Outcome.{
  or_fail, throw, fail_if, get, crash, Outcome, done, modify, or_panic, pure, ◌>>=◌, ◌>>◌,
}
use tp_sisop_go_utn.Kernel.Pcb.{exec, blocked, ready, exit}
use tp_sisop_go_utn.Utils.Strconv.{atoi}
use tp_sisop_go_utn.Kernel.Shared.{
  free_cpu, create_process, remove_blocked_by_pid, update_burst_estimation, terminate_process,
  KernelConfig,
}
use tp_sisop_go_utn.Base.{
  length, pos, negsuc, false, some, Bool, [], List, get_elem?, ℤ, Option, none, ◌∷◌, not, ◌&&◌,
  true, ◌==◌, if◌then◌else◌, ◌||◌, ◌++◌, ℕ,
}
use tp_sisop_go_utn.Utils.Codeutils.{Opcode, Instruction}
use tp_sisop_go_utn.Utils.Strings.{eq_text, Text}

-- Why a handler refuses, one for each text.
pub data Refusal : Type 0 where
  invalid_port id_required pc_invalid no_process_on_cpu body_invalid opcode_not_recognised : Refusal
  io_not_found process_not_found method_not_allowed ip_required name_required : Refusal
  pid_required invalid_pid invalid_pc invalid_reason : Refusal

abbrev pub M : Type 0 → Type 0
M A = Kernel → Outcome Refusal Kernel A

-- ReceiveCPU. A CPU whose id is known is answered with a conflict, and is added all the same.
unfoldable pub receive_cpu : Text → Text → ℤ × Bool → M (Unit {0})
receive_cpu id ip (port, valid) = do
  fail_if (not valid) invalid_port
  modify (λ k. record k {
    available_cpus =
        k.available_cpus
        ++ (record { ref = length k.available_cpus; id = id; ip = ip; port = port; process = none })
          ∷ [];
  })

-- SetPC, through a process's pointer. A negative counter panics.
abbrev pub write_pc : ℕ → ℤ → M (Unit {0})
write_pc p (negsuc n) = crash
write_pc p (pos pc) = modify (with_process p (λ q. record q { pcb = record q.pcb { pc = pc } }))

-- The reasons that ReceivePidPcReason lets through.
pub data Reason : Type 0 where
  interrupt exits unstated : Reason

abbrev pub by_reason : Reason → ℕ → ℕ → Kernel → Kernel
by_reason interrupt now p k = enqueue now ready p k
by_reason exits now p k = terminate_process (enqueue now exit p k)
by_reason unstated now p k = k

abbrev pub with_removed : Option ℕ → (ℕ → M (Unit {0})) → M (Unit {0})
with_removed none f = pure tt
with_removed (some p) f = f p

-- HandleReason
unfoldable pub handle_reason : KernelConfig → ℕ → ℕ → ℤ → Reason → M (Unit {0})
handle_reason c now pid pc reason = do
  k ← get
  let (found, k') = remove_by_pid exec pid k
  modify (λ _. k')
  with_removed found λ p. do
    write_pc p pc
    modify (λ k. update_burst_estimation c now p (free_cpu p k))
    modify (by_reason reason now p)

-- The process of the CPU with this id.
unfoldable pub process_on : Text → List CpuConnection → Option ℕ
process_on id [] = none
process_on id (c ∷ cs) = if eq_text c.id id then c.process else process_on id cs

-- CreateBlocked
abbrev pub create_blocked : ℕ → Text → ℤ → Bool → Blocked
create_blocked p name time working = record {
  process = p;
  name = name;
  time = time;
  working = working;
  dump_memory = false;
}

-- The first device of this name that is free is taken; true says that there was one.
unfoldable pub take_io : Text → List IoConnection → List IoConnection × Bool
take_io name [] = ([], false)
take_io name (d ∷ ios) =
    let rest = take_io name ios in
    if eq_text d.name name && d.disp
    then (record d { disp = false } ∷ ios, true)
    else (d ∷ rest.0, rest.1)

unfoldable pub has_io : Text → List IoConnection → Bool
has_io name [] = false
has_io name (d ∷ ios) = eq_text d.name name || has_io name ios

-- The process leaves the CPU and waits in BLOCKED.
abbrev pub block : KernelConfig → ℕ → ℕ → Kernel → Kernel
block c now p k =
    enqueue now blocked p
      (update_burst_estimation c now p (free_cpu p (remove_by_pid (state_of k p) p k).1))

abbrev pub wait_for : Blocked → Kernel → Kernel
wait_for b k = record k {
  heap = λ q. if b.process == q then record (k.heap q) { timer_running = false } else k.heap q;
  mts_queue = k.mts_queue ++ b ∷ [];
}

-- A process ends, wherever it is.
abbrev pub finish : ℕ → ℕ → Kernel → Kernel
finish now p k = terminate_process (enqueue now exit p (remove_by_pid (state_of k p) p k).1)

-- The syscall IO. The request goes to the device that was taken, if there was one.
unfoldable pub syscall_io : KernelConfig → ℕ → ℕ → Text → ℤ → M (Unit {0})
unfolding take_io has_io
syscall_io c now p device time_ms k =
    if has_io device k.available_ios
    then (let (ios, taken) = take_io device k.available_ios in
        done tt (
          wait_for (create_blocked p device time_ms taken)
            (block c now p (record k { available_ios = ios }))))
    else done tt (finish now p k)

-- The syscall INIT_PROC. Atoi's error is dropped.
unfoldable pub syscall_init_proc : KernelConfig → ℕ → Text → ℤ → M (Unit {0})
syscall_init_proc c now code_path size = modify (create_process c now code_path size)

-- The syscall DUMP_MEMORY, up to the start of the goroutine.
unfoldable pub syscall_dump_memory : KernelConfig → ℕ → ℕ → M (Unit {0})
syscall_dump_memory c now p =
    modify (λ k. wait_for (create_blocked p [] (pos 0) true) (block c now p k))

-- The goroutine of DUMP_MEMORY, with what HandleDumpMemory returned.
unfoldable pub after_dump : Bool → ℕ → ℕ → Kernel → Kernel
after_dump success now p k = if_found (remove_by_pid (state_of k p) p k) λ q k'.
    if success
    then enqueue now ready p (remove_blocked_by_pid p k')
    else terminate_process (enqueue now exit p k')

-- The syscall EXIT. Enqueue panics if the process is in no queue.
unfoldable pub syscall_exit : ℕ → ℕ → M (Unit {0})
syscall_exit now p = do
  k ← get
  let (found, k') = remove_by_pid (state_of k p) p k
  q ← or_panic found
  modify (λ _. free_cpu q (terminate_process (enqueue now exit q k')))

-- The arguments of an instruction, by index; one that is missing panics.
abbrev pub argument : Instruction → ℕ → M Text
argument i n = or_panic (get_elem? i.args n)

unfoldable pub dispatch : KernelConfig → ℕ → ℕ → Instruction → Opcode → M (Unit {0})
dispatch c now p i Opcode.io = do
  device ← argument i 0
  time ← argument i 1
  syscall_io c now p device (atoi time).0
dispatch c now p i Opcode.init_proc = do
  code_path ← argument i 0
  size ← argument i 1
  syscall_init_proc c now code_path (atoi size).0
dispatch c now p i Opcode.dump_memory = syscall_dump_memory c now p
dispatch c now p i Opcode.exit = syscall_exit now p
dispatch c now p i _ = throw opcode_not_recognised

-- RecieveSyscall. `body` is the decoded instruction, if the JSON decodes.
unfoldable pub recieve_syscall : KernelConfig → ℕ → Text → Text → Option Instruction → M (Unit {0})
unfolding process_on
recieve_syscall c now cpu_id pc body = do
  fail_if (eq_text cpu_id []) id_required
  fail_if (not (atoi pc).1) pc_invalid
  k ← get
  p ← or_fail (process_on cpu_id k.available_cpus) no_process_on_cpu
  write_pc p (atoi pc).0
  i ← or_fail body body_invalid
  dispatch c now p i i.opcode
