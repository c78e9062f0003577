-- ===== src/Cpu/Cycle.antt =====
-- cpu/cpu.go: the instruction cycle, the syscalls, and the two requests that the kernel sends. The
-- program counter stays below 2^63, since the memory has no instruction there.
use tp_sisop_go_utn.Cpu.State.{channel_full, ExecValues, Run, negative_address}
use tp_sisop_go_utn.Base.Outcome.{fail, ◌>>=◌, ◌>>◌, done, get, modify, pure, throw, or_panic}
use tp_sisop_go_utn.Base.{
  ◌∷◌, [], ◌==◌, ℕ, if◌then◌else◌, Bool, get_elem?, true, some, ◌+◌, ℤ, none, false, Option, suc,
  List, zero, pos, negsuc,
}
use tp_sisop_go_utn.Cpu.Address.{from_int_to_logical_addres}
use tp_sisop_go_utn.Cpu.Memory.{ask, MemoryProgram, Reply, answered, refused, unreachable}
use tp_sisop_go_utn.Cpu.Mmu.{read_memory, send_exit, write_memory}
use tp_sisop_go_utn.Utils.Codeutils.{
  Opcode, Instruction, noop, exit, write, read, goto, io, init_proc,
}
use tp_sisop_go_utn.Cpu.CacheAccess.{end_process}
use tp_sisop_go_utn.Utils.Strconv.{atoi}
use tp_sisop_go_utn.Utils.Strings.{Text}

-- The reasons of sendResults.
pub data Motivo : Type 0 where
  interrupted exited : Motivo

-- The status of the CPU's own handlers.
pub data Answer : Type 0 where
  accepted bad_request method_not_allowed : Answer

-- What else the CPU asks of other programs: an instruction of the memory, "syscall" of the kernel,
-- where true is a status 200, and the report of a result, whose reply is not read.
pub record Peers (S : Type 0) : Type 0 where
  pub process : ℕ → ℤ → S → Reply Instruction × S
  pub syscall : ℕ → ℤ → Instruction → S → Bool × S
  pub results : ℕ → ℤ → Motivo → S → S

abbrev pub succ : ℤ → ℤ
succ (pos n) = pos (n + 1)
succ (negsuc zero) = pos 0
succ (negsuc (suc n)) = negsuc n

abbrev pub not_negative : ℤ → Option ℕ
not_negative (pos n) = some n
not_negative (negsuc n) = none

module _ {S : Type 0} (program : MemoryProgram S) (peers : Peers S) where
  abbrev pub inc_pc : Run S (Unit {0})
  inc_pc = modify (λ c. record c { pc = succ c.pc })

  abbrev pub fetched_as : Reply Instruction → Run S Bool
  fetched_as (answered i) = do modify (λ c. record c { instruction = i; fetch = true }); pure true
  fetched_as refused = pure false
  fetched_as unreachable = pure false

  -- sendPidPcToMemory
  unfoldable pub send_pid_pc_to_memory : ℤ → ℕ → Run S Bool
  send_pid_pc_to_memory pc pid = do reply ← ask program (peers.process pid pc); fetched_as reply

  -- instruction.Args[i]
  abbrev pub arg : ℕ → List Text → Run S Text
  arg i args = or_panic (get_elem? args i)

  abbrev pub address_of : ℤ → Run S (List ℕ)
  address_of (negsuc n) = throw negative_address
  address_of (pos n) = do c ← get; or_panic (from_int_to_logical_addres c.memory_conf n)

  abbrev pub with_values : (ExecValues → ExecValues) → Run S (Unit {0})
  with_values f = modify (λ c. record c { exec_values = f c.exec_values })

  -- The cases of asign. The number of arguments is only logged, and Atoi's error too.
  unfoldable pub decode : Opcode → List Text → Run S (Unit {0})
  unfolding atoi
  decode write args = do
    a ← arg 0 args
    addr ← address_of (atoi a).0
    with_values (λ v. record v { addr = addr })
    b ← arg 1 args
    with_values (λ v. record v { value = b })
  decode read args = do
    a ← arg 0 args
    addr ← address_of (atoi a).0
    with_values (λ v. record v { addr = addr })
    b ← arg 1 args
    with_values (λ v. record v { arg1 = (atoi b).0 })
  decode goto args = do a ← arg 0 args; with_values (λ v. record v { arg1 = (atoi a).0 })
  decode io args = do
    b ← arg 1 args
    a ← arg 0 args
    with_values (λ v. record v { str = a; arg1 = (atoi b).0 })
  decode init_proc args = do
    b ← arg 1 args
    a ← arg 0 args
    with_values (λ v. record v { str = a; arg1 = (atoi b).0 })
  decode _ args = pure tt

  -- asign
  unfoldable pub asign : Run S (Unit {0})
  unfolding decode
  asign = do
    c ← get
    modify (λ t. record t { instruccion = some c.instruction.opcode })
    decode c.instruction.opcode c.instruction.args

  -- sendSyscall, and what its callers do with the reply: an answer of the kernel.
  unfoldable pub send_syscall : Run S Bool
  send_syscall c =
      let (ok, s) = peers.syscall c.pid c.pc c.instruction c.memory in
      done ok (record c { memory = s })

  -- sendIO and dumpMemory: -1 on every way.
  unfoldable pub send_io : Run S Bool
  unfolding end_process send_syscall
  send_io = do inc_pc; c ← get; end_process program c.pid; _ ← send_syscall; pure false

  unfoldable pub dump_memory : Run S Bool
  unfolding end_process send_syscall
  dump_memory = do inc_pc; c ← get; end_process program c.pid; _ ← send_syscall; pure false

  -- DeleteProcess
  unfoldable pub delete_process : ℕ → Run S Bool
  unfolding end_process send_exit
  delete_process pid = do end_process program pid; send_exit program; pure true

  -- initProcess
  unfoldable pub init_process : Run S Bool
  unfolding send_syscall
  init_process = send_syscall

  -- exec: false is the status -1, and true is 0.
  unfoldable pub exec_decoded : Option Opcode → Run S Bool
  unfolding write_memory read_memory send_io init_process dump_memory delete_process
  exec_decoded none = pure true
  exec_decoded (some noop) = do inc_pc; pure true
  exec_decoded (some write) = do
    c ← get
    ok ← write_memory program c.exec_values.addr c.exec_values.value
    inc_pc
    pure ok
  exec_decoded (some read) = do
    c ← get
    bytes ← read_memory program c.exec_values.addr c.exec_values.arg1
    inc_pc
    pure (elim bytes [ none ↦ false | some b ↦ true ])
  exec_decoded (some goto) = do modify (λ c. record c { pc = c.exec_values.arg1 }); pure true
  exec_decoded (some io) = send_io
  exec_decoded (some init_proc) = do ok ← init_process; inc_pc; pure ok
  exec_decoded (some Opcode.dump_memory) = dump_memory
  exec_decoded (some exit) = do c ← get; delete_process c.pid

  unfoldable pub exec : Run S Bool
  unfolding exec_decoded
  exec = do c ← get; (if c.fetch then exec_decoded c.instruccion else pure false)

  -- sendResults
  unfoldable pub send_results : Motivo → Run S (Unit {0})
  send_results motivo = modify (λ c. record c { memory = peers.results c.pid c.pc motivo c.memory })

  -- What `select` takes: where both channels have something, either may come first.
  abbrev pub signal : Bool → Bool → Bool → Option Motivo
  signal interrupt_first true true = some (if interrupt_first then interrupted else exited)
  signal interrupt_first true false = some interrupted
  signal interrupt_first false true = some exited
  signal interrupt_first false false = none

  -- The end of a round. The handler of the interrupt takes what FinishBeforeInterrupt gets.
  abbrev pub end_round : Bool → Option Motivo → Run S Bool
  end_round status none = pure status
  end_round status (some interrupted) = do
    modify (λ c. record c { interrupt_pending = false })
    send_results interrupted
    pure false
  end_round status (some exited) = do
    modify (λ c. record c { exit_pending = false })
    send_results exited
    pure false

  -- A round of the loop of ciclo: true where it goes on.
  unfoldable pub ciclo_round : Bool → Run S Bool
  unfolding send_pid_pc_to_memory asign exec send_results
  ciclo_round interrupt_first = do
    c ← get
    ok ← send_pid_pc_to_memory c.pc c.pid
    (if ok
        then (do
          asign
          status ← exec
          t ← get
          end_round status (signal interrupt_first t.interrupt_pending t.exit_pending))
        else pure true)

  -- The loop of ciclo for as many rounds as there are choices: true where it has not ended.
  unfoldable pub ciclo_rounds : List Bool → Run S Bool
  unfolding ciclo_round
  ciclo_rounds [] = pure true
  ciclo_rounds (first ∷ rest) = do
    go_on ← ciclo_round first
    (if go_on then ciclo_rounds rest else pure false)

  -- ciclo
  unfoldable pub ciclo : List Bool → Run S Bool
  unfolding ciclo_rounds
  ciclo choices = do
    modify (λ c. record c { fetch = false; instruccion = none })
    ciclo_rounds choices

  -- receivePIDPC, for a body that is JSON or not: what ciclo starts from.
  unfoldable pub receive_pidpc : Bool → Option (ℕ × ℤ) → Run S Answer
  receive_pidpc false body = pure method_not_allowed
  receive_pidpc true none = pure bad_request
  receive_pidpc true (some (pid, pc)) = do
    modify (λ c. record c { pid = pid; pc = pc })
    pure accepted

  -- `config.InterruptChan <- struct{}{}`, a channel with room for one.
  abbrev pub send_interrupt : Run S (Unit {0})
  send_interrupt c =
      if c.interrupt_pending
      then fail channel_full c
      else done tt (record c { interrupt_pending = true })

  abbrev pub is_pid : ℕ → ℤ × Bool → Bool
  is_pid pid (pos n, true) = n == pid
  is_pid pid _ = false

  -- interrupt, up to the wait for the cycle.
  unfoldable pub interrupt : Text → Run S Answer
  unfolding atoi
  interrupt data_ = do
    c ← get
    (if is_pid c.pid (atoi data_) then (do send_interrupt; pure accepted) else pure bad_request)
