-- ===== src/Cpu/KeepingCycle.antt =====
-- The cycle of cpu/cpu.go: a round of it ends, and it serves an interrupt that is pending.
use tp_sisop_go_utn.Cpu.KeepingMmu.{Keeps-read_memory, Keeps-send_exit, Keeps-write_memory}
use tp_sisop_go_utn.Cpu.KeepingWrites.{Keeps-end_process}
use tp_sisop_go_utn.Cpu.Keeping.{
  Blind, Keeps, Keeps-bind, Keeps-get, Keeps-if, Keeps-or_panic, Keeps-pure, Keeps-throw,
}
use tp_sisop_go_utn.Cpu.Cycle.{
  address_of, arg, asign, decode, delete_process, dump_memory, exec, exec_decoded, inc_pc,
  init_process, Peers, send_io, send_syscall, with_values,
}
use tp_sisop_go_utn.Cpu.Memory.{MemoryProgram}
use tp_sisop_go_utn.Cpu.Address.{from_int_to_logical_addres, PaginationConfig}
use tp_sisop_go_utn.Cpu.State.{Cpu, ExecValues, negative_address}
use tp_sisop_go_utn.Utils.Codeutils.{exit, goto, init_proc, io, noop, Opcode, read, write}
use tp_sisop_go_utn.Utils.Strconv.{atoi}
use tp_sisop_go_utn.Utils.Strings.{Text}
use tp_sisop_go_utn.Base.Outcome.{modify, ◌>>=◌}
use tp_sisop_go_utn.Base.{
  ◌<◌, ◌≡◌, ap, arith, Bool, false, get_elem?, List, negsuc, none, Option, pos, refl, some, true, ℕ,
  ℤ,
}

-- What no instruction changes.
abbrev pub Fixed : Type 0
Fixed = PaginationConfig × ℕ × Bool

module _ {S : Type 0} (program : MemoryProgram S) (peers : Peers S) where
  abbrev pub fixed : Cpu S → Fixed
  fixed c = (c.memory_conf, c.pid, c.interrupt_pending)

  fixed-Blind : Blind fixed
  fixed-Blind = record {
    on_memory = λ c s. refl;
    on_tlb = λ c t n. refl;
    on_cache = λ c k. refl;
    on_exit = λ c b. refl;
  }

  module _ (v : Fixed) (pos_size : 0 < v.0.page_size) where
    positive : (c : Cpu S) → fixed c ≡ v → 0 < c.memory_conf.page_size
    positive c h = omega (arith, pos_size, ap (λ w. w.0.page_size) h)

    Keeps-inc_pc : Keeps fixed v (inc_pc program peers)
    Keeps-inc_pc = record { keeps = λ c h. h }

    Keeps-values : (f : ExecValues → ExecValues) → Keeps fixed v (with_values program peers f)
    Keeps-values f = record { keeps = λ c h. h }

    Keeps-arg : (i : ℕ) (args : List Text) → Keeps fixed v (arg program peers i args)
    Keeps-arg i args = Keeps-or_panic fixed v (get_elem? args i)

    Keeps-address_of : (n : ℤ) → Keeps fixed v (address_of program peers n)
    Keeps-address_of (negsuc n) = Keeps-throw fixed v negative_address (λ e. absurd (cc))
    Keeps-address_of (pos n) =
        Keeps-get fixed v λ c h. Keeps-or_panic fixed v (from_int_to_logical_addres c.memory_conf n)

    Keeps-decode : (o : Opcode) (args : List Text) → Keeps fixed v (decode program peers o args)
    unfolding decode
    Keeps-decode write args = Keeps-bind fixed v (Keeps-arg 0 args) λ a.
        Keeps-bind fixed v (Keeps-address_of (atoi a).0) λ addr.
          Keeps-bind fixed v (Keeps-values (λ w. record w { addr = addr })) λ u.
            Keeps-bind fixed v (Keeps-arg 1 args) λ b. Keeps-values (λ w. record w { value = b })
    Keeps-decode read args = Keeps-bind fixed v (Keeps-arg 0 args) λ a.
        Keeps-bind fixed v (Keeps-address_of (atoi a).0) λ addr.
          Keeps-bind fixed v (Keeps-values (λ w. record w { addr = addr })) λ u.
            Keeps-bind fixed v (Keeps-arg 1 args)
              λ b. Keeps-values (λ w. record w { arg1 = (atoi b).0 })
    Keeps-decode goto args =
        Keeps-bind fixed v (Keeps-arg 0 args)
          λ a. Keeps-values (λ w. record w { arg1 = (atoi a).0 })
    Keeps-decode io args = Keeps-bind fixed v (Keeps-arg 1 args) λ b.
        Keeps-bind fixed v (Keeps-arg 0 args)
          λ a. Keeps-values (λ w. record w { str = a; arg1 = (atoi b).0 })
    Keeps-decode init_proc args = Keeps-bind fixed v (Keeps-arg 1 args) λ b.
        Keeps-bind fixed v (Keeps-arg 0 args)
          λ a. Keeps-values (λ w. record w { str = a; arg1 = (atoi b).0 })
    Keeps-decode noop args = Keeps-pure fixed v tt
    Keeps-decode exit args = Keeps-pure fixed v tt
    Keeps-decode Opcode.dump_memory args = Keeps-pure fixed v tt

    Keeps-asign : Keeps fixed v (asign program peers)
    unfolding asign
    Keeps-asign = Keeps-get fixed v λ c h.
        Keeps-bind fixed v {m = modify (λ t. record t { instruccion = some c.instruction.opcode })}
          (record { keeps = λ t e. e }) λ u. Keeps-decode c.instruction.opcode c.instruction.args

    Keeps-syscall : Keeps fixed v (send_syscall program peers)
    unfolding send_syscall
    Keeps-syscall = record { keeps = λ c h. h }

    -- IO and DUMP_MEMORY.
    Keeps-blocking : Keeps fixed v (send_io program peers)
    unfolding send_io
    Keeps-blocking = Keeps-bind fixed v Keeps-inc_pc λ u. Keeps-get fixed v λ c h.
        Keeps-bind fixed v (Keeps-end_process fixed v program fixed-Blind positive c.pid)
          λ w. Keeps-bind fixed v Keeps-syscall λ ok. Keeps-pure fixed v false

    Keeps-dump : Keeps fixed v (dump_memory program peers)
    unfolding dump_memory
    Keeps-dump = Keeps-bind fixed v Keeps-inc_pc λ u. Keeps-get fixed v λ c h.
        Keeps-bind fixed v (Keeps-end_process fixed v program fixed-Blind positive c.pid)
          λ w. Keeps-bind fixed v Keeps-syscall λ ok. Keeps-pure fixed v false

    Keeps-delete : (pid : ℕ) → Keeps fixed v (delete_process program peers pid)
    unfolding delete_process
    Keeps-delete pid =
        Keeps-bind fixed v (Keeps-end_process fixed v program fixed-Blind positive pid) λ u.
          Keeps-bind fixed v (Keeps-send_exit fixed v program fixed-Blind positive)
            λ w. Keeps-pure fixed v true

    Keeps-decoded : (o : Option Opcode) → Keeps fixed v (exec_decoded program peers o)
    unfolding exec_decoded init_process
    Keeps-decoded none = Keeps-pure fixed v true
    Keeps-decoded (some noop) = Keeps-bind fixed v Keeps-inc_pc λ u. Keeps-pure fixed v true
    Keeps-decoded (some write) = Keeps-get fixed v λ c h.
        Keeps-bind fixed v
          (Keeps-write_memory fixed v program fixed-Blind positive c.exec_values.addr
            c.exec_values.value)
          λ ok. Keeps-bind fixed v Keeps-inc_pc λ u. Keeps-pure fixed v ok
    Keeps-decoded (some read) = Keeps-get fixed v λ c h.
        Keeps-bind fixed v
          (Keeps-read_memory fixed v program fixed-Blind positive c.exec_values.addr
            c.exec_values.arg1)
          λ bytes.
            Keeps-bind fixed v Keeps-inc_pc
              λ u. Keeps-pure fixed v (elim bytes [ none ↦ false | some b ↦ true ])
    Keeps-decoded (some goto) = record { keeps = λ c h. h }
    Keeps-decoded (some io) = Keeps-blocking
    Keeps-decoded (some init_proc) =
        Keeps-bind fixed v Keeps-syscall
          λ ok. Keeps-bind fixed v Keeps-inc_pc λ u. Keeps-pure fixed v ok
    Keeps-decoded (some Opcode.dump_memory) = Keeps-dump
    Keeps-decoded (some exit) = Keeps-get fixed v λ c h. Keeps-delete c.pid

    Keeps-exec : Keeps fixed v (exec program peers)
    unfolding exec
    Keeps-exec =
        Keeps-get fixed v
          λ c h. Keeps-if fixed v c.fetch (Keeps-decoded c.instruccion) (Keeps-pure fixed v false)

    pub Keeps-step : Keeps fixed v (asign program peers >>= λ u. exec program peers)
    Keeps-step = Keeps-bind fixed v Keeps-asign λ u. Keeps-exec
