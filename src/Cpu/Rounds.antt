-- ===== src/Cpu/Rounds.antt =====
-- Rounds of the instruction cycle of cpu/cpu.go: a WRITE from its fetch to the memory program, and
-- a cycle whose instruction does not arrive.
use tp_sisop_go_utn.Cpu.Cycle.{
  asign, ciclo_round, decode, end_round, exec, exec_decoded, interrupted, Peers,
  send_pid_pc_to_memory, send_results, signal, succ,
}
use tp_sisop_go_utn.Cpu.DirectAccess.{Stores, write_memory-Stores}
use tp_sisop_go_utn.Cpu.Memory.{answered, MemoryProgram}
use tp_sisop_go_utn.Cpu.Serving.{Agrees, Serves}
use tp_sisop_go_utn.Cpu.State.{Cpu}
use tp_sisop_go_utn.Cpu.Address.{from_int_to_logical_addres}
use tp_sisop_go_utn.Cpu.Buffers.{overlay}
use tp_sisop_go_utn.Cpu.Mmu.{write_memory}
use tp_sisop_go_utn.Utils.Codeutils.{write}
use tp_sisop_go_utn.Utils.Strconv.{atoi}
use tp_sisop_go_utn.Utils.Strings.{Text}
use tp_sisop_go_utn.Base.Outcome.{done}
use tp_sisop_go_utn.Base.{
  ◌++◌, ◌+◌, ◌≡◌, ◌≤◌, ◌∙◌, ◌∷◌, ap, arith, Bool, false, length, List, Option, pos, refl, some,
  subst, sym, true, ℕ, ℤ, [],
}

-- A program that fetches instructions without a change to the memory's tables.
abbrev pub FetchKeeps :
    {S : Type 0} → Peers S → (S → ℕ → List ℕ → Option ℕ) → (S → ℕ → ℕ → Option (List ℕ)) → Type 0
FetchKeeps {S} peers frame_of page_of =
    (pid : ℕ) (pc : ℤ) (s : S)
    → (frame_of (peers.process pid pc s).1 ≡ frame_of s)
      × (page_of (peers.process pid pc s).1 ≡ page_of s)

module _ {S : Type 0} (program : MemoryProgram S) (peers : Peers S) where
  -- The variables after a fetch and the decoding of WRITE.
  abbrev pub decoded_write : Text → Text → List ℕ → Cpu S → Cpu S
  decoded_write a value addr c = record c {
    memory = (peers.process c.pid c.pc c.memory).1;
    instruction = record { opcode = write; args = a ∷ value ∷ [] };
    fetch = true;
    instruccion = some write;
    exec_values = record c.exec_values { addr = addr; value = value };
  }

  round_of_write :
      (first ok : Bool) (a value : Text) (n : ℕ) (addr : List ℕ) (c t : Cpu S)
      → (peers.process c.pid c.pc c.memory).0
        ≡ answered (record { opcode = write; args = a ∷ value ∷ [] })
      → (atoi a).0 ≡ pos n
      → from_int_to_logical_addres c.memory_conf n ≡ some addr
      → write_memory program addr value (decoded_write a value addr c) ≡ done ok t
      → ciclo_round program peers first c ≡ (
          let u = record t { pc = succ t.pc } in
          end_round program peers ok
            (signal program peers first u.interrupt_pending u.exit_pending)
            u)
  unfolding ciclo_round send_pid_pc_to_memory asign decode exec exec_decoded
  round_of_write first ok a value n addr c t fetched address addressed wrote = ground arith

  module _ (frame_of : S → ℕ → List ℕ → Option ℕ) (page_of : S → ℕ → ℕ → Option (List ℕ))
      (serves : Serves program frame_of page_of) (keeps : FetchKeeps peers frame_of page_of)
      (first : Bool) (a value : Text) (n delta frame : ℕ) (base old : List ℕ) (c : Cpu S)
      (fetched : (peers.process c.pid c.pc c.memory).0
        ≡ answered (record { opcode = write; args = a ∷ value ∷ [] }))
      (address : (atoi a).0 ≡ pos n)
      (addressed : from_int_to_logical_addres c.memory_conf n ≡ some (base ++ delta ∷ []))
      (agrees : Agrees (frame_of c.memory) c.tlb.entries) (no_cache : c.cache_enable ≡ false)
      (mapped : frame_of c.memory c.pid base ≡ some frame)
      (has : page_of c.memory c.pid frame ≡ some old) (whole : length old ≡ c.memory_conf.page_size)
      (inside : length value + delta ≤ c.memory_conf.page_size) where
    start : Cpu S
    start = decoded_write a value (base ++ delta ∷ []) c

    written :
        (t : Cpu S) × (write_memory program (base ++ delta ∷ []) value start ≡ done true t)
        × Stores program frame_of page_of serves start t c.pid frame (overlay delta value old)
    unfolding start
    written =
        let k = keeps c.pid c.pc c.memory in
        write_memory-Stores program frame_of page_of serves base delta frame value old start
          (subst (λ f. Agrees f c.tlb.entries) (sym k.0) agrees) no_cache
          (ap (λ f. f c.pid base) k.0 ∙ mapped) (ap (λ f. f c.pid frame) k.1 ∙ has) whole inside

    -- The variables behind the instruction.
    executed : Cpu S
    executed = record written.0 { pc = succ written.0.pc }

    ended :
        ciclo_round program peers first c
        ≡ end_round program peers true
            (signal program peers first executed.interrupt_pending executed.exit_pending)
            executed
    unfolding executed start
    ended =
        round_of_write first true a value n (base ++ delta ∷ []) c written.0 fetched address
          addressed written.1

    -- A round of the cycle in which WRITE is fetched, without a cache and with nothing in the
    -- channels: the cycle goes on with the next instruction of the same process, and the memory
    -- program has the page with the value at the offset. The memory program serves one table of
    -- frames and one of pages, which a fetch leaves alone; the address of the instruction reads as
    -- a number that is not negative and lies in a page that the memory program has with the size of
    -- a page, the value ends inside that page, and the entries of the TLB agree with it.
    pub ciclo_round-write :
        c.interrupt_pending ≡ false
        → c.exit_pending ≡ false
        → (t : Cpu S) × (ciclo_round program peers first c ≡ done true t)
          × (t.pc ≡ succ c.pc)
          × (t.pid ≡ c.pid)
          × (page_of t.memory c.pid frame ≡ some (overlay delta value old))
          × Agrees (frame_of t.memory) t.tlb.entries
    unfolding executed start
    ciclo_round-write calm running =
        let k = written.2 in
        (
          executed,
          ground (arith, ended, k.kept_interrupt, k.kept_exit, calm, running),
          ap succ k.kept_pc,
          k.kept_pid,
          k.stored,
          k.still_agrees,
        )

    -- The same round with an interrupt pending: it ends the cycle behind the WRITE. The report goes
    -- out when the memory program has the value in the page, with the process and the program
    -- counter of the next instruction, and the interrupt is no longer pending.
    ciclo_round-interrupted :
        c.interrupt_pending ≡ true
        → c.exit_pending ≡ false
        → (t : Cpu S) × (s : S) × (ciclo_round program peers first c ≡ done false t)
          × (t.memory ≡ peers.results c.pid (succ c.pc) interrupted s)
          × (page_of s c.pid frame ≡ some (overlay delta value old))
          × (t.interrupt_pending ≡ false)
    unfolding executed start send_results
    ciclo_round-interrupted pending running =
        let k = written.2 in
        let u = executed in
        (
          record u {
            interrupt_pending = false;
            memory = peers.results u.pid u.pc interrupted u.memory;
          },
          u.memory,
          ground (arith, ended, k.kept_interrupt, k.kept_exit, pending, running),
          ap (λ p. peers.results p (succ written.0.pc) interrupted u.memory) k.kept_pid
              ∙ ap (λ q. peers.results c.pid (succ q) interrupted u.memory) k.kept_pc,
          k.stored,
          refl,
        )
