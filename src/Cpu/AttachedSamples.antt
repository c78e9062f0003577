-- ===== src/Cpu/AttachedSamples.antt =====
-- A CPU that is attached to the sample memory, whose processes have pages of four bytes.
use tp_sisop_go_utn.Cpu.EndToEnd.{write_memory-get_page}
use tp_sisop_go_utn.Cpu.Attached.{
  Attached, frame_of, page_of, storage_program, storage_program-Serves,
}
use tp_sisop_go_utn.Cpu.Serving.{Serves}
use tp_sisop_go_utn.Cpu.Samples.{full, tables}
use tp_sisop_go_utn.Cpu.Address.{from_int_to_logical_addres}
use tp_sisop_go_utn.Cpu.Buffers.{overlay}
use tp_sisop_go_utn.Cpu.Mmu.{read_memory, write_memory}
use tp_sisop_go_utn.Cpu.State.{Cpu}
use tp_sisop_go_utn.Memoria.PageReads.{Inside-IsSound}
use tp_sisop_go_utn.Memoria.Samples.{everyone, process_one, small, small-IsSound}
use tp_sisop_go_utn.Memoria.PageRuns.{page_at}
use tp_sisop_go_utn.Memoria.Access.{get_page}
use tp_sisop_go_utn.Memoria.State.{find_process, get_data_by_pid}
use tp_sisop_go_utn.Utils.Codeutils.{codes, noop}
use tp_sisop_go_utn.Base.Outcome.{done, ok, value_of}
use tp_sisop_go_utn.Base.{◌≡◌, [], arith, false, List, none, pos, refl, replicate, some, true, ℕ}

abbrev attached : Cpu Attached
attached = record {
  memory_conf = tables;
  tlb = record full { entries = [] };
  cache = record { entries = []; capacity = 0; is_clock = true };
  cache_enable = false;
  pid = 1;
  pc = pos 0;
  instruction = record { opcode = noop; args = [] };
  instruccion = none;
  fetch = false;
  exec_values = record { arg1 = pos 0; str = []; addr = []; value = [] };
  interrupt_pending = false;
  exit_pending = false;
  time_at = λ n. n;
  readings = 0;
  memory = (small, Inside-IsSound everyone small (λ i. refl) small-IsSound);
}

storage_program-Serves_example : Serves (storage_program true (λ n. 512)) frame_of page_of
storage_program-Serves_example = storage_program-Serves true (λ n. 512)

-- Address 6 is byte 2 of the second page, which is the frame at 8.
write_memory-get_page_example :
    (addr : List ℕ) × (t u : Cpu Attached) × (from_int_to_logical_addres tables 6 ≡ some addr)
    × (write_memory (storage_program true (λ n. 512)) addr (codes "ab") attached ≡ done true t)
    × (read_memory (storage_program true (λ n. 512)) addr (pos 2) t ≡ done (some (codes "ab")) u)
    × (value_of (get_page 1 8 t.memory.0)
        ≡ ok (overlay 2 (codes "ab") (page_at 4 (replicate 16 0) 8)))
write_memory-get_page_example =
    write_memory-get_page true (λ n. 512) attached 6 8 process_one (codes "ab") (omega arith)
      (omega arith) (omega arith) refl refl refl (unfold get_data_by_pid find_process in refl)
      (omega arith) refl tt refl (omega arith) (omega arith) (omega arith) (omega arith)
