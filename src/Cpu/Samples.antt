-- ===== src/Cpu/Samples.antt =====
-- A translation on small tables, and runs of a TLB of two entries.
use tp_sisop_go_utn.Cpu.DirectAccess.{read_memory-write_memory}
use tp_sisop_go_utn.Cpu.Buffers.{overlay}
use tp_sisop_go_utn.Cpu.Mmu.{read_memory, write_memory}
use tp_sisop_go_utn.Cpu.Translating.{traducir_page-Returns, Returns}
use tp_sisop_go_utn.Base.Outcome.{done, ok, value_of}
use tp_sisop_go_utn.Cpu.Memory.{traducir_page, MemoryProgram, answered, refused}
use tp_sisop_go_utn.Utils.Codeutils.{Opcode}
use tp_sisop_go_utn.Base.{
  ◌++◌, pos, true, none, false, ◌==◌, Option, if◌then◌else◌, arith, some, ◌≤◌, ◌∷◌, ℕ, [], length,
  refl, ◌*◌, List, ◌≡◌,
}
use tp_sisop_go_utn.Memoria.State.{find_process, get_data_by_pid, no_metrics, ProcessData, Storage}
use tp_sisop_go_utn.Cpu.TlbLaws.{
  lru_evicts_oldest, UsedFrom, add_entry_tlb-le-capacity, find_frame-add_entry_tlb,
}
use tp_sisop_go_utn.Cpu.Translation.{logic_address_to_frame-from_int, to_ints}
use tp_sisop_go_utn.Cpu.Tlb.{
  are_slices_equal, evict, find_entry, lru, Tlb, TlbEntry, add_entry_tlb, find_frame,
}
use tp_sisop_go_utn.Memoria.Address.{logic_address_to_frame}
use tp_sisop_go_utn.Cpu.Address.{PaginationConfig, from_int_to_logical_addres}
use tp_sisop_go_utn.Cpu.Odometer.{from_int-LogicAddress, LogicAddress}
use tp_sisop_go_utn.Memoria.Malloc.{zero_storage}
use tp_sisop_go_utn.Cpu.Serving.{Serves, reply_of}
use tp_sisop_go_utn.Cpu.State.{Cpu}

abbrev pub tables : PaginationConfig
tables = record { page_size = 4; entries_per_page = 2; levels = 2 }

abbrev loaded : ProcessData
loaded = record { pid = 1; code = []; page_bases = 0 ∷ 8 ∷ []; metrics = no_metrics }

abbrev memory : Storage
memory = record zero_storage {
  pagination = record { page_size = 4; entries_per_page = 2; levels = 2 };
  system_memory = loaded ∷ [];
}

abbrev entry : ℕ → ℕ → TlbEntry
entry page used = record { page = page ∷ []; frame = page * 4; last_used = used; pid = 1 }

abbrev pub full : Tlb
full = record { entries = entry 0 9 ∷ entry 1 5 ∷ []; capacity = 2; replacement_alg = lru }

from_int-LogicAddress_example : LogicAddress tables 5
from_int-LogicAddress_example =
    from_int-LogicAddress tables 5 (omega arith) (omega arith) (omega arith)

logic_address_to_frame-from_int_example :
    (address : List ℕ) × (from_int_to_logical_addres tables 5 ≡ some (address ++ 1 ∷ []))
    × (value_of (logic_address_to_frame 1 (to_ints address) memory) ≡ ok 8)
logic_address_to_frame-from_int_example =
    logic_address_to_frame-from_int tables 5 1 8 loaded memory (omega arith) (omega arith)
      (omega arith) refl refl (unfold get_data_by_pid find_process in refl) (omega arith) refl

add_entry_tlb-le-capacity_example :
    length (add_entry_tlb 10 (2 ∷ []) 8 1 full).entries
    ≤ (add_entry_tlb 10 (2 ∷ []) 8 1 full).capacity
add_entry_tlb-le-capacity_example =
    add_entry_tlb-le-capacity 10 (2 ∷ []) 8 1 full (λ e. absurd (cc)) (omega arith)

lru_evicts_oldest_example :
    (before : List TlbEntry) × (m : TlbEntry) × (after : List TlbEntry) × (entry 0 9
        ∷ entry 1 5
        ∷ []
      ≡ before ++ m ∷ after)
    × (evict lru (entry 0 9 ∷ entry 1 5 ∷ []) ≡ before ++ after)
    × UsedFrom m.last_used (entry 0 9 ∷ entry 1 5 ∷ [])
lru_evicts_oldest_example = lru_evicts_oldest (entry 0 9) (entry 1 5 ∷ [])

find_frame-add_entry_tlb_example :
    (find_frame 11 (2 ∷ []) 1 (add_entry_tlb 10 (2 ∷ []) 8 1 full)).0 ≡ some 8
find_frame-add_entry_tlb_example =
    find_frame-add_entry_tlb 10 11 (2 ∷ []) 8 1 full (omega arith)
      (unfold find_frame find_entry are_slices_equal in refl)

-- A memory program with one page, which is its state: page 1 of every process, at the base 8.
abbrev pub one_frame : List ℕ → ℕ → List ℕ → Option ℕ
one_frame s pid page = if are_slices_equal page (1 ∷ []) then some 8 else none

abbrev pub one_page : List ℕ → ℕ → ℕ → Option (List ℕ)
one_page s pid base = if base == 8 then some s else none

abbrev pub one_page_memory : MemoryProgram (List ℕ)
one_page_memory = record {
  frame = λ pid page s. (reply_of (one_frame s pid page), s);
  full_page = λ pid base s. (reply_of (one_page s pid base), s);
  save_page = λ pid base new s. if base == 8 then (answered tt, new) else (refused, s);
  memory_dump = λ pid s. (answered tt, s);
  read_all_capacity = λ n. 512;
}

pub one_page_memory-Serves : Serves one_page_memory one_frame one_page
one_page_memory-Serves = record {
  frame_reply = λ pid page s. refl;
  frame_keeps = λ pid page s. (refl, refl);
  page_reply = λ pid base s. refl;
  page_keeps = λ pid base s. (refl, refl);
  dump_reply = λ pid s e. absurd (cc);
  dump_keeps = λ pid s. (refl, refl);
  save_reply = λ pid base old new s has len. ground (arith, has);
  save_keeps = λ pid base new s. refl;
  save_stores = λ pid base old new s has len. ground (arith, has);
}

abbrev pub idle : Cpu (List ℕ)
idle = record {
  memory_conf = tables;
  tlb = full;
  cache = record { entries = []; capacity = 0; is_clock = true };
  cache_enable = false;
  pid = 1;
  pc = pos 0;
  instruction = record { opcode = Opcode.noop; args = [] };
  instruccion = none;
  fetch = false;
  exec_values = record { arg1 = pos 0; str = []; addr = []; value = [] };
  interrupt_pending = false;
  exit_pending = false;
  time_at = λ n. n;
  readings = 20;
  memory = 5 ∷ 6 ∷ 7 ∷ 8 ∷ [];
}

traducir_page-Returns_example :
    Returns one_page_memory one_frame one_page one_page_memory-Serves
      (traducir_page one_page_memory (1 ∷ []) 1)
      (record idle { tlb = record full { entries = [] } })
      (some 8)
unfolding are_slices_equal
traducir_page-Returns_example =
    traducir_page-Returns one_page_memory one_frame one_page one_page_memory-Serves (1 ∷ []) 1
      (record idle { tlb = record full { entries = [] } }) tt

read_memory-write_memory_example :
    (t u : Cpu (List ℕ)) × (write_memory one_page_memory
        ((1 ∷ []) ++ 2 ∷ [])
        (9 ∷ 9 ∷ [])
        (record idle { tlb = record full { entries = [] } })
      ≡ done true t)
    × (read_memory one_page_memory ((1 ∷ []) ++ 2 ∷ []) (pos 2) t ≡ done (some (9 ∷ 9 ∷ [])) u)
    × (one_page t.memory 1 8 ≡ some (overlay 2 (9 ∷ 9 ∷ []) (5 ∷ 6 ∷ 7 ∷ 8 ∷ [])))
unfolding are_slices_equal
read_memory-write_memory_example =
    read_memory-write_memory one_page_memory one_frame one_page one_page_memory-Serves (1 ∷ []) 2 8
      (9 ∷ 9 ∷ []) (5 ∷ 6 ∷ 7 ∷ 8 ∷ []) (record idle { tlb = record full { entries = [] } }) tt refl
      refl refl refl (omega arith)
