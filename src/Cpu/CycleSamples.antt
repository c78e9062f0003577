-- ===== src/Cpu/CycleSamples.antt =====
-- Runs of the instruction cycle and of the cache's replacement on concrete values.
use tp_sisop_go_utn.Cpu.Endings.{
  ciclo_round-Served, ciclo_rounds-Returns, Returns, Served, executed,
}
use tp_sisop_go_utn.Cpu.Rounds.{ciclo_round-write}
use tp_sisop_go_utn.Cpu.Samples.{
  full, idle, one_frame, one_page, one_page_memory, one_page_memory-Serves, tables,
}
use tp_sisop_go_utn.Cpu.Cycle.{ciclo_round, ciclo_rounds, Peers}
use tp_sisop_go_utn.Cpu.Cache.{
  add_entry_cache_clock, empty_entry, is_in_cache, search_page_in_cache,
}
use tp_sisop_go_utn.Cpu.Clock.{Saves, search-add_entry_cache_clock}
use tp_sisop_go_utn.Cpu.Memory.{answered, save_page_in_memory}
use tp_sisop_go_utn.Cpu.Address.{from_int_to_logical_addres, sum, sum_carry, sum_times}
use tp_sisop_go_utn.Cpu.State.{CacheEntry, Cpu}
use tp_sisop_go_utn.Cpu.Serving.{Agrees}
use tp_sisop_go_utn.Cpu.Tlb.{are_slices_equal}
use tp_sisop_go_utn.Cpu.Buffers.{overlay}
use tp_sisop_go_utn.Utils.Codeutils.{codes, write}
use tp_sisop_go_utn.Utils.Strconv.{atoi, parse_digits}
use tp_sisop_go_utn.Base.Outcome.{done}
use tp_sisop_go_utn.Base.{
  ◌∷◌, ◌≡◌, [], arith, Bool, false, List, pos, refl, some, subst, suc, true, zero, ℕ, ◌++◌,
}
use mathlib.Core.Option.{some-injective}

-- The program is WRITE 6 ab, over and over.
abbrev writers : Peers (List ℕ)
writers = record {
  process =
      λ pid pc s. (answered (record { opcode = write; args = codes "6" ∷ codes "ab" ∷ [] }), s);
  syscall = λ pid pc i s. (true, s);
  results = λ pid pc motivo s. 0 ∷ s;
}

abbrev ready : Cpu (List ℕ)
ready = record idle {
  memory_conf = record tables { levels = 1 };
  tlb = record full { entries = [] };
}

address_of_6 :
    from_int_to_logical_addres (record tables { levels = 1 }) 6 ≡ some ((1 ∷ []) ++ 2 ∷ [])
unfolding from_int_to_logical_addres sum_times sum sum_carry
address_of_6 = refl

ciclo_round-write_example :
    (t : Cpu (List ℕ)) × (ciclo_round one_page_memory writers true ready ≡ done true t)
    × (t.pc ≡ pos 1)
    × (t.pid ≡ 1)
    × (one_page t.memory 1 8 ≡ some (overlay 2 (codes "ab") (5 ∷ 6 ∷ 7 ∷ 8 ∷ [])))
    × Agrees (one_frame t.memory) t.tlb.entries
unfolding are_slices_equal
ciclo_round-write_example =
    ciclo_round-write one_page_memory writers one_frame one_page one_page_memory-Serves
      (λ pid pc s. (refl, refl)) true (codes "6") (codes "ab") 6 2 8 (1 ∷ []) (5 ∷ 6 ∷ 7 ∷ 8 ∷ [])
      ready refl (unfold atoi parse_digits in refl) address_of_6 tt refl refl refl refl
      (omega arith) refl refl

-- The same instruction with an interrupt and an exit pending.
abbrev signalled : Cpu (List ℕ)
signalled = record ready { interrupt_pending = true; exit_pending = true }

ciclo_round-Served_example :
    Served one_page_memory writers false signalled
      (executed one_page_memory writers
        (record { opcode = write; args = codes "6" ∷ codes "ab" ∷ [] })
        signalled)
      (ciclo_round one_page_memory writers false signalled)
ciclo_round-Served_example =
    ciclo_round-Served one_page_memory writers false
      (record { opcode = write; args = codes "6" ∷ codes "ab" ∷ [] }) signalled (omega arith) refl
      refl

ciclo_rounds-Returns_example :
    Returns one_page_memory writers ready
      (ciclo_rounds one_page_memory writers (true ∷ false ∷ true ∷ []) ready)
ciclo_rounds-Returns_example =
    ciclo_rounds-Returns one_page_memory writers (true ∷ false ∷ true ∷ []) ready (omega arith)

-- A cache of two empty entries.
abbrev blank : List CacheEntry
blank = record (empty_entry 4) { position = true } ∷ empty_entry 4 ∷ []

abbrev caching : Cpu (List ℕ)
caching = record ready {
  cache = record { entries = blank; capacity = 2; is_clock = true };
  cache_enable = true;
}

abbrev Saved : CacheEntry → Type 0
Saved e =
    (ok : Bool) × (t : Cpu (List ℕ)) × (save_page_in_memory one_page_memory e.content e.page e.pid
        caching
      ≡ done ok t)

caching-Saves : Saves one_page_memory caching
unfolding save_page_in_memory
caching-Saves zero e h = subst Saved (some-injective _ _ h) (true, caching, refl)
caching-Saves (suc zero) e h = subst Saved (some-injective _ _ h) (true, caching, refl)
caching-Saves (suc (suc i)) e h = absurd (cc)

search-add_entry_cache_clock_example :
    (t : Cpu (List ℕ)) × (add_entry_cache_clock one_page_memory
        (1 ∷ [])
        (5 ∷ 6 ∷ 7 ∷ 8 ∷ [])
        caching
      ≡ done tt t)
    × (search_page_in_cache (1 ∷ []) t.cache.entries ≡ some (5 ∷ 6 ∷ 7 ∷ 8 ∷ []))
search-add_entry_cache_clock_example =
    search-add_entry_cache_clock one_page_memory (1 ∷ []) (5 ∷ 6 ∷ 7 ∷ 8 ∷ []) caching (omega arith)
      (unfold is_in_cache are_slices_equal in refl) caching-Saves
