-- ===== src/Cpu/EndToEnd.antt =====
-- The MMU of the CPU (cpu/memory/mmu.go) and the storage of the memory program
-- (memoria/storage/storage.go) together: an address of an instruction, its way through the page
-- tables, and the bytes behind it.
use tp_sisop_go_utn.Cpu.Attached.{
  Attached, frame_of, page_of, storage_program, storage_program-Serves,
}
use tp_sisop_go_utn.Cpu.DirectAccess.{read_memory-write_memory}
use tp_sisop_go_utn.Cpu.Translation.{logic_address_to_frame-niveles, to_ints}
use tp_sisop_go_utn.Cpu.Odometer.{AllBelow, from_int-LogicAddress, LogicAddress}
use tp_sisop_go_utn.Cpu.Wire.{as_answer, as_entries}
use tp_sisop_go_utn.Utils.Strconv.{as_int, as_int_of_lt}
use tp_sisop_go_utn.Cpu.Address.{from_int_to_logical_addres}
use tp_sisop_go_utn.Cpu.Serving.{Agrees}
use tp_sisop_go_utn.Cpu.Buffers.{overlay}
use tp_sisop_go_utn.Cpu.Mmu.{read_memory, write_memory}
use tp_sisop_go_utn.Cpu.State.{Cpu}
use tp_sisop_go_utn.Memoria.Reads.{bases_of, logic_address_to_frame-Reads, paged, Reads}
use tp_sisop_go_utn.Memoria.PageReads.{get_page-Reads}
use tp_sisop_go_utn.Memoria.Access.{contains, get_page}
use tp_sisop_go_utn.Memoria.PageRuns.{page_at}
use tp_sisop_go_utn.Memoria.State.{Error, get_data_by_pid, ProcessData, Storage}
use mathlib.Core.Option.{some-injective}
use tp_sisop_go_utn.Base.Outcome.{done, fail, ok, Outcome, panic, value_of}
use tp_sisop_go_utn.Base.{
  map, Bool, ◌++◌, ◌+◌, ◌/◌, ◌%◌, ◌<◌, ◌≤◌, ◌≡◌, ◌^◌, ◌∙◌, ◌∷◌, [], ap, arith, drop, false,
  get_elem?, length, length-drop, length-take, List, Option, option_map, pos, refl, some, suc, sym,
  true, zero, ℕ,
}

contains-get_elem? : (xs : List ℕ) (i x : ℕ) → get_elem? xs i ≡ some x → contains xs x ≡ true
unfolding contains
contains-get_elem? [] i x h = absurd (cc)
contains-get_elem? (y ∷ xs) zero x h = ground (arith, h)
contains-get_elem? (y ∷ xs) (suc i) x h = ground (arith, contains-get_elem? xs i x h)

-- What a request that reads answers is the value that is read.
Reads-ok :
    {A : Type 0} (pid : ℕ) (s : Storage) (v : Option A) (o : Outcome Error Storage A) (a : A)
    → Reads pid s v o
    → value_of o ≡ ok a
    → v ≡ some a
Reads-ok pid s v (done b t) a h e = sym h.1 ∙ ap some (cc e)
Reads-ok pid s v (fail x t) a h e = absurd (cc)
Reads-ok pid s v panic a h e = absurd h

ok-Reads :
    {A : Type 0} (pid : ℕ) (s : Storage) (v : Option A) (o : Outcome Error Storage A) (a : A)
    → Reads pid s v o
    → v ≡ some a
    → value_of o ≡ ok a
ok-Reads pid s v (done b t) a h e = ap ok (some-injective _ _ (h.1 ∙ e))
ok-Reads pid s v (fail x t) a h e = absurd (cc (h.1 ∙ e))
ok-Reads pid s v panic a h e = absurd h

-- The table of pages, for numbers in the range of an int.
page_of_ints :
    (pid base : ℕ) (w : Attached)
    → pid < 2 ^ 63
    → base < 2 ^ 63
    → page_of w pid base ≡ paged w.0.page_size w.0.user_memory base (bases_of pid w.0)
page_of_ints pid base w h k = rw (as_int_of_lt pid h, as_int_of_lt base k) refl

answered_int : (base : ℕ) → base < 2 ^ 63 → as_answer base ≡ some base
answered_int base h = ground arith

-- Entries below a number of entries that is an int arrive as they are.
as_entries_below :
    (entries : ℕ) (ds : List ℕ)
    → entries ≤ 2 ^ 63
    → AllBelow entries ds
    → map (λ d. pos (as_int d)) ds ≡ to_ints ds
as_entries_below entries [] le h = refl
as_entries_below entries (d ∷ ds) le h =
    rw (as_int_of_lt d (omega (arith, le, h.0)), as_entries_below entries ds le h.1) refl

as_entries-to_ints :
    (entries : ℕ) (ds : List ℕ)
    → entries ≤ 2 ^ 63
    → AllBelow entries ds
    → 0 < length ds
    → as_entries ds ≡ to_ints ds
as_entries-to_ints entries [] le h some_entry = absurd (omega (arith, some_entry))
as_entries-to_ints entries (d ∷ ds) le h some_entry = as_entries_below entries (d ∷ ds) le h

module _ (created : Bool) (capacity : ℕ → ℕ) (c : Cpu Attached) (direccion base : ℕ)
    (p : ProcessData) (value : List ℕ) (page_pos : 0 < c.memory_conf.page_size)
    (entries_pos : 0 < c.memory_conf.entries_per_page) (levels_pos : 0 < c.memory_conf.levels)
    (same_page : c.memory.0.page_size ≡ c.memory_conf.page_size)
    (same_levels : c.memory.0.levels ≡ c.memory_conf.levels)
    (same_entries : c.memory.0.entries_per_page ≡ c.memory_conf.entries_per_page)
    (found : get_data_by_pid c.pid c.memory.0 ≡ some p)
    (reach : direccion / c.memory_conf.page_size
      < c.memory_conf.entries_per_page ^ c.memory_conf.levels)
    (mapped : get_elem? p.page_bases (direccion / c.memory_conf.page_size) ≡ some base)
    (agrees : Agrees (frame_of c.memory) c.tlb.entries) (no_cache : c.cache_enable ≡ false)
    (inside : length value + direccion % c.memory_conf.page_size ≤ c.memory_conf.page_size)
    (pid_int : c.pid < 2 ^ 63) (base_int : base < 2 ^ 63)
    (entries_int : c.memory_conf.entries_per_page ≤ 2 ^ 63) where
  -- The page of the process.
  old_page : List ℕ
  old_page = page_at c.memory.0.page_size c.memory.0.user_memory base

  bases : bases_of c.pid c.memory.0 ≡ some p.page_bases
  unfolding get_data_by_pid
  bases = ap (option_map (λ q. q.page_bases)) found

  has : contains p.page_bases base ≡ true
  has = contains-get_elem? p.page_bases (direccion / c.memory_conf.page_size) base mapped

  has_page_there : page_of c.memory c.pid base ≡ some old_page
  unfolding old_page
  has_page_there = page_of_ints c.pid base c.memory pid_int base_int ∙ rw (bases, has) refl

  -- The table of the memory program has the frame, for the entries that the CPU makes.
  made : LogicAddress c.memory_conf direccion
  made = from_int-LogicAddress c.memory_conf direccion page_pos entries_pos levels_pos

  frame_there : frame_of c.memory c.pid made.niveles ≡ some base
  frame_there =
      let framed_as =
        Reads-ok c.pid c.memory.0 _ _ base
          (logic_address_to_frame-Reads c.pid (to_ints made.niveles) c.memory.0)
          (logic_address_to_frame-niveles c.memory_conf direccion c.pid base p c.memory.0 made
            same_levels same_entries found reach mapped) in
      rw
        (
          as_int_of_lt c.pid pid_int,
          as_entries-to_ints c.memory_conf.entries_per_page made.niveles entries_int made.below
              (rw made.depth levels_pos),
          framed_as,
        )
        (answered_int base base_int)

  whole : length old_page ≡ c.memory_conf.page_size
  unfolding old_page get_data_by_pid
  whole = omega (
    arith,
    same_page,
    length-take c.memory.0.page_size (drop base c.memory.0.user_memory),
    length-drop base c.memory.0.user_memory,
    c.memory.1 c.pid base p found has,
  )

  -- An address of an instruction, without a cache, from the CPU to the storage, through the texts
  -- of the requests and the handlers of the endpoints: WriteMemory at the
  -- logical address that FromIntToLogicalAddres makes of it succeeds, ReadMemory then returns the
  -- value, and GetPage of the storage returns, for the frame that the process has at index
  -- address / page size, the bytes of before with the value at address % page size. The CPU has the
  -- page size, the entries and the levels of the memory, all above 0, the tables reach the page, the
  -- process is stored with such a frame, the pages of the stored processes lie inside the memory,
  -- the value ends inside the page, the entries of the TLB agree with the memory, and the pid, the
  -- frame and the entries of a table are in the range of an int.
  pub write_memory-get_page :
      (addr : List ℕ) × (t u : Cpu Attached) × (from_int_to_logical_addres c.memory_conf direccion
        ≡ some addr)
      × (write_memory (storage_program created capacity) addr value c ≡ done true t)
      × (read_memory (storage_program created capacity) addr (pos (length value)) t
          ≡ done (some value) u)
      × (value_of (get_page c.pid base t.memory.0)
          ≡ ok (
              overlay
                (direccion % c.memory_conf.page_size)
                value
                (page_at c.memory.0.page_size c.memory.0.user_memory base)))
  unfolding old_page
  write_memory-get_page =
      let (t, u, wrote, got, stored) =
        read_memory-write_memory (storage_program created capacity) frame_of page_of
          (storage_program-Serves created capacity) made.niveles
          (direccion % c.memory_conf.page_size) base value old_page c agrees no_cache frame_there
          has_page_there whole inside in
      (
        made.niveles ++ direccion % c.memory_conf.page_size ∷ [],
        t,
        u,
        made.result,
        wrote,
        got,
        ok-Reads c.pid t.memory.0 _ _ _ (get_page-Reads c.pid base t.memory.0 t.memory.1)
            (sym (page_of_ints c.pid base t.memory pid_int base_int) ∙ stored),
      )
