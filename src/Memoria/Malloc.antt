-- ===== src/Memoria/Malloc.antt =====
-- memoria/storage/storage.go, "MALLOC/FREE" and "INITIALIZE": allocateMemory, deallocateMemory and
-- InitializeUserMemory.
use tp_sisop_go_utn.Base.{
  ceil_div, ℕ, ◌+◌, ◌-◌, ◌*◌, ◌/◌, false, none, some, List, [], ltb, ◌==◌, if◌then◌else◌, length,
  replicate,
}
use tp_sisop_go_utn.Base.Outcome.{
  ◌>>=◌, ◌>>◌, done, fail, panic, pure, get, modify, fail_if, or_fail, or_panic,
}
use tp_sisop_go_utn.Memoria.State.{
  Storage, M, not_enough_memory, allocation_went_wrong, no_such_process, get_data_by_pid,
}
use tp_sisop_go_utn.Memoria.Frames.{
  Reserved, reserved, exhausted, out_of_range, reserve, clear_bits, bases_from,
}

-- What allocateMemory does with the end of its scan.
abbrev pub after_scan : Reserved → M (List ℕ)
after_scan (reserved bases bits) s = done bases (record s { reservation_bits = bits })
after_scan (exhausted bits) s = fail allocation_went_wrong (record s { reservation_bits = bits })
after_scan out_of_range s = panic

-- allocateMemory
unfoldable pub allocate_memory : ℕ → M (List ℕ)
allocate_memory size = do
  s ← get
  fail_if (ltb s.remaining size) not_enough_memory
  let required = ceil_div size s.page_size
  let bytes = s.page_size * required
  or_panic (if ltb s.remaining bytes then none else some tt)
  modify (λ t. record t { remaining = t.remaining - bytes })
  after_scan (reserve required [] s.frame_bases s.reservation_bits)

abbrev free_frames : List ℕ → M (Unit {0})
free_frames bases = do
  s ← get
  bits ← or_panic (clear_bits s.page_size bases s.reservation_bits)
  modify (λ t. record t {
    reservation_bits = bits;
    remaining = t.remaining + length bases * t.page_size;
  })

-- deallocateMemory. The process keeps its list of bases.
unfoldable pub deallocate_memory : ℕ → M (Unit {0})
deallocate_memory pid = do
  s ← get
  p ← or_fail (get_data_by_pid pid s) no_such_process
  if length p.page_bases == 0 then pure tt else free_frames p.page_bases

-- The fields of MemoryConfig that InitializeUserMemory reads.
pub record MemoryConfig : Type 0 where
  pub memory_size : ℕ
  pub page_size : ℕ
  pub entries_per_page : ℕ
  pub number_of_levels : ℕ

-- The variables when the program starts.
abbrev pub zero_storage : Storage
zero_storage = record {
  pagination = record { page_size = 0; entries_per_page = 0; levels = 0 };
  system_memory = [];
  memory_size = 0;
  remaining = 0;
  user_memory = [];
  frame_bases = [];
  reservation_bits = [];
  swap = none;
}

-- InitializeUserMemory. A page size of 0 panics by the division.
unfoldable pub initialize_user_memory : MemoryConfig → M (Unit {0})
unfolding bases_from
initialize_user_memory c = do
  modify (λ s. record s {
    user_memory = replicate c.memory_size 0;
    remaining = c.memory_size;
    memory_size = c.memory_size;
    swap = none;
  })
  if c.number_of_levels == 0 then pure tt else paginate
  where
    paginate : M (Unit {0})
    paginate = do
      or_panic (if c.page_size == 0 then none else some tt)
      let n_pages = c.memory_size / c.page_size
      modify (λ s. record s {
        pagination = record {
          page_size = c.page_size;
          entries_per_page = c.entries_per_page;
          levels = c.number_of_levels;
        };
        frame_bases = bases_from c.page_size 0 n_pages;
        reservation_bits = replicate n_pages false;
      })
