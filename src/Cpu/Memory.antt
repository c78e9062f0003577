-- ===== src/Cpu/Memory.antt =====
-- cpu/memory/memoryConection.go: the requests of the CPU to the memory program, and Traducir of
-- cpu/memory/mmu.go, which puts the TLB before them.
use tp_sisop_go_utn.Cpu.State.{split_address, Run}
use tp_sisop_go_utn.Cpu.Tlb.{add_entry_tlb, find_frame}
use tp_sisop_go_utn.Base.{◌==◌, ℕ, Bool, if◌then◌else◌, none, some, Option, List, false, ◌+◌, true}
use tp_sisop_go_utn.Base.Outcome.{◌>>=◌, ◌>>◌, done, get, modify, pure, crash, or_panic}

-- The reply to a request: what a status 200 carries, or another status. A request that does not
-- arrive leads to MandarDumpMemory, whose own request then closes the body of no response.
pub data Reply (A : Type 0) : Type 0 where
  answered : A → Reply A
  refused : Reply A
  unreachable : Reply A

-- The memory program behind its endpoints: "frame", "full_page" by GET and by POST, "memory_dump".
-- `read_all_capacity` is the capacity of the slice that io.ReadAll returns for a body.
pub record MemoryProgram (S : Type 0) : Type 0 where
  pub frame : ℕ → List ℕ → S → Reply ℕ × S
  pub full_page : ℕ → ℕ → S → Reply (List ℕ) × S
  pub save_page : ℕ → ℕ → List ℕ → S → Reply (Unit {0}) × S
  pub memory_dump : ℕ → S → Reply (Unit {0}) × S
  pub read_all_capacity : ℕ → ℕ

module _ {S : Type 0} (program : MemoryProgram S) where
  abbrev pub ask : {A : Type 0} → (S → Reply A × S) → Run S (Reply A)
  ask request c = let (reply, s) = request c.memory in done reply (record c { memory = s })

  -- MandarDumpMemory: a response that is nil is dereferenced.
  abbrev pub close_dump : Reply (Unit {0}) → Run S (Unit {0})
  close_dump unreachable = crash
  close_dump _ = pure tt

  unfoldable pub mandar_dump_memory : ℕ → Run S (Unit {0})
  mandar_dump_memory pid = do reply ← ask (program.memory_dump pid); close_dump reply

  -- A request that must be answered, with the dump that follows where it is not.
  abbrev pub with_dump : {A : Type 0} → Reply A → Run S (Option A)
  with_dump (answered a) = pure (some a)
  with_dump refused = do c ← get; mandar_dump_memory c.pid; pure none
  with_dump unreachable = do c ← get; mandar_dump_memory c.pid; pure none

  -- findFrameInMemory
  unfoldable pub find_frame_in_memory : List ℕ → ℕ → Run S (Option ℕ)
  unfolding mandar_dump_memory
  find_frame_in_memory page pid = do reply ← ask (program.frame pid page); with_dump reply

  -- GetPageInMemory, of the physical address whose frame is `base`.
  unfoldable pub get_page_in_memory : ℕ → Run S (Option (List ℕ))
  unfolding mandar_dump_memory
  get_page_in_memory base = do c ← get; reply ← ask (program.full_page c.pid base); with_dump reply

  -- findFrame, with the clock.
  unfoldable pub look_up : List ℕ → ℕ → Run S (Option ℕ)
  unfolding find_frame
  look_up page pid c =
      if c.tlb.capacity == 0
      then done none c
      else let (frame, tlb) = find_frame (c.time_at c.readings) page pid c.tlb in
        done frame (record c { tlb = tlb; readings = c.readings + 1 })

  -- AddEntryTLB, with the clock.
  unfoldable pub remember : List ℕ → ℕ → ℕ → Run S (Unit {0})
  unfolding add_entry_tlb
  remember page frame pid = modify (λ c. record c {
    tlb = add_entry_tlb (c.time_at c.readings) page frame pid c.tlb;
    readings = c.readings + 1;
  })

  -- What Traducir does with the memory's answers, asking a second time after a failure.
  abbrev pub remembered : List ℕ → ℕ → Option ℕ → Run S (Option ℕ)
  remembered page pid none = pure none
  remembered page pid (some frame) = do remember page frame pid; pure (some frame)

  abbrev pub ask_again : List ℕ → ℕ → Option ℕ → Run S (Option ℕ)
  ask_again page pid (some frame) = pure (some frame)
  ask_again page pid none = find_frame_in_memory page pid

  abbrev pub or_memory : List ℕ → ℕ → Option ℕ → Run S (Option ℕ)
  or_memory page pid (some frame) = pure (some frame)
  or_memory page pid none = do
    first ← find_frame_in_memory page pid
    second ← ask_again page pid first
    remembered page pid second

  -- Traducir of a page: the frame.
  unfoldable pub traducir_page : List ℕ → ℕ → Run S (Option ℕ)
  unfolding look_up remember find_frame_in_memory
  traducir_page page pid = do hit ← look_up page pid; or_memory page pid hit

  -- Traducir: the frame, for an address that is not empty. The offset is passed through.
  unfoldable pub traducir : List ℕ → ℕ → Run S (Option ℕ)
  unfolding traducir_page
  traducir addr pid = elim (split_address addr) [
    | none ↦ pure none
    | some (page, delta) ↦ traducir_page page pid
  ]

  -- The end of SavePageInMemory. The error that it returns for another status than 200 is that of
  -- the request, which is nil; true stands for nil.
  abbrev pub saved : ℕ → Reply (Unit {0}) → Run S Bool
  saved pid (answered _) = pure true
  saved pid refused = do mandar_dump_memory pid; pure true
  saved pid unreachable = do mandar_dump_memory pid; pure false

  -- SavePageInMemory; nothing is done for an empty cache entry. Where Traducir has no frame, the
  -- index into its nil address is out of range.
  abbrev pub save_page_for : List ℕ → List ℕ → Option ℕ → Run S Bool
  save_page_for page addr none = pure true
  save_page_for page addr (some pid) = do
    translated ← traducir_page addr pid
    base ← or_panic translated
    reply ← ask (program.save_page pid base page)
    saved pid reply

  unfoldable pub save_page_in_memory : List ℕ → List ℕ → Option ℕ → Run S Bool
  unfolding traducir_page mandar_dump_memory
  save_page_in_memory page addr pid = save_page_for page addr pid
