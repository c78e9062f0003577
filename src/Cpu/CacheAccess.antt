-- ===== src/Cpu/CacheAccess.antt =====
-- cpu/memory/cache.go: ReadCache, WriteCache and EndProcess, with NextPageMMU of cpu/memory/mmu.go.
-- A slice that aliases the content of a cache entry is that entry: a write through it is a write to
-- the cache. A page that AddEntryCache has copied is not in the cache.
use tp_sisop_go_utn.Cpu.Buffers.{slice, smaller, overlay, copy_at}
use tp_sisop_go_utn.Cpu.Memory.{
  look_up, traducir_page, get_page_in_memory, save_page_in_memory, traducir, MemoryProgram,
}
use tp_sisop_go_utn.Cpu.State.{split_address, CacheEntry, Run, out_of_fuel}
use tp_sisop_go_utn.Cpu.Cache.{
  modify_cache, use_cache, add_entry_cache, is_in_cache, search_page_in_cache, set_entries,
  update_page,
}
use tp_sisop_go_utn.Cpu.Address.{sum}
use tp_sisop_go_utn.Base.{
  if◌then◌else◌, true, Bool, [], ◌==◌, ◌-◌, zero, ◌+◌, ℕ, Option, to_nat?, ◌∷◌, none, drop, length,
  List, some, suc, false, take, ◌++◌, leb, ℤ,
}
use tp_sisop_go_utn.Base.Outcome.{◌>>=◌, ◌>>◌, get, modify, pure, throw, or_panic}

abbrev pub if_some : {S A B : Type 0} → Option A → (A → Run S (Option B)) → Run S (Option B)
if_some none f = pure none
if_some (some a) f = f a

abbrev pub if_true : {S : Type 0} → Bool → Run S Bool → Run S Bool
if_true true f = f
if_true false f = pure false

-- The content of the first entry with the page is written.
abbrev pub write_content : List ℕ → ℕ → List ℕ → List CacheEntry → List CacheEntry
write_content page delta value =
    update_page page (λ e. record e { content = overlay delta value e.content })

module _ {S : Type 0} (program : MemoryProgram S) where
  abbrev pub change_entries : (List CacheEntry → List CacheEntry) → Run S (Unit {0})
  change_entries f =
      modify (λ c. record c { cache = record c.cache { entries = f c.cache.entries } })

  abbrev pub with_frame : List ℕ → Option ℕ → Option (List ℕ × ℕ)
  with_frame page none = none
  with_frame page (some frame) = some (page, frame)

  -- NextPageMMU: the next page and its frame.
  unfoldable pub next_page_mmu : List ℕ → Run S (Option (List ℕ × ℕ))
  unfolding sum traducir_page
  next_page_mmu page = do
    c ← get
    next ← or_panic (sum c.memory_conf.entries_per_page page)
    frame ← traducir_page program next c.pid
    pure (with_frame next frame)

  abbrev pub cached_as : List ℕ → Option (List ℕ) → Run S Bool
  cached_as page none = pure false
  cached_as page (some content) = do add_entry_cache program page content; pure true

  -- `if !IsInCache(page) { … }`: the page is asked for and added; false where it is refused.
  unfoldable pub ensure_cached : List ℕ → ℕ → Run S Bool
  unfolding is_in_cache get_page_in_memory add_entry_cache
  ensure_cached page frame = do
    c ← get
    (if is_in_cache page c.cache.entries
        then pure true
        else do content ← get_page_in_memory program frame; cached_as page content)

  -- The page of a round of ReadCache, with the capacity of its slice.
  abbrev pub added_page : List ℕ → Option (List ℕ) → Run S (Option (List ℕ × ℕ))
  added_page page none = pure none
  added_page page (some content) = do
    add_entry_cache program page content
    pure (some (content, program.read_all_capacity (length content)))

  abbrev pub found_page : List ℕ → ℕ → Option (List ℕ) → Run S (Option (List ℕ × ℕ))
  found_page page frame (some content) = pure (some (content, length content))
  found_page page frame none = do
    content ← get_page_in_memory program frame
    added_page page content

  -- The loop of ReadCache, with `left` bytes to read and `read` so far. The frame that it asks
  -- for where a page is not in the cache is that of the second page.
  unfoldable pub read_cache_rest : ℕ → ℕ → List ℕ → ℕ → List ℕ → Run S (Option (List ℕ))
  unfolding search_page_in_cache use_cache get_page_in_memory add_entry_cache next_page_mmu
      ensure_cached
  read_cache_rest zero frame page left read = throw out_of_fuel
  read_cache_rest (suc fuel) frame page left read = do
    c ← get
    let chunk_size = smaller c.memory_conf.page_size left
    found ← found_page page frame (search_page_in_cache page c.cache.entries)
    if_some found λ (content, capacity). do
      chunk ← or_panic (slice capacity 0 chunk_size content)
      change_entries (use_cache page)
      (if left - chunk_size == 0 then pure (some (read ++ chunk)) else do
        following ← next_page_mmu page
        if_some following λ (next, next_frame). do
          ready ← ensure_cached next next_frame
          (if ready
              then read_cache_rest fuel frame next (left - chunk_size) (read ++ chunk)
              else pure none))

  -- ReadCache, of an address that is not empty.
  unfoldable pub read_cache : List ℕ → ℤ → Run S (Option (List ℕ))
  unfolding search_page_in_cache use_cache next_page_mmu ensure_cached read_cache_rest
  read_cache logic_addr size = do
    (base, delta) ← or_panic (split_address logic_addr)
    c ← get
    if_some (search_page_in_cache base c.cache.entries) λ page. do
      n ← or_panic (to_nat? size)
      let page_size = c.memory_conf.page_size
      (if leb (n + delta) page_size
          then (do
            change_entries (use_cache base)
            content ← or_panic (slice (length page) delta (delta + n) page)
            pure (some content))
          else (do
            chunk ← or_panic (slice (length page) delta page_size page)
            change_entries (use_cache base)
            following ← next_page_mmu base
            if_some following λ (next, frame). do
              ready ← ensure_cached next frame
              (if ready
                  then read_cache_rest (n + 1) frame next (n - (page_size - delta)) chunk
                  else pure none)))

  -- A write to a page that was found in the cache, or to a copy that nothing else has.
  abbrev pub write_found : Bool → List ℕ → ℕ → List ℕ → List ℕ → Run S (Unit {0})
  write_found in_cache page delta value content = do
    _ ← or_panic (copy_at delta value content)
    change_entries (λ es. if in_cache then write_content page delta value es else es)

  abbrev pub content_or_nil : Option (List ℕ) → List ℕ
  content_or_nil none = []
  content_or_nil (some content) = content

  -- The page that WriteCache writes, and whether it is the cache's own.
  abbrev pub fetched : List ℕ → Option ℕ → Run S (Option (Bool × List ℕ))
  fetched page none = pure none
  fetched page (some frame) = do
    content ← get_page_in_memory program frame
    add_entry_cache program page (content_or_nil content)
    pure (some (false, content_or_nil content))

  abbrev pub page_to_write : List ℕ → List ℕ → Option (List ℕ) → Run S (Option (Bool × List ℕ))
  page_to_write page addr (some content) = pure (some (true, content))
  page_to_write page addr none = do c ← get; frame ← traducir program addr c.pid; fetched page frame

  abbrev pub written_or_false : {A : Type 0} → Option A → (A → Run S Bool) → Run S Bool
  written_or_false none f = pure false
  written_or_false (some a) f = f a

  -- The loop of WriteCache, with `value` still to be written. Where a page is not in the cache,
  -- Traducir is given the page without an offset.
  unfoldable pub write_cache_rest : ℕ → List ℕ → List ℕ → Run S Bool
  unfolding search_page_in_cache modify_cache traducir traducir_page get_page_in_memory
      add_entry_cache next_page_mmu ensure_cached
  write_cache_rest zero page value = throw out_of_fuel
  write_cache_rest (suc fuel) page value = do
    c ← get
    let chunk_size = smaller c.memory_conf.page_size (length value)
    target ← page_to_write page page (search_page_in_cache page c.cache.entries)
    written_or_false target λ (in_cache, content). do
      write_found in_cache page 0 (take chunk_size value) content
      _ ← traducir_page program page c.pid
      change_entries (modify_cache page)
      (if length value - chunk_size == 0 then pure true else do
        following ← next_page_mmu page
        written_or_false following λ (next, frame). do
          ready ← ensure_cached next frame
          if_true ready (write_cache_rest fuel next (drop chunk_size value)))

  -- WriteCache
  unfoldable pub write_cache : List ℕ → List ℕ → Run S Bool
  unfolding search_page_in_cache modify_cache look_up traducir get_page_in_memory add_entry_cache
      next_page_mmu ensure_cached write_cache_rest
  write_cache logic_addr value = do
    (base, delta) ← or_panic (split_address logic_addr)
    c ← get
    let page_size = c.memory_conf.page_size
    target ← page_to_write base logic_addr (search_page_in_cache base c.cache.entries)
    written_or_false target λ (in_cache, content).
        if leb (length value + delta) page_size
        then (do
          write_found in_cache base delta value content
          _ ← look_up program base c.pid
          change_entries (modify_cache base)
          pure true)
        else (do
          _ ← or_panic (if leb delta page_size then some tt else none)
          write_found in_cache base delta (take (page_size - delta) value) content
          _ ← look_up program base c.pid
          change_entries (modify_cache base)
          following ← next_page_mmu base
          written_or_false following λ (next, frame). do
            ready ← ensure_cached next frame
            if_true ready
                (write_cache_rest (length value + 1) next (drop (page_size - delta) value)))

  -- What EndProcess leaves of an entry.
  abbrev pub released : CacheEntry
  released = record {
    page = [];
    content = [];
    used = false;
    modified = false;
    position = false;
    pid = none;
  }

  abbrev pub owned_by : ℕ → Option ℕ → Bool
  owned_by pid none = false
  owned_by pid (some p) = p == pid

  -- The loop of EndProcess: the new entries. One that could not be saved is dropped.
  unfoldable pub end_entries : ℕ → List CacheEntry → Run S (List CacheEntry)
  unfolding save_page_in_memory
  end_entries pid [] = pure []
  end_entries pid (e ∷ es) = do
    kept ←
        (if owned_by pid e.pid
          then (if e.modified
              then (do
                ok ← save_page_in_memory program e.content e.page e.pid
                pure (if ok then released ∷ [] else []))
              else pure (released ∷ []))
          else pure (e ∷ []))
    rest ← end_entries pid es
    pure (kept ++ rest)

  -- EndProcess
  unfoldable pub end_process : ℕ → Run S (Unit {0})
  unfolding end_entries
  end_process pid = do c ← get; es ← end_entries pid c.cache.entries; set_entries program es
