-- ===== src/Cpu/Mmu.antt =====
-- cpu/memory/mmu.go: WriteMemory and ReadMemory. The append to `base` in SavePageInMemory may write
-- a 0 over the offset of the address that was given, which is not read again.
use tp_sisop_go_utn.Cpu.Buffers.{overlay, slice, smaller, copy_at}
use tp_sisop_go_utn.Cpu.CacheAccess.{
  content_or_nil, read_cache, written_or_false, if_some, write_cache, next_page_mmu,
}
use tp_sisop_go_utn.Base.Outcome.{done, fail, ◌>>=◌, ◌>>◌, get, pure, throw, or_panic}
use tp_sisop_go_utn.Cpu.Cache.{add_entry_cache, is_in_cache}
use tp_sisop_go_utn.Cpu.Memory.{
  save_page_in_memory, get_page_in_memory, traducir_page, MemoryProgram,
}
use tp_sisop_go_utn.Cpu.State.{split_address, Run, out_of_fuel, channel_full}
use tp_sisop_go_utn.Base.{
  true, none, [], ℤ, replicate, to_nat?, List, suc, ◌==◌, some, length, ◌+◌, ◌∷◌, ℕ, ◌++◌, ◌-◌,
  take, leb, Bool, Option, drop, zero, if◌then◌else◌,
}

module _ {S : Type 0} (program : MemoryProgram S) where
  -- The loop of WriteMemory without a cache, with `value` still to be written.
  unfoldable pub write_memory_rest : ℕ → List ℕ → ℕ → List ℕ → Run S Bool
  unfolding get_page_in_memory traducir_page save_page_in_memory next_page_mmu
  write_memory_rest zero page frame value = throw out_of_fuel
  write_memory_rest (suc fuel) page frame value = do
    c ← get
    let chunk_size = smaller c.memory_conf.page_size (length value)
    found ← get_page_in_memory program frame
    written_or_false program found λ content. do
      _ ← traducir_page program page c.pid
      _ ← save_page_in_memory program (overlay 0 (take chunk_size value) content) page (some c.pid)
      (if length value - chunk_size == 0 then pure true else do
        following ← next_page_mmu program page
        written_or_false program following
            λ (next, next_frame). write_memory_rest fuel next next_frame (drop chunk_size value))

  -- WriteMemory with CacheEnable; what WriteCache returns is dropped.
  unfoldable pub write_memory_cached : List ℕ → ℕ → List ℕ → Run S Bool
  unfolding is_in_cache write_cache traducir_page get_page_in_memory add_entry_cache
  write_memory_cached base delta value = do
    c ← get
    (if is_in_cache base c.cache.entries
        then (do _ ← write_cache program (base ++ delta ∷ []) value; pure true)
        else (do
          translated ← traducir_page program base c.pid
          written_or_false program translated λ frame. do
            found ← get_page_in_memory program frame
            written_or_false program found λ content. do
              add_entry_cache program base content
              _ ← write_cache program (base ++ delta ∷ []) value
              pure true))

  -- WriteMemory without a cache.
  unfoldable pub write_memory_direct : List ℕ → ℕ → List ℕ → Run S Bool
  unfolding traducir_page get_page_in_memory save_page_in_memory next_page_mmu write_memory_rest
  write_memory_direct base delta value = do
    c ← get
    let page_size = c.memory_conf.page_size
    translated ← traducir_page program base c.pid
    written_or_false program translated λ frame. do
      found ← get_page_in_memory program frame
      written_or_false program found λ content.
          if leb (length value + delta) page_size
          then (do
            page ← or_panic (copy_at delta value content)
            _ ← save_page_in_memory program page base (some c.pid)
            pure true)
          else (do
            _ ← or_panic (if leb delta page_size then some tt else none)
            page ← or_panic (copy_at delta (take (page_size - delta) value) content)
            _ ← save_page_in_memory program page base (some c.pid)
            following ← next_page_mmu program base
            written_or_false program following λ (next, next_frame).
                write_memory_rest (length value + 1) next next_frame
                  (drop (page_size - delta) value))

  -- WriteMemory
  unfoldable pub write_memory : List ℕ → List ℕ → Run S Bool
  unfolding write_memory_cached write_memory_direct
  write_memory logic_addr value = do
    (base, delta) ← or_panic (split_address logic_addr)
    c ← get
    (if c.cache_enable
        then write_memory_cached base delta value
        else write_memory_direct base delta value)

  -- `config.ExitChan <- struct{}{}`, a channel with room for one.
  unfoldable pub send_exit : Run S (Unit {0})
  send_exit c =
      if c.exit_pending then fail channel_full c else done tt (record c { exit_pending = true })

  abbrev pub or_exit : {A : Type 0} → Option A → Run S (Option A)
  or_exit (some a) = pure (some a)
  or_exit none = do send_exit; pure none

  abbrev pub translated_again : List ℕ → ℕ → Option ℕ → Run S (Option ℕ)
  translated_again base pid (some frame) = pure (some frame)
  translated_again base pid none = traducir_page program base pid

  abbrev pub fetched_again : ℕ → Option (List ℕ) → Run S (Option (List ℕ))
  fetched_again frame (some content) = pure (some content)
  fetched_again frame none = get_page_in_memory program frame

  -- GetPageInMemory, a second time if it fails.
  unfoldable pub get_page_twice : ℕ → Run S (Option (List ℕ))
  unfolding get_page_in_memory
  get_page_twice frame = do first ← get_page_in_memory program frame; fetched_again frame first

  -- copy(content[leido:], page[delta:delta+n])
  abbrev pub copy_read : ℕ → List ℕ → Option (List ℕ) → Option (List ℕ)
  copy_read leido content none = none
  copy_read leido content (some chunk) = copy_at leido chunk content

  -- The loop of ReadMemory without a cache, with `left` bytes to read and `leido` as it counts.
  unfoldable pub read_memory_rest :
      ℕ → List ℕ → List ℕ → ℕ → ℕ → ℕ → List ℕ → Run S (Option (List ℕ))
  unfolding get_page_twice next_page_mmu
  read_memory_rest zero page found delta left leido content = throw out_of_fuel
  read_memory_rest (suc fuel) page found delta left leido content = do
    c ← get
    let n = smaller left c.memory_conf.page_size
    read ← or_panic (
        copy_read leido content
          (slice (program.read_all_capacity (length found)) delta (delta + n) found))
    (if left - n == 0 then pure (some read) else do
      following ← next_page_mmu program page
      if_some following λ (next, frame). do
        again ← get_page_twice frame
        if_some again
            λ next_found. read_memory_rest fuel next next_found delta (left - n) (leido + n) read)

  -- ReadMemory without a cache, of a page that is translated.
  unfoldable pub read_memory_direct : List ℕ → ℕ → ℕ → ℤ → Run S (Option (List ℕ))
  unfolding get_page_twice next_page_mmu read_memory_rest
  read_memory_direct base delta frame size = do
    c ← get
    let page_size = c.memory_conf.page_size
    first ← get_page_twice frame
    if_some first λ page. do
      n ← or_panic (to_nat? size)
      (if leb (n + delta) page_size
          then (if leb (delta + n) (length page)
              then pure (some (take n (drop delta page)))
              else pure none)
          else (do
            chunk ← or_panic (slice (program.read_all_capacity (length page)) delta page_size page)
            let content = overlay 0 chunk (replicate n 0)
            following ← next_page_mmu program base
            if_some following λ (next, next_frame). do
              second ← get_page_twice next_frame
              if_some second λ found.
                  read_memory_rest (n + 1) next found delta (n - (page_size - delta)) page_size
                    content))

  -- ReadMemory with CacheEnable.
  unfoldable pub read_memory_cached : List ℕ → ℕ → ℕ → ℤ → Run S (Option (List ℕ))
  unfolding is_in_cache get_page_in_memory add_entry_cache read_cache send_exit
  read_memory_cached base delta frame size = do
    c ← get
    (if is_in_cache base c.cache.entries then pure tt else do
      content ← get_page_in_memory program frame
      add_entry_cache program base (content_or_nil program content))
    content ← read_cache program (base ++ delta ∷ []) size
    or_exit content

  -- ReadMemory. The bytes go to the log alone; `none` is the result -1, and the rest is 0.
  unfoldable pub read_memory : List ℕ → ℤ → Run S (Option (List ℕ))
  unfolding traducir_page send_exit read_memory_direct read_memory_cached
  read_memory logic_addr size = do
    (base, delta) ← or_panic (split_address logic_addr)
    c ← get
    first ← traducir_page program base c.pid
    second ← translated_again base c.pid first
    translated ← or_exit second
    if_some translated λ frame.
        if c.cache_enable
        then read_memory_cached base delta frame size
        else read_memory_direct base delta frame size
