-- ===== src/Cpu/KeepingMmu.antt =====
-- WriteMemory and ReadMemory of cpu/memory/mmu.go: they end, and what they leave alone.
use tp_sisop_go_utn.Cpu.KeepingWrites.{dropped_left, Keeps-write_cache}
use tp_sisop_go_utn.Cpu.KeepingCache.{
  Keeps-add_entry, Keeps-if_some, Keeps-next_page, Keeps-or_false, Keeps-read_cache,
}
use tp_sisop_go_utn.Cpu.Keeping.{
  Blind, Keeps, Keeps-bind, Keeps-get, Keeps-get_page, Keeps-if, Keeps-or_panic, Keeps-pure,
  Keeps-save_page, Keeps-test, Keeps-traducir_page, Left,
}
use tp_sisop_go_utn.Cpu.Mmu.{
  copy_read, fetched_again, get_page_twice, or_exit, read_memory, read_memory_cached,
  read_memory_direct, read_memory_rest, send_exit, translated_again, write_memory,
  write_memory_cached, write_memory_direct, write_memory_rest,
}
use tp_sisop_go_utn.Cpu.CacheAccess.{content_or_nil}
use tp_sisop_go_utn.Cpu.Cache.{is_in_cache}
use tp_sisop_go_utn.Cpu.Buffers.{copy_at, overlay, slice, smaller}
use tp_sisop_go_utn.Cpu.Memory.{MemoryProgram}
use tp_sisop_go_utn.Cpu.State.{channel_full, Cpu, split_address}
use tp_sisop_go_utn.Base.Outcome.{done, fail}
use tp_sisop_go_utn.Base.{
  ◌++◌, ◌+◌, ◌-◌, ◌<◌, ◌==◌, ◌≡◌, ◌∙◌, ◌∷◌, [], arith, Bool, drop, false, if◌then◌else◌, leb,
  length, length-drop, List, none, Option, replicate, some, suc, take, to_nat?, true, zero, ℕ, ℤ,
}

-- The loop of ReadMemory has its sizes the other way round.
left_of_chunk :
    (page_size left fuel : ℕ)
    → 0 < page_size
    → left < suc fuel
    → (left - smaller left page_size == 0) ≡ false
    → left - smaller left page_size < fuel
left_of_chunk page_size left fuel pos enough more = ground (arith, pos, enough, more)

module _ {S X : Type 0} (view : Cpu S → X) (v : X) (program : MemoryProgram S) (blind : Blind view)
    (positive : (c : Cpu S) → view c ≡ v → 0 < c.memory_conf.page_size) where
  Keeps-direct_rest :
      (fuel : ℕ) (page : List ℕ) (frame : ℕ) (value : List ℕ)
      → length value < fuel
      → Keeps view v (write_memory_rest program fuel page frame value)
  unfolding write_memory_rest
  Keeps-direct_rest zero page frame value enough = absurd (omega arith)
  Keeps-direct_rest (suc fuel) page frame value enough = Keeps-get view v λ c h.
      let size = smaller c.memory_conf.page_size (length value) in
      Keeps-bind view v (Keeps-get_page view v program blind frame) λ found.
        Keeps-or_false view v program blind positive found λ content.
          Keeps-bind view v (Keeps-traducir_page view v program blind page c.pid) λ f.
            Keeps-bind view v
              (Keeps-save_page view v program blind (overlay 0 (take size value) content) page
                (some c.pid))
              λ ok. Keeps-test view v (length value - size == 0) (Keeps-pure view v true) λ more.
                Keeps-bind view v (Keeps-next_page view v program blind positive page) λ following.
                  Keeps-or_false view v program blind positive following λ (next, next_frame).
                    Keeps-direct_rest fuel next next_frame (drop size value)
                      (dropped_left c.memory_conf.page_size value fuel (positive c h) enough more)

  Keeps-write_cached :
      (base : List ℕ) (delta : ℕ) (value : List ℕ)
      → Keeps view v (write_memory_cached program base delta value)
  unfolding write_memory_cached
  Keeps-write_cached base delta value = Keeps-get view v λ c h.
      let write =
        Keeps-bind view v
          (Keeps-write_cache view v program blind positive (base ++ delta ∷ []) value)
          λ ok. Keeps-pure view v true in
      Keeps-if view v (is_in_cache base c.cache.entries) write (
        Keeps-bind view v (Keeps-traducir_page view v program blind base c.pid) λ translated.
          Keeps-or_false view v program blind positive translated λ frame.
            Keeps-bind view v (Keeps-get_page view v program blind frame) λ found.
              Keeps-or_false view v program blind positive found λ content.
                Keeps-bind view v (Keeps-add_entry view v program blind positive base content)
                  λ u. write)

  Keeps-write_direct :
      (base : List ℕ) (delta : ℕ) (value : List ℕ)
      → Keeps view v (write_memory_direct program base delta value)
  unfolding write_memory_direct
  Keeps-write_direct base delta value = Keeps-get view v λ c h.
      let page_size = c.memory_conf.page_size in
      Keeps-bind view v (Keeps-traducir_page view v program blind base c.pid) λ translated.
        Keeps-or_false view v program blind positive translated λ frame.
          Keeps-bind view v (Keeps-get_page view v program blind frame) λ found.
            Keeps-or_false view v program blind positive found λ content.
              Keeps-if view v (leb (length value + delta) page_size)
                (Keeps-bind view v (Keeps-or_panic view v (copy_at delta value content)) λ page.
                  Keeps-bind view v (Keeps-save_page view v program blind page base (some c.pid))
                    λ ok. Keeps-pure view v true)
                (Keeps-bind view v
                  (Keeps-or_panic view v (if leb delta page_size then some tt else none))
                  λ w.
                    Keeps-bind view v
                      (Keeps-or_panic view v
                        (copy_at delta (take (page_size - delta) value) content))
                      λ page.
                        Keeps-bind view v
                          (Keeps-save_page view v program blind page base (some c.pid))
                          λ ok.
                            Keeps-bind view v (Keeps-next_page view v program blind positive base)
                              λ following.
                                Keeps-or_false view v program blind positive following
                                  λ (next, next_frame).
                                    Keeps-direct_rest (length value + 1) next next_frame
                                      (drop (page_size - delta) value)
                                      (omega (arith, length-drop (page_size - delta) value)))

  pub Keeps-write_memory : (addr value : List ℕ) → Keeps view v (write_memory program addr value)
  unfolding write_memory
  Keeps-write_memory addr value =
      Keeps-bind view v (Keeps-or_panic view v (split_address addr)) λ (base, delta).
        Keeps-get view v λ c h.
          Keeps-if view v c.cache_enable (Keeps-write_cached base delta value)
            (Keeps-write_direct base delta value)

  pub Keeps-send_exit : Keeps view v (send_exit program)
  unfolding send_exit
  Keeps-send_exit = record { keeps = λ c h. sent c h c.exit_pending }
    where
      sent :
          (c : Cpu S)
          → view c ≡ v
          → (b : Bool)
          → Left view v
              (if b then fail channel_full c else done tt (record c { exit_pending = true }))
      sent c h true = λ e. absurd (cc)
      sent c h false = blind.on_exit c true ∙ h

  Keeps-or_exit : {A : Type 0} (o : Option A) → Keeps view v (or_exit program o)
  Keeps-or_exit (some a) = Keeps-pure view v (some a)
  Keeps-or_exit none = Keeps-bind view v Keeps-send_exit λ u. Keeps-pure view v none

  Keeps-translated_again :
      (base : List ℕ) (pid : ℕ) (o : Option ℕ) → Keeps view v (translated_again program base pid o)
  Keeps-translated_again base pid (some frame) = Keeps-pure view v (some frame)
  Keeps-translated_again base pid none = Keeps-traducir_page view v program blind base pid

  Keeps-fetched_again :
      (frame : ℕ) (o : Option (List ℕ)) → Keeps view v (fetched_again program frame o)
  Keeps-fetched_again frame (some content) = Keeps-pure view v (some content)
  Keeps-fetched_again frame none = Keeps-get_page view v program blind frame

  Keeps-page_twice : (frame : ℕ) → Keeps view v (get_page_twice program frame)
  unfolding get_page_twice
  Keeps-page_twice frame =
      Keeps-bind view v (Keeps-get_page view v program blind frame)
        λ first. Keeps-fetched_again frame first

  Keeps-memory_rest :
      (fuel : ℕ) (page found : List ℕ) (delta left leido : ℕ) (content : List ℕ)
      → left < fuel
      → Keeps view v (read_memory_rest program fuel page found delta left leido content)
  unfolding read_memory_rest
  Keeps-memory_rest zero page found delta left leido content enough = absurd (omega arith)
  Keeps-memory_rest (suc fuel) page found delta left leido content enough = Keeps-get view v λ c h.
      let n = smaller left c.memory_conf.page_size in
      Keeps-bind view v
        (Keeps-or_panic view v (
          copy_read program leido content
            (slice (program.read_all_capacity (length found)) delta (delta + n) found)))
        λ read. Keeps-test view v (left - n == 0) (Keeps-pure view v (some read)) λ more.
          Keeps-bind view v (Keeps-next_page view v program blind positive page) λ following.
            Keeps-if_some view v program blind positive following λ (next, frame).
              Keeps-bind view v (Keeps-page_twice frame) λ again.
                Keeps-if_some view v program blind positive again λ next_found.
                  Keeps-memory_rest fuel next next_found delta (left - n) (leido + n) read
                    (left_of_chunk c.memory_conf.page_size left fuel (positive c h) enough more)

  Keeps-read_direct :
      (base : List ℕ) (delta frame : ℕ) (size : ℤ)
      → Keeps view v (read_memory_direct program base delta frame size)
  unfolding read_memory_direct
  Keeps-read_direct base delta frame size = Keeps-get view v λ c h.
      let page_size = c.memory_conf.page_size in
      Keeps-bind view v (Keeps-page_twice frame) λ first.
        Keeps-if_some view v program blind positive first λ page.
          Keeps-bind view v (Keeps-or_panic view v (to_nat? size)) λ n.
            Keeps-if view v (leb (n + delta) page_size)
              (Keeps-if view v (leb (delta + n) (length page))
                (Keeps-pure view v (some (take n (drop delta page)))) (Keeps-pure view v none))
              (Keeps-bind view v
                (Keeps-or_panic view v
                  (slice (program.read_all_capacity (length page)) delta page_size page))
                λ chunk.
                  Keeps-bind view v (Keeps-next_page view v program blind positive base)
                    λ following.
                      Keeps-if_some view v program blind positive following λ (next, next_frame).
                        Keeps-bind view v (Keeps-page_twice next_frame) λ second.
                          Keeps-if_some view v program blind positive second λ found.
                            Keeps-memory_rest (n + 1) next found delta (n - (page_size - delta))
                              page_size (overlay 0 chunk (replicate n 0)) (omega arith))

  Keeps-read_cached :
      (base : List ℕ) (delta frame : ℕ) (size : ℤ)
      → Keeps view v (read_memory_cached program base delta frame size)
  unfolding read_memory_cached
  Keeps-read_cached base delta frame size = Keeps-get view v λ c h.
      Keeps-bind view v
        (Keeps-if view v (is_in_cache base c.cache.entries) (Keeps-pure view v tt) (
          Keeps-bind view v (Keeps-get_page view v program blind frame) λ content.
            Keeps-add_entry view v program blind positive base (content_or_nil program content)))
        λ u.
          Keeps-bind view v
            (Keeps-read_cache view v program blind positive (base ++ delta ∷ []) size)
            λ content. Keeps-or_exit content

  pub Keeps-read_memory : (addr : List ℕ) (size : ℤ) → Keeps view v (read_memory program addr size)
  unfolding read_memory
  Keeps-read_memory addr size =
      Keeps-bind view v (Keeps-or_panic view v (split_address addr)) λ (base, delta).
        Keeps-get view v λ c h.
          Keeps-bind view v (Keeps-traducir_page view v program blind base c.pid) λ first.
            Keeps-bind view v (Keeps-translated_again base c.pid first) λ second.
              Keeps-bind view v (Keeps-or_exit second) λ translated.
                Keeps-if_some view v program blind positive translated λ frame.
                  Keeps-if view v c.cache_enable (Keeps-read_cached base delta frame size)
                    (Keeps-read_direct base delta frame size)
