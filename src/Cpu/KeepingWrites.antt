-- ===== src/Cpu/KeepingWrites.antt =====
-- The same for WriteCache and EndProcess of cpu/memory/cache.go.
use tp_sisop_go_utn.Cpu.KeepingCache.{
  Keeps-if_true, Keeps-ensure, Keeps-next_page, Keeps-or_false, Keeps-add_entry, Keeps-change,
  chunk_left, Keeps-set,
}
use tp_sisop_go_utn.Cpu.Cache.{modify_cache, search_page_in_cache}
use tp_sisop_go_utn.Cpu.CacheAccess.{
  released, content_or_nil, owned_by, fetched, page_to_write, write_found, end_entries, end_process,
  write_cache, write_cache_rest,
}
use tp_sisop_go_utn.Cpu.Keeping.{
  Keeps-look_up, Keeps-traducir_page, Keeps-save_page, Keeps-get_page, Keeps-if, Keeps-traducir,
  Keeps-or_panic, Keeps-pure, Keeps-bind, Keeps-get, Keeps, Blind, Keeps-test,
}
use tp_sisop_go_utn.Cpu.Buffers.{copy_at, smaller}
use tp_sisop_go_utn.Cpu.State.{split_address, CacheEntry, Cpu}
use tp_sisop_go_utn.Cpu.Memory.{MemoryProgram}
use tp_sisop_go_utn.Base.{
  ◌∷◌, [], ℕ, ◌-◌, if◌then◌else◌, ◌==◌, take, Option, some, List, zero, true, length, Bool, ◌++◌,
  suc, none, leb, ◌+◌, drop, false, ◌≡◌, ◌<◌, arith, length-drop,
}

-- The same of a value that is written chunk by chunk.
pub dropped_left :
    (page_size : ℕ) (value : List ℕ) (fuel : ℕ)
    → 0 < page_size
    → length value < suc fuel
    → (length value - smaller page_size (length value) == 0) ≡ false
    → length (drop (smaller page_size (length value)) value) < fuel
dropped_left page_size value fuel pos enough more =
    let size = smaller page_size (length value) in
    omega (arith, length-drop size value, chunk_left page_size (length value) fuel pos enough more)

module _ {S X : Type 0} (view : Cpu S → X) (v : X) (program : MemoryProgram S) (blind : Blind view)
    (positive : (c : Cpu S) → view c ≡ v → 0 < c.memory_conf.page_size) where
  Keeps-write_found :
      (b : Bool) (page : List ℕ) (delta : ℕ) (value content : List ℕ)
      → Keeps view v (write_found program b page delta value content)
  Keeps-write_found b page delta value content =
      Keeps-bind view v (Keeps-or_panic view v (copy_at delta value content))
        λ u. Keeps-change view v program blind positive _

  Keeps-fetched : (page : List ℕ) (r : Option ℕ) → Keeps view v (fetched program page r)
  Keeps-fetched page none = Keeps-pure view v none
  Keeps-fetched page (some frame) =
      Keeps-bind view v (Keeps-get_page view v program blind frame) λ content.
        Keeps-bind view v
          (Keeps-add_entry view v program blind positive page (content_or_nil program content))
          λ u. Keeps-pure view v _

  Keeps-page_to_write :
      (page addr : List ℕ) (r : Option (List ℕ)) → Keeps view v (page_to_write program page addr r)
  Keeps-page_to_write page addr (some content) = Keeps-pure view v _
  Keeps-page_to_write page addr none = Keeps-get view v λ c h.
      Keeps-bind view v (Keeps-traducir view v program blind addr c.pid)
        λ frame. Keeps-fetched page frame

  Keeps-write_rest :
      (fuel : ℕ) (page value : List ℕ)
      → length value < fuel
      → Keeps view v (write_cache_rest program fuel page value)
  unfolding write_cache_rest
  Keeps-write_rest zero page value enough = absurd (omega arith)
  Keeps-write_rest (suc fuel) page value enough = Keeps-get view v λ c h.
      let size = smaller c.memory_conf.page_size (length value) in
      Keeps-bind view v (Keeps-page_to_write page page (search_page_in_cache page c.cache.entries))
        λ target. Keeps-or_false view v program blind positive target λ (in_cache, content).
          Keeps-bind view v (Keeps-write_found in_cache page 0 (take size value) content) λ u.
            Keeps-bind view v (Keeps-traducir_page view v program blind page c.pid) λ f.
              Keeps-bind view v (Keeps-change view v program blind positive (modify_cache page))
                λ w. Keeps-test view v (length value - size == 0) (Keeps-pure view v true) λ more.
                  Keeps-bind view v (Keeps-next_page view v program blind positive page)
                    λ following.
                      Keeps-or_false view v program blind positive following λ (next, frame).
                        Keeps-bind view v (Keeps-ensure view v program blind positive next frame)
                          λ ready. Keeps-if_true view v program blind positive ready (
                            Keeps-write_rest fuel next (drop size value) (
                              dropped_left c.memory_conf.page_size value fuel (positive c h) enough
                                more))

  pub Keeps-write_cache : (addr value : List ℕ) → Keeps view v (write_cache program addr value)
  unfolding write_cache
  Keeps-write_cache addr value =
      Keeps-bind view v (Keeps-or_panic view v (split_address addr)) λ (base, delta).
        Keeps-get view v λ c h.
          let page_size = c.memory_conf.page_size in
          Keeps-bind view v
            (Keeps-page_to_write base addr (search_page_in_cache base c.cache.entries))
            λ target. Keeps-or_false view v program blind positive target λ (in_cache, content).
              Keeps-if view v (leb (length value + delta) page_size)
                (Keeps-bind view v (Keeps-write_found in_cache base delta value content) λ u.
                  Keeps-bind view v (Keeps-look_up view v program blind base c.pid) λ f.
                    Keeps-bind view v
                      (Keeps-change view v program blind positive (modify_cache base))
                      λ w. Keeps-pure view v true)
                (Keeps-bind view v
                  (Keeps-or_panic view v (if leb delta page_size then some tt else none))
                  λ w.
                    Keeps-bind view v
                      (Keeps-write_found in_cache base delta (take (page_size - delta) value)
                        content)
                      λ u. Keeps-bind view v (Keeps-look_up view v program blind base c.pid) λ f.
                        Keeps-bind view v
                          (Keeps-change view v program blind positive (modify_cache base))
                          λ w.
                            Keeps-bind view v (Keeps-next_page view v program blind positive base)
                              λ following.
                                Keeps-or_false view v program blind positive following
                                  λ (next, frame).
                                    Keeps-bind view v
                                      (Keeps-ensure view v program blind positive next frame)
                                      λ ready. Keeps-if_true view v program blind positive ready (
                                        Keeps-write_rest (length value + 1) next
                                          (drop (page_size - delta) value)
                                          (omega (arith, length-drop (page_size - delta) value))))

  Keeps-end_entries : (pid : ℕ) (es : List CacheEntry) → Keeps view v (end_entries program pid es)
  unfolding end_entries
  Keeps-end_entries pid [] = Keeps-pure view v []
  Keeps-end_entries pid (e ∷ es) =
      Keeps-bind view v
        (Keeps-if view v (owned_by program pid e.pid)
          (Keeps-if view v e.modified
            (Keeps-bind view v (Keeps-save_page view v program blind e.content e.page e.pid)
              λ ok. Keeps-pure view v (if ok then released program ∷ [] else []))
            (Keeps-pure view v (released program ∷ [])))
          (Keeps-pure view v (e ∷ [])))
        λ kept.
          Keeps-bind view v (Keeps-end_entries pid es) λ rest. Keeps-pure view v (kept ++ rest)

  pub Keeps-end_process : (pid : ℕ) → Keeps view v (end_process program pid)
  unfolding end_process
  Keeps-end_process pid = Keeps-get view v λ c h.
      Keeps-bind view v (Keeps-end_entries pid c.cache.entries)
        λ es. Keeps-set view v program blind positive es
