-- ===== src/Cpu/KeepingCache.antt =====
-- The same for CLOCK, CLOCK-M and ReadCache of cpu/memory/cache.go, and NextPageMMU.
use tp_sisop_go_utn.Cpu.Buffers.{slice, smaller}
use tp_sisop_go_utn.Cpu.Cache.{
  use_cache, search_page_in_cache, clock_m_sweep, hand, fill, is_in_cache, finished, replace,
  set_entries, Sweep, add_entry_cache, add_entry_cache_clock, add_entry_cache_clock_m, victim,
  out_of_range, passed, clock_sweep,
}
use tp_sisop_go_utn.Cpu.State.{split_address, CacheEntry, Run, Cpu}
use tp_sisop_go_utn.Cpu.CacheAccess.{
  added_page, found_page, read_cache, read_cache_rest, with_frame, cached_as, change_entries,
  if_some, if_true, written_or_false, ensure_cached, next_page_mmu,
}
use tp_sisop_go_utn.Base.{
  zero, ◌+◌, to_nat?, get_elem?, ◌==◌, ◌-◌, suc, length, leb, ℤ, ◌++◌, Bool, some, Option, false,
  List, none, true, ℕ, ◌<◌, ◌≡◌, ◌≢◌, arith, refl, ◌∙◌, ◌∷◌, [],
}
use tp_sisop_go_utn.Cpu.Keeping.{
  Keeps-traducir_page, Keeps-get_page, Keeps-or_panic, Keeps-save_page, Keeps-bind, Keeps-if,
  Keeps-pure, Keeps-get, Keeps, Blind, Keeps-test,
}
use tp_sisop_go_utn.Cpu.Clock.{clock_sweep-Victim, count_busy-le, hand_inside}
use tp_sisop_go_utn.Cpu.Address.{sum}
use tp_sisop_go_utn.Cpu.Memory.{MemoryProgram}
use tp_sisop_go_utn.Base.Outcome.{crash}

-- CLOCK has rounds enough.
clock_ends :
    (es : List CacheEntry) (i : ℕ) (fs : List CacheEntry)
    → clock_sweep (length es + 1) (hand es) es ≢ passed i fs
unfolding clock_sweep
clock_ends [] i fs e = absurd (cc)
clock_ends (e ∷ es) i fs h =
    let all = e ∷ es in
    let found =
      clock_sweep-Victim (length all + 1) (hand all) all (omega (arith, count_busy-le all))
        (hand_inside all (omega arith)) in
    absurd (cc (h, found.ends))

-- What is left gets less with each chunk.
pub chunk_left :
    (page_size left fuel : ℕ)
    → 0 < page_size
    → left < suc fuel
    → (left - smaller page_size left == 0) ≡ false
    → left - smaller page_size left < fuel
chunk_left page_size left fuel pos enough more = ground (arith, pos, enough, more)

module _ {S X : Type 0} (view : Cpu S → X) (v : X) (program : MemoryProgram S) (blind : Blind view)
    (positive : (c : Cpu S) → view c ≡ v → 0 < c.memory_conf.page_size) where
  pub Keeps-change :
      (f : List CacheEntry → List CacheEntry) → Keeps view v (change_entries program f)
  Keeps-change f = record { keeps = λ c h. blind.on_cache c _ ∙ h }

  pub Keeps-set : (es : List CacheEntry) → Keeps view v (set_entries program es)
  Keeps-set es = record { keeps = λ c h. blind.on_cache c _ ∙ h }

  Keeps-crash : {A : Type 0} → Keeps view v (crash {A = A})
  Keeps-crash = record { keeps = λ c h. tt }

  Keeps-replace :
      (page content : List ℕ) (s : Sweep) → Keeps view v (replace program page content s)
  Keeps-replace page content out_of_range = Keeps-crash
  Keeps-replace page content (passed i es) = Keeps-set es
  Keeps-replace page content (victim i e es) =
      Keeps-bind view v (Keeps-save_page view v program blind e.content e.page e.pid)
        λ ok. Keeps-get view v λ c h. Keeps-set (fill i page content c.pid e es)

  Keeps-finished :
      (s : Sweep)
      → ((i : ℕ) (es : List CacheEntry) → s ≢ passed i es)
      → Keeps view v (finished program s)
  Keeps-finished out_of_range n = Keeps-pure view v out_of_range
  Keeps-finished (passed i es) n = absurd (n i es refl)
  Keeps-finished (victim i e es) n = Keeps-pure view v (victim i e es)

  Keeps-clock : (page content : List ℕ) → Keeps view v (add_entry_cache_clock program page content)
  unfolding add_entry_cache_clock
  Keeps-clock page content = Keeps-get view v λ c h.
      let es = c.cache.entries in
      Keeps-bind view v (Keeps-finished (clock_sweep (length es + 1) (hand es) es) (clock_ends es))
        λ s. Keeps-replace page content s

  Keeps-clock_m :
      (page content : List ℕ) → Keeps view v (add_entry_cache_clock_m program page content)
  unfolding add_entry_cache_clock_m
  Keeps-clock_m page content = Keeps-get view v λ c h.
      let es = c.cache.entries in
      Keeps-bind view v (Keeps-or_panic view v (get_elem? es (hand es)))
        λ e. Keeps-replace page content (clock_m_sweep 3 (hand es) es)

  pub Keeps-add_entry :
      (page content : List ℕ) → Keeps view v (add_entry_cache program page content)
  unfolding add_entry_cache
  Keeps-add_entry page content = Keeps-get view v λ c h.
      Keeps-if view v c.cache.is_clock (Keeps-clock page content) (Keeps-clock_m page content)

  pub Keeps-next_page : (page : List ℕ) → Keeps view v (next_page_mmu program page)
  unfolding next_page_mmu
  Keeps-next_page page = Keeps-get view v λ c h.
      Keeps-bind view v (Keeps-or_panic view v (sum c.memory_conf.entries_per_page page)) λ next.
        Keeps-bind view v (Keeps-traducir_page view v program blind next c.pid)
          λ frame. Keeps-pure view v (with_frame program next frame)

  Keeps-cached_as : (page : List ℕ) (r : Option (List ℕ)) → Keeps view v (cached_as program page r)
  Keeps-cached_as page none = Keeps-pure view v false
  Keeps-cached_as page (some content) =
      Keeps-bind view v (Keeps-add_entry page content) λ u. Keeps-pure view v true

  pub Keeps-ensure : (page : List ℕ) (frame : ℕ) → Keeps view v (ensure_cached program page frame)
  unfolding ensure_cached
  Keeps-ensure page frame = Keeps-get view v λ c h.
      Keeps-if view v (is_in_cache page c.cache.entries) (Keeps-pure view v true)
        (Keeps-bind view v (Keeps-get_page view v program blind frame) λ r. Keeps-cached_as page r)

  pub Keeps-if_some :
      {A B : Type 0} {f : A → Run S (Option B)} (o : Option A)
      → ((a : A) → Keeps view v (f a))
      → Keeps view v (if_some o f)
  Keeps-if_some none k = Keeps-pure view v none
  Keeps-if_some (some a) k = k a

  pub Keeps-or_false :
      {A : Type 0} {f : A → Run S Bool} (o : Option A)
      → ((a : A) → Keeps view v (f a))
      → Keeps view v (written_or_false program o f)
  Keeps-or_false none k = Keeps-pure view v false
  Keeps-or_false (some a) k = k a

  pub Keeps-if_true : {m : Run S Bool} (b : Bool) → Keeps view v m → Keeps view v (if_true b m)
  Keeps-if_true true k = k
  Keeps-if_true false k = Keeps-pure view v false

  Keeps-added_page :
      (page : List ℕ) (r : Option (List ℕ)) → Keeps view v (added_page program page r)
  Keeps-added_page page none = Keeps-pure view v none
  Keeps-added_page page (some content) =
      Keeps-bind view v (Keeps-add_entry page content) λ u. Keeps-pure view v _

  Keeps-found_page :
      (page : List ℕ) (frame : ℕ) (r : Option (List ℕ))
      → Keeps view v (found_page program page frame r)
  Keeps-found_page page frame (some content) = Keeps-pure view v _
  Keeps-found_page page frame none =
      Keeps-bind view v (Keeps-get_page view v program blind frame) λ r. Keeps-added_page page r

  Keeps-read_rest :
      (fuel frame : ℕ) (page : List ℕ) (left : ℕ) (bytes : List ℕ)
      → left < fuel
      → Keeps view v (read_cache_rest program fuel frame page left bytes)
  unfolding read_cache_rest
  Keeps-read_rest zero frame page left bytes enough = absurd (omega arith)
  Keeps-read_rest (suc fuel) frame page left bytes enough = Keeps-get view v λ c h.
      let size = smaller c.memory_conf.page_size left in
      Keeps-bind view v (Keeps-found_page page frame (search_page_in_cache page c.cache.entries))
        λ found. Keeps-if_some found λ (content, capacity).
          Keeps-bind view v (Keeps-or_panic view v (slice capacity 0 size content)) λ chunk.
            Keeps-bind view v (Keeps-change (use_cache page)) λ u.
              Keeps-test view v (left - size == 0) (Keeps-pure view v (some (bytes ++ chunk)))
                λ more. Keeps-bind view v (Keeps-next_page page) λ following.
                  Keeps-if_some following λ (next, next_frame).
                    Keeps-bind view v (Keeps-ensure next next_frame) λ ready.
                      Keeps-if view v ready
                        (Keeps-read_rest fuel frame next (left - size) (bytes ++ chunk)
                          (chunk_left c.memory_conf.page_size left fuel (positive c h) enough more))
                        (Keeps-pure view v none)

  pub Keeps-read_cache : (addr : List ℕ) (size : ℤ) → Keeps view v (read_cache program addr size)
  unfolding read_cache
  Keeps-read_cache addr size =
      Keeps-bind view v (Keeps-or_panic view v (split_address addr)) λ (base, delta).
        Keeps-get view v λ c h.
          let page_size = c.memory_conf.page_size in
          Keeps-if_some (search_page_in_cache base c.cache.entries) λ page.
            Keeps-bind view v (Keeps-or_panic view v (to_nat? size)) λ n.
              Keeps-if view v (leb (n + delta) page_size)
                (Keeps-bind view v (Keeps-change (use_cache base)) λ u.
                  Keeps-bind view v
                    (Keeps-or_panic view v (slice (length page) delta (delta + n) page))
                    λ content. Keeps-pure view v (some content))
                (Keeps-bind view v
                  (Keeps-or_panic view v (slice (length page) delta page_size page))
                  λ chunk. Keeps-bind view v (Keeps-change (use_cache base)) λ u.
                    Keeps-bind view v (Keeps-next_page base) λ following.
                      Keeps-if_some following λ (next, frame).
                        Keeps-bind view v (Keeps-ensure next frame) λ ready.
                          Keeps-if view v ready
                            (Keeps-read_rest (n + 1) frame next (n - (page_size - delta)) chunk
                              (omega arith))
                            (Keeps-pure view v none))
