-- ===== src/Cpu/Cache.antt =====
-- cpu/memory/cache.go: the entries of the page cache, and the replacement by CLOCK and CLOCK-M.
use tp_sisop_go_utn.Cpu.Memory.{save_page_in_memory, MemoryProgram}
use tp_sisop_go_utn.Cpu.State.{Run, Cache, CacheEntry, out_of_fuel}
use tp_sisop_go_utn.Cpu.Tlb.{are_slices_equal}
use tp_sisop_go_utn.Base.{
  ◌||◌, ℕ, ◌∷◌, replicate, ◌%◌, suc, Bool, if◌then◌else◌, none, some, Option, [], set, length, List,
  false, ◌+◌, true, get_elem?, zero, not, ◌&&◌,
}
use tp_sisop_go_utn.Base.Outcome.{◌>>=◌, get, modify, pure, throw, crash, or_panic}

-- SearchPageInCache. The loop writes to copies of the entries, so that the cache stays the same.
unfoldable pub search_page_in_cache : List ℕ → List CacheEntry → Option (List ℕ)
unfolding are_slices_equal
search_page_in_cache logic_addr [] = none
search_page_in_cache logic_addr (e ∷ es) =
    if are_slices_equal e.page logic_addr
    then some e.content
    else search_page_in_cache logic_addr es

-- IsInCache
unfoldable pub is_in_cache : List ℕ → List CacheEntry → Bool
unfolding are_slices_equal
is_in_cache logic_addr [] = false
is_in_cache logic_addr (e ∷ es) = are_slices_equal e.page logic_addr || is_in_cache logic_addr es

-- A write to the first entry with this page.
unfoldable pub update_page : List ℕ → (CacheEntry → CacheEntry) → List CacheEntry → List CacheEntry
unfolding are_slices_equal
update_page logic_addr f [] = []
update_page logic_addr f (e ∷ es) =
    if are_slices_equal e.page logic_addr then f e ∷ es else e ∷ update_page logic_addr f es

-- ModifyCache
unfoldable pub modify_cache : List ℕ → List CacheEntry → List CacheEntry
unfolding update_page
modify_cache logic_addr = update_page logic_addr (λ e. record e { modified = true })

-- UseCache
unfoldable pub use_cache : List ℕ → List CacheEntry → List CacheEntry
unfolding update_page
use_cache logic_addr = update_page logic_addr (λ e. record e { used = true })

-- NoUsedAndNoModifiedCache
unfoldable pub no_used_and_no_modified_cache : List CacheEntry → Bool
no_used_and_no_modified_cache [] = true
no_used_and_no_modified_cache (e ∷ es) =
    not (e.used && e.modified) && no_used_and_no_modified_cache es

abbrev pub empty_entry : ℕ → CacheEntry
empty_entry page_size = record {
  page = [];
  content = replicate page_size 0;
  used = false;
  modified = false;
  position = false;
  pid = none;
}

-- InitCache, for at least one entry.
unfoldable pub init_cache : ℕ → Bool → ℕ → Option Cache
init_cache zero is_clock page_size = none
init_cache (suc n) is_clock page_size = some (record {
  entries =
      record (empty_entry page_size) { position = true } ∷ replicate n (empty_entry page_size);
  capacity = suc n;
  is_clock = is_clock;
})

-- ClearCache
unfoldable pub clear_cache : Cache → Cache
clear_cache c = record c { entries = [] }

-- The first entry that holds the hand, by the loop at the start of both algorithms; 0 if none does.
unfoldable pub hand_from : ℕ → List CacheEntry → Option ℕ
hand_from i [] = none
hand_from i (e ∷ es) = if e.position then some i else hand_from (i + 1) es

abbrev pub hand_or_zero : Option ℕ → ℕ
hand_or_zero none = 0
hand_or_zero (some i) = i

unfoldable pub hand : List CacheEntry → ℕ
unfolding hand_from
hand es = hand_or_zero (hand_from 0 es)

-- The entry at `i` gives the hand to the next one.
abbrev pub next_position : ℕ → List CacheEntry → ℕ
next_position i es = (i + 1) % length es

unfoldable pub give_hand : ℕ → List CacheEntry → List CacheEntry
give_hand i [] = []
give_hand zero (e ∷ es) = record e { position = true } ∷ es
give_hand (suc i) (e ∷ es) = e ∷ give_hand i es

abbrev pub leave : ℕ → CacheEntry → List CacheEntry → List CacheEntry
leave i e es = give_hand (next_position i es) (set es i (record e { position = false }))

-- How a search for a victim ends: at an entry, beyond the entries, or with every round used up.
pub data Sweep : Type 0 where
  victim : ℕ → CacheEntry → List CacheEntry → Sweep
  out_of_range : Sweep
  passed : ℕ → List CacheEntry → Sweep

-- An entry that CLOCK takes: an empty one, or one that is not in use.
abbrev pub is_free : CacheEntry → Bool
is_free e = elim e.pid [ none ↦ true | some p ↦ not e.used ]

abbrev pub or_out : Option CacheEntry → (CacheEntry → Sweep) → Sweep
or_out none f = out_of_range
or_out (some e) f = f e

-- The loop of AddEntryCacheClock from `position` on, for so many rounds.
unfoldable pub clock_sweep : ℕ → ℕ → List CacheEntry → Sweep
unfolding give_hand
clock_sweep zero i es = passed i es
clock_sweep (suc rounds) i es = or_out (get_elem? es i) λ e.
    let rest = clock_sweep rounds (next_position i es) (leave i (record e { used = false }) es) in
    if is_free e then victim i e es else rest

-- A run of CLOCK-M over the entries: it takes one that is not in use and whose `modified` is the
-- one wanted. The run that looks for modified ones also clears the use of what it passes.
abbrev pub passed_by : Bool → CacheEntry → CacheEntry
passed_by true e = record e { used = false }
passed_by false e = e

abbrev pub eq_bool : Bool → Bool → Bool
eq_bool true b = b
eq_bool false b = not b

unfoldable pub clock_m_pass : Bool → ℕ → ℕ → List CacheEntry → Sweep
unfolding give_hand
clock_m_pass wanted zero i es = passed i es
clock_m_pass wanted (suc rounds) i es = or_out (get_elem? es i) λ e.
    let rest = clock_m_pass wanted rounds (next_position i es) (leave i (passed_by wanted e) es) in
    if eq_bool e.modified wanted && not e.used then victim i e es else rest

abbrev pub after_pass : Sweep → (ℕ → List CacheEntry → Sweep) → Sweep
after_pass (victim i e es) f = victim i e es
after_pass out_of_range f = out_of_range
after_pass (passed i es) f = f i es

-- `for range 3`, both runs in each.
unfoldable pub clock_m_sweep : ℕ → ℕ → List CacheEntry → Sweep
unfolding clock_m_pass
clock_m_sweep zero i es = passed i es
clock_m_sweep (suc rounds) i es =
    after_pass (clock_m_pass false (length es) i es)
      λ j fs. after_pass (clock_m_pass true (length fs) j fs) (clock_m_sweep rounds)

-- The entry at `i` takes a page, and the hand goes on.
unfoldable pub fill : ℕ → List ℕ → List ℕ → ℕ → CacheEntry → List CacheEntry → List CacheEntry
unfolding give_hand
fill i logic_addr content pid e es =
    leave i
      (record {
        page = logic_addr;
        content = content;
        used = true;
        modified = false;
        position = false;
        pid = some pid;
      })
      es

module _ {S : Type 0} (program : MemoryProgram S) where
  abbrev pub set_entries : List CacheEntry → Run S (Unit {0})
  set_entries es = modify (λ c. record c { cache = record c.cache { entries = es } })

  -- The victim is saved and replaced. CLOCK-M that finds none only logs an error.
  abbrev pub replace : List ℕ → List ℕ → Sweep → Run S (Unit {0})
  replace logic_addr content out_of_range = crash
  replace logic_addr content (passed i es) = set_entries es
  replace logic_addr content (victim i e es) = do
    _ ← save_page_in_memory program e.content e.page e.pid
    c ← get
    set_entries (fill i logic_addr content c.pid e es)

  -- AddEntryCacheClock. One round more than there are entries is enough.
  abbrev pub finished : Sweep → Run S Sweep
  finished (passed i es) = throw out_of_fuel
  finished s = pure s

  unfoldable pub add_entry_cache_clock : List ℕ → List ℕ → Run S (Unit {0})
  unfolding clock_sweep hand save_page_in_memory fill
  add_entry_cache_clock logic_addr content = do
    c ← get
    let es = c.cache.entries
    sweep ← finished (clock_sweep (length es + 1) (hand es) es)
    replace logic_addr content sweep

  -- AddEntryCacheClockM. `config.Cache.Entries[position]` before the loops is out of range where
  -- there are no entries.
  unfoldable pub add_entry_cache_clock_m : List ℕ → List ℕ → Run S (Unit {0})
  unfolding clock_m_sweep hand save_page_in_memory fill
  add_entry_cache_clock_m logic_addr content = do
    c ← get
    let es = c.cache.entries
    _ ← or_panic (get_elem? es (hand es))
    replace logic_addr content (clock_m_sweep 3 (hand es) es)

  -- AddEntryCache
  unfoldable pub add_entry_cache : List ℕ → List ℕ → Run S (Unit {0})
  unfolding add_entry_cache_clock add_entry_cache_clock_m
  add_entry_cache logic_addr content = do
    c ← get
    (if c.cache.is_clock
        then add_entry_cache_clock logic_addr content
        else add_entry_cache_clock_m logic_addr content)
