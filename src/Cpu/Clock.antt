-- ===== src/Cpu/Clock.antt =====
-- CLOCK of cpu/memory/cache.go: it ends, and the page that it adds is found.
use tp_sisop_go_utn.Cpu.Marks.{
  outlines-set, outlines-give_hand, count_busy-set, count_busy-give_hand, is_in_cache-outlines,
  length-give_hand, count_busy, outlines, outlines-get_elem?,
}
use tp_sisop_go_utn.Base.Outcome.{◌>>=◌, done}
use tp_sisop_go_utn.Cpu.Cache.{
  fill, add_entry_cache_clock, hand_or_zero, hand, hand_from, search_page_in_cache, is_in_cache,
  next_position, leave, victim, Sweep, clock_sweep, is_free, give_hand,
}
use tp_sisop_go_utn.Cpu.Memory.{save_page_in_memory, MemoryProgram}
use tp_sisop_go_utn.Cpu.State.{Cpu, CacheEntry}
use tp_sisop_go_utn.Cpu.TlbLaws.{are_slices_equal_refl}
use tp_sisop_go_utn.Base.{
  ◌≤◌, Bool, sym, ◌%◌, ◌∙◌, length-set, subst, ◌<◌, inr, true, inl, Bool-cases, none, Option, arith,
  ◌≡◌, if◌then◌else◌, some, get_elem?, set, zero, length, false, [], suc, ℕ, List, ◌∷◌, ap, ◌+◌,
  refl,
}
use tp_sisop_go_utn.Cpu.Tlb.{are_slices_equal}
use native.Mathlib.Nat.{mod-lt}

pub count_busy-le : (es : List CacheEntry) → count_busy es ≤ length es
count_busy-le [] = omega arith
count_busy-le (e ∷ es) = ground (arith, count_busy-le es)

-- How the search for a victim ends well.
pub record Victim (o : Sweep) (before : List CacheEntry) : Type 0 where
  pub index : ℕ
  pub entry : CacheEntry
  pub entries : List CacheEntry
  pub ends : o ≡ victim index entry entries
  pub found : get_elem? entries index ≡ some entry
  pub free : is_free entry ≡ true
  pub same_outlines : outlines entries ≡ outlines before

get_elem?-some :
    (es : List CacheEntry) (i : ℕ) → i < length es → (e : CacheEntry) × (get_elem? es i ≡ some e)
get_elem?-some [] i h = absurd (omega arith)
get_elem?-some (e ∷ es) zero h = (e, refl)
get_elem?-some (e ∷ es) (suc i) h = get_elem?-some es i (omega arith)

pub clock_sweep-Victim :
    (rounds i : ℕ) (es : List CacheEntry)
    → count_busy es < rounds
    → i < length es
    → Victim (clock_sweep rounds i es) es
unfolding clock_sweep
clock_sweep-Victim zero i es enough inside = absurd (omega arith)
clock_sweep-Victim (suc rounds) i es enough inside =
    let (e, found) = get_elem?-some es i inside in
    elim (Bool-cases (is_free e)) [
      | inl free ↦
          rw (found, free)
            (record {
              index = i;
              entry = e;
              entries = es;
              ends = refl;
              found = found;
              free = free;
              same_outlines = refl;
            })
      | inr busy ↦
          let off = record e { used = false; position = false } in
          let next = leave i (record e { used = false }) es in
          let size : length next ≡ length es =
            length-give_hand (next_position i es) (set es i off) ∙ length-set es i off in
          let fewer : suc (count_busy next) ≡ count_busy es =
            ap suc (count_busy-give_hand (next_position i es) (set es i off))
            ∙ count_busy-set i e es found busy in
          let rest =
            clock_sweep-Victim rounds (next_position i es) next (omega (arith, enough, fewer)) (
              subst (λ n. (i + 1) % length es < n) (sym size)
                (mod-lt (i + 1) (omega (arith, inside)))) in
          let alike : outlines next ≡ outlines es =
            outlines-give_hand (next_position i es) (set es i off) ∙ outlines-set i e es found in
          rw (found, busy)
            (record {
              index = rest.index;
              entry = rest.entry;
              entries = rest.entries;
              ends = rest.ends;
              found = rest.found;
              free = rest.free;
              same_outlines = rest.same_outlines ∙ alike;
            })
    ]

-- The entry that holds the hand is one of them.
hand_from-le : (i j : ℕ) (es : List CacheEntry) → hand_from i es ≡ some j → j < i + length es
unfolding hand_from
hand_from-le i j [] h = absurd (cc)
hand_from-le i j (e ∷ es) h = elim (Bool-cases e.position) [
  | inl here ↦ ground (arith, here, h)
  | inr other ↦ omega (arith, hand_from-le (i + 1) j es (ground (arith, other, h)))
]

pub hand_inside : (es : List CacheEntry) → 0 < length es → hand es < length es
unfolding hand
hand_inside es some_entry = within (hand_from 0 es) (λ j. hand_from-le 0 j es)
  where
    within :
        (h : Option ℕ) → ((j : ℕ) → h ≡ some j → j < 0 + length es) → hand_or_zero h < length es
    within none below = some_entry
    within (some j) below = omega (arith, below j refl)

search-set :
    (page : List ℕ) (i : ℕ) (e f : CacheEntry) (es : List CacheEntry)
    → is_in_cache page es ≡ false
    → get_elem? es i ≡ some e
    → f.page ≡ page
    → search_page_in_cache page (set es i f) ≡ some f.content
unfolding is_in_cache search_page_in_cache
search-set page i e f [] absent found named = absurd (cc)
search-set page zero e f (x ∷ es) absent found named =
    let same : are_slices_equal f.page page ≡ true =
      ap (λ p. are_slices_equal p page) named ∙ are_slices_equal_refl page in
    rw same refl
search-set page (suc i) e f (x ∷ es) absent found named =
    elim (Bool-cases (are_slices_equal x.page page)) [
      | inl hit ↦ absurd (ground (arith, hit, absent))
      | inr miss ↦ rw miss (search-set page i e f es (ground (arith, miss, absent)) found named)
    ]

search-give_hand :
    (page : List ℕ) (i : ℕ) (es : List CacheEntry)
    → search_page_in_cache page (give_hand i es) ≡ search_page_in_cache page es
unfolding search_page_in_cache give_hand
search-give_hand page i [] = refl
search-give_hand page zero (e ∷ es) = refl
search-give_hand page (suc i) (e ∷ es) =
    ap (λ r. if are_slices_equal e.page page then some e.content else r)
      (search-give_hand page i es)

search-fill :
    (page content : List ℕ) (i pid : ℕ) (e : CacheEntry) (es : List CacheEntry)
    → is_in_cache page es ≡ false
    → get_elem? es i ≡ some e
    → search_page_in_cache page (fill i page content pid e es) ≡ some content
unfolding fill
search-fill page content i pid e es absent found =
    search-give_hand page _ _ ∙ search-set page i e _ es absent found refl

module _ {S : Type 0} (program : MemoryProgram S) where
  -- SavePageInMemory of an entry of the cache returns.
  abbrev pub Saves : Cpu S → Type 0
  Saves c =
      (i : ℕ) (e : CacheEntry)
      → get_elem? c.cache.entries i ≡ some e
      → (ok : Bool) × (t : Cpu S) × (save_page_in_memory program e.content e.page e.pid c
          ≡ done ok t)

  added :
      (page content : List ℕ) (c : Cpu S) (i : ℕ) (e : CacheEntry) (es : List CacheEntry)
      (ok : Bool) (s : Cpu S)
      → clock_sweep (length c.cache.entries + 1) (hand c.cache.entries) c.cache.entries
        ≡ victim i e es
      → save_page_in_memory program e.content e.page e.pid c ≡ done ok s
      → add_entry_cache_clock program page content c
        ≡ done tt (record s { cache = record s.cache { entries = fill i page content s.pid e es } })
  unfolding add_entry_cache_clock
  added page content c i e es ok s ends stored = rw (ends, stored, ◌>>=◌) refl

  -- The loop of AddEntryCacheClock ends, on a cache of at least one entry, and the page that it
  -- adds is found by SearchPageInCache with its content, if it was not in the cache before and
  -- SavePageInMemory of any entry returns.
  pub search-add_entry_cache_clock :
      (page content : List ℕ) (c : Cpu S)
      → 0 < length c.cache.entries
      → is_in_cache page c.cache.entries ≡ false
      → Saves c
      → (t : Cpu S) × (add_entry_cache_clock program page content c ≡ done tt t)
        × (search_page_in_cache page t.cache.entries ≡ some content)
  search-add_entry_cache_clock page content c some_entry absent saves =
      let es = c.cache.entries in
      let v =
        clock_sweep-Victim (length es + 1) (hand es) es (omega (arith, count_busy-le es))
          (hand_inside es some_entry) in
      let (old, old_found, alike) =
        outlines-get_elem? v.entries es v.index v.entry v.same_outlines v.found in
      let (ok, s, saved_it) = saves v.index old old_found in
      let stored : save_page_in_memory program v.entry.content v.entry.page v.entry.pid c
          ≡ done ok s =
        ap (λ e. save_page_in_memory program e.content e.page e.pid c) (sym alike) ∙ saved_it in
      let absent' : is_in_cache page v.entries ≡ false =
        sym (is_in_cache-outlines page v.entries)
        ∙ ap (is_in_cache page) v.same_outlines
        ∙ is_in_cache-outlines page es
        ∙ absent in
      (
        record s {
          cache = record s.cache { entries = fill v.index page content s.pid v.entry v.entries };
        },
        added page content c v.index v.entry v.entries ok s v.ends stored,
        search-fill page content v.index s.pid v.entry v.entries absent' v.found,
      )
