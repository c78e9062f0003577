-- ===== src/Cpu/TlbLaws.antt =====
-- The TLB of cpu/memory/tlb.go: its capacity, its evictions, and its hits.
use mathlib.Core.Option.{some-injective}
use native.Mathlib.Nat.{zero-add}
use tp_sisop_go_utn.Base.{
  Bool-cases, List, [], ap, arith, get_elem?, inl, inr, length, length-append, ltb, ltb→lt, none,
  refl, some, suc, true, zero, ℕ, ◌++◌, ◌+◌, ◌<◌, ◌∷◌, ◌≡◌, ◌≢◌, ◌≤◌,
}
use tp_sisop_go_utn.Cpu.Tlb.{
  Replacement, Tlb, TlbEntry, add_entry_tlb, are_slices_equal, evict, fifo, find_entry, find_frame,
  is_entry, lru, oldest_index, remove_at, unknown,
}

length-remove_at :
    (i : ℕ) (es : List TlbEntry) → i < length es → length (remove_at i es) + 1 ≡ length es
unfolding remove_at
length-remove_at i [] h = absurd (omega arith)
length-remove_at zero (e ∷ es) h = omega arith
length-remove_at (suc i) (e ∷ es) h = omega (arith, length-remove_at i es (omega arith))

oldest_index-lt :
    (oldest k i : ℕ) (es : List TlbEntry) (n : ℕ)
    → k < n
    → i + length es ≤ n
    → oldest_index oldest k i es < n
unfolding oldest_index
oldest_index-lt oldest k i [] n h fits = h
oldest_index-lt oldest k i (e ∷ es) n h fits = ground (
  arith,
  oldest_index-lt oldest k (i + 1) es n h (omega arith),
  oldest_index-lt e.last_used i (i + 1) es n (omega arith) (omega arith),
)

-- An eviction by a known algorithm takes out one entry.
length-evict :
    (alg : Replacement) (e : TlbEntry) (es : List TlbEntry)
    → alg ≢ unknown
    → length (evict alg (e ∷ es)) ≡ length es
unfolding evict
length-evict fifo e es n = refl
length-evict lru e es n = omega (
  arith,
  length-remove_at (oldest_index e.last_used 0 0 (e ∷ es)) (e ∷ es)
      (oldest_index-lt e.last_used 0 0 (e ∷ es) (suc (length es)) (omega arith) (omega arith)),
)
length-evict unknown e es n = absurd (n refl)

-- With FIFO or LRU, AddEntryTLB keeps the TLB within its capacity if it was before.
pub add_entry_tlb-le-capacity :
    (now : ℕ) (page : List ℕ) (frame pid : ℕ) (t : Tlb)
    → t.replacement_alg ≢ unknown
    → length t.entries ≤ t.capacity
    → length (add_entry_tlb now page frame pid t).entries
      ≤ (add_entry_tlb now page frame pid t).capacity
unfolding add_entry_tlb
add_entry_tlb-le-capacity now page frame pid t known h = bounded t.entries refl
  where
    added : TlbEntry
    added = record { page = page; frame = frame; last_used = now; pid = pid }

    bounded :
        (es : List TlbEntry)
        → t.entries ≡ es
        → length (add_entry_tlb now page frame pid t).entries
          ≤ (add_entry_tlb now page frame pid t).capacity
    bounded [] e = ground (arith, e)
    bounded (x ∷ xs) e = ground (
      arith,
      e,
      length-append (evict t.replacement_alg (x ∷ xs)) (added ∷ []),
      length-append (x ∷ xs) (added ∷ []),
      length-evict t.replacement_alg x xs known,
    )

-- Every entry was used at `n` or later.
abbrev pub UsedFrom : ℕ → List TlbEntry → Type 0
UsedFrom n [] = Unit {0}
UsedFrom n (e ∷ es) = (n ≤ e.last_used) × UsedFrom n es

UsedFrom-mono : (m n : ℕ) (es : List TlbEntry) → m ≤ n → UsedFrom n es → UsedFrom m es
UsedFrom-mono m n [] h u = tt
UsedFrom-mono m n (e ∷ es) h u = (omega arith, UsedFrom-mono m n es h u.1)

-- Where the loop for the oldest entry ends.
data Oldest (oldest k i : ℕ) (es : List TlbEntry) (r : ℕ) : Type 0 where
  kept : r ≡ k → UsedFrom oldest es → Oldest oldest k i es r
  found :
      (j : ℕ) (m : TlbEntry)
      → r ≡ i + j
      → get_elem? es j ≡ some m
      → m.last_used < oldest
      → UsedFrom m.last_used es
      → Oldest oldest k i es r

oldest_index-Oldest :
    (oldest k i : ℕ) (es : List TlbEntry) → Oldest oldest k i es (oldest_index oldest k i es)
unfolding oldest_index
oldest_index-Oldest oldest k i [] = kept refl tt
oldest_index-Oldest oldest k i (e ∷ es) = elim (Bool-cases (ltb e.last_used oldest)) [
  | inl older ↦
      rw (older, oldest_index)
        (elim (oldest_index-Oldest e.last_used i (i + 1) es) [
          | kept r u ↦ found 0 e (omega (arith, r)) refl (ltb→lt _ _ older) (omega arith, u)
          | found j m r at_j lt u ↦
              found (suc j) m (omega (arith, r)) at_j (omega (arith, ltb→lt _ _ older))
                (omega arith, u)
        ])
  | inr newer ↦
      rw (newer, oldest_index)
        (elim (oldest_index-Oldest oldest k (i + 1) es) [
          | kept r u ↦ kept r (ground arith, u)
          | found j m r at_j lt u ↦ found (suc j) m (omega (arith, r)) at_j lt (ground arith, u)
        ])
]

remove_at_split :
    (i : ℕ) (es : List TlbEntry) (m : TlbEntry)
    → get_elem? es i ≡ some m
    → (before after : List TlbEntry) × (es ≡ before ++ m ∷ after)
      × (remove_at i es ≡ before ++ after)
unfolding remove_at
remove_at_split i [] m at_i = absurd (cc)
remove_at_split zero (e ∷ es) m at_i = ([], es, ap (λ x. x ∷ es) (some-injective e m at_i), refl)
remove_at_split (suc i) (e ∷ es) m at_i =
    let (before, after, same, out) = remove_at_split i es m at_i in
    (e ∷ before, after, ap (λ l. e ∷ l) same, ap (λ l. e ∷ l) out)

-- From entries that are not empty, LRU takes out one that was used no later than any other, and
-- leaves all others, in their order.
pub lru_evicts_oldest :
    (e : TlbEntry) (es : List TlbEntry)
    → (before : List TlbEntry) × (m : TlbEntry) × (after : List TlbEntry) × (e ∷ es
        ≡ before ++ m ∷ after)
      × (evict lru (e ∷ es) ≡ before ++ after)
      × UsedFrom m.last_used (e ∷ es)
unfolding evict
lru_evicts_oldest e es = taken_out (oldest_index e.last_used 0 0 (e ∷ es)) refl
  where
    at_index :
        (m : TlbEntry) × (get_elem? (e ∷ es) (oldest_index e.last_used 0 0 (e ∷ es)) ≡ some m)
        × UsedFrom m.last_used (e ∷ es)
    at_index = elim (oldest_index-Oldest e.last_used 0 0 (e ∷ es)) [
      | kept r u ↦ (e, rw r refl, u)
      | found j m r at_j lt u ↦ (m, rw (r, zero-add) at_j, u)
    ]

    taken_out :
        (i : ℕ)
        → oldest_index e.last_used 0 0 (e ∷ es) ≡ i
        → (before : List TlbEntry) × (m : TlbEntry) × (after : List TlbEntry) × (e ∷ es
            ≡ before ++ m ∷ after)
          × (remove_at i (e ∷ es) ≡ before ++ after)
          × UsedFrom m.last_used (e ∷ es)
    taken_out i at_i =
        let (m, there, used) = at_index in
        let (before, after, same, out) = remove_at_split i (e ∷ es) m (rw at_i at there) in
        (before, m, after, same, out, used)

pub are_slices_equal_refl : (xs : List ℕ) → are_slices_equal xs xs ≡ true
unfolding are_slices_equal
are_slices_equal_refl [] = refl
are_slices_equal_refl (x ∷ xs) = ground (arith, are_slices_equal_refl xs)

module _ (alg : Replacement) (now : ℕ) (page : List ℕ) (pid : ℕ) where
  -- No entry fits.
  abbrev Misses : List TlbEntry → Type 0
  Misses es = (find_entry alg now page pid es).0 ≡ none

  Misses-remove_at : (i : ℕ) (es : List TlbEntry) → Misses es → Misses (remove_at i es)
  unfolding find_entry remove_at
  Misses-remove_at i [] h = h
  Misses-remove_at zero (e ∷ es) h = ground arith
  Misses-remove_at (suc i) (e ∷ es) h = ground (arith, Misses-remove_at i es)

  Misses-evict : (a : Replacement) (es : List TlbEntry) → Misses es → Misses (evict a es)
  unfolding evict find_entry
  Misses-evict a [] h = h
  Misses-evict fifo (e ∷ es) h = ground arith
  Misses-evict lru (e ∷ es) h = Misses-remove_at (oldest_index e.last_used 0 0 (e ∷ es)) (e ∷ es) h
  Misses-evict unknown (e ∷ es) h = h

  find_entry-snoc :
      (es : List TlbEntry) (new : TlbEntry)
      → Misses es
      → is_entry page pid new ≡ true
      → (find_entry alg now page pid (es ++ new ∷ [])).0 ≡ some new.frame
  unfolding find_entry
  find_entry-snoc [] new h fits = ground (arith, fits)
  find_entry-snoc (e ∷ es) new h fits = ground (arith, find_entry-snoc es new)

-- A page that findFrame missed is found with its frame once AddEntryTLB has added it, whichever
-- entry had to go, if the capacity is above 0.
pub find_frame-add_entry_tlb :
    (now later : ℕ) (page : List ℕ) (frame pid : ℕ) (t : Tlb)
    → 0 < t.capacity
    → (find_frame later page pid t).0 ≡ none
    → (find_frame later page pid (add_entry_tlb now page frame pid t)).0 ≡ some frame
unfolding find_frame add_entry_tlb
find_frame-add_entry_tlb now later page frame pid t cap missed = ground (
  arith,
  find_entry-snoc t.replacement_alg later page pid t.entries added missed,
  find_entry-snoc t.replacement_alg later page pid (evict t.replacement_alg t.entries) added
      (Misses-evict t.replacement_alg later page pid t.replacement_alg t.entries missed),
  are_slices_equal_refl page,
)
  where
    added : TlbEntry
    added = record { page = page; frame = frame; last_used = now; pid = pid }
