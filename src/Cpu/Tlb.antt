-- ===== src/Cpu/Tlb.antt =====
-- cpu/memory/tlb.go, over the TLB of cpu/config/config.go. `now` is what time.Now returns, and the
-- log lines are left out.
use tp_sisop_go_utn.Base.{
  ◌+◌, true, none, if◌then◌else◌, [], suc, leb, false, Option, ltb, List, some, ◌==◌, ℕ, zero, ◌∷◌,
  Bool, length, ◌++◌, ◌&&◌,
}

-- Tlb_entries
pub record TlbEntry : Type 0 where
  pub page : List ℕ
  pub frame : ℕ
  pub last_used : ℕ
  pub pid : ℕ

-- The replacement algorithm: the configuration names it by a text, and one that is neither
-- "FIFO" nor "LRU" evicts nothing.
pub data Replacement : Type 0 where
  fifo lru unknown : Replacement

-- TLB
pub record Tlb : Type 0 where
  pub entries : List TlbEntry
  pub capacity : ℕ
  pub replacement_alg : Replacement

-- areSlicesEqual
unfoldable pub are_slices_equal : List ℕ → List ℕ → Bool
are_slices_equal [] [] = true
are_slices_equal (a ∷ as_) (b ∷ bs) = (a == b) && are_slices_equal as_ bs
are_slices_equal _ _ = false

abbrev pub is_entry : List ℕ → ℕ → TlbEntry → Bool
is_entry page pid e = are_slices_equal e.page page && (e.pid == pid)

abbrev pub touch : Replacement → ℕ → TlbEntry → TlbEntry
touch lru now e = record e { last_used = now }
touch _ now e = e

-- The loop of findFrame: the frame of the first entry that fits, and the entries with its use noted.
unfoldable pub find_entry : Replacement → ℕ → List ℕ → ℕ → List TlbEntry → Option ℕ × List TlbEntry
unfolding are_slices_equal
find_entry alg now page pid [] = (none, [])
find_entry alg now page pid (e ∷ es) =
    let rest = find_entry alg now page pid es in
    if is_entry page pid e then (some e.frame, touch alg now e ∷ es) else (rest.0, e ∷ rest.1)

-- findFrame; `none` is its (0, false).
unfoldable pub find_frame : ℕ → List ℕ → ℕ → Tlb → Option ℕ × Tlb
unfolding find_entry
find_frame now page pid t =
    let (frame, entries) = find_entry t.replacement_alg now page pid t.entries in
    (frame, record t { entries = entries })

-- The loop that looks for the oldest entry, from index `i` on, with the oldest so far.
unfoldable pub oldest_index : ℕ → ℕ → ℕ → List TlbEntry → ℕ
oldest_index oldest lru_index i [] = lru_index
oldest_index oldest lru_index i (e ∷ es) =
    let newer = oldest_index oldest lru_index (i + 1) es in
    let older = oldest_index e.last_used i (i + 1) es in
    if ltb e.last_used oldest then older else newer

-- `append(entries[:i], entries[i+1:]...)`
unfoldable pub remove_at : ℕ → List TlbEntry → List TlbEntry
remove_at i [] = []
remove_at zero (e ∷ es) = es
remove_at (suc i) (e ∷ es) = e ∷ remove_at i es

-- The eviction of AddEntryTLB, from entries that are not empty.
unfoldable pub evict : Replacement → List TlbEntry → List TlbEntry
unfolding oldest_index remove_at
evict alg [] = []
evict fifo (e ∷ es) = es
evict lru (e ∷ es) = remove_at (oldest_index e.last_used 0 0 (e ∷ es)) (e ∷ es)
evict unknown (e ∷ es) = e ∷ es

-- AddEntryTLB
unfoldable pub add_entry_tlb : ℕ → List ℕ → ℕ → ℕ → Tlb → Tlb
unfolding evict
add_entry_tlb now page frame pid t = if t.capacity == 0 then t else record t {
  entries =
      (if leb t.capacity (length t.entries) then evict t.replacement_alg t.entries else t.entries)
      ++ (record { page = page; frame = frame; last_used = now; pid = pid }) ∷ [];
}

-- ClearTLB
unfoldable pub clear_tlb : Tlb → Tlb
clear_tlb t = record t { entries = [] }

-- InitTLB, which takes both values from the configuration.
unfoldable pub init_tlb : ℕ → Replacement → Tlb → Tlb
unfolding clear_tlb
init_tlb tlb_entries tlb_replacement t =
    clear_tlb (record t { capacity = tlb_entries; replacement_alg = tlb_replacement })
