-- ===== src/Memoria/Access.antt =====
-- memoria/storage/storage.go, "DATA ARRAY" and "PAGES": bytes and pages of the user memory.
-- A base that is negative is in no process's list, so bases are ℕ; a delta may be negative.
use tp_sisop_go_utn.Base.Outcome.{crash, ◌>>=◌, ◌>>◌, pure, get, modify, fail_if, or_fail, or_panic}
use tp_sisop_go_utn.Base.{
  [], get_elem?, none, to_nat?, drop, is_negative, set, take, ltb, some, ◌||◌, leb, length, pos,
  ◌+◌, ◌==◌, at_least, false, if◌then◌else◌, negsuc, not, offset, ◌∷◌, Bool, List, ℕ, ℤ,
}
use tp_sisop_go_utn.Memoria.State.{
  out_of_bounds_page, page_not_assigned, wrong_page_length, no_such_process, with_metrics,
  get_data_by_pid, with_process, M, Storage,
}

-- slices.Contains
unfoldable pub contains : List ℕ → ℕ → Bool
contains [] b = false
contains (x ∷ xs) b = (x == b) || contains xs b

-- HasPage, whose result is only ever used as an early return.
unfoldable pub has_page : ℕ → ℕ → M (Unit {0})
has_page pid base = do
  s ← get
  p ← or_fail (get_data_by_pid pid s) no_such_process
  fail_if (not (contains p.page_bases base)) page_not_assigned

abbrev pub add_reads : ℕ → ℕ → Storage → Storage
add_reads n pid = with_process pid (with_metrics (λ m. record m { reads = m.reads + n }))

abbrev pub add_write : ℕ → Storage → Storage
add_write pid = with_process pid (with_metrics (λ m. record m { writes = m.writes + 1 }))

-- GetFromMemory
unfoldable pub get_from_memory : ℕ → ℕ → ℤ → M ℕ
unfolding has_page
get_from_memory pid base delta = do
  has_page pid base
  s ← get
  fail_if
      (at_least (s.memory_size + 1) (offset base delta)
        || at_least s.page_size delta
        || is_negative delta)
      out_of_bounds_page
  modify (add_reads 1 pid)
  i ← or_panic (to_nat? (offset base delta))
  or_panic (get_elem? s.user_memory i)

-- `userMemory[i] = value`
abbrev pub store_byte : ℤ → ℕ → M (Unit {0})
store_byte (negsuc n) value = crash
store_byte (pos i) value = do
  s ← get
  or_panic (if ltb i (length s.user_memory) then some tt else none)
  modify (λ t. record t { user_memory = set t.user_memory i value })

-- WriteToMemory
unfoldable pub write_to_memory : ℕ → ℕ → ℤ → ℕ → M (Unit {0})
unfolding has_page
write_to_memory pid base delta value = do
  has_page pid base
  store_byte (offset base delta) value
  modify (add_write pid)

-- GetPage. The configured page size is the one of the pagination, since pages exist.
unfoldable pub get_page : ℕ → ℕ → M (List ℕ)
unfolding has_page
get_page pid base = do
  has_page pid base
  s ← get
  modify (add_reads s.page_size pid)
  or_panic (
      if leb (base + s.page_size) (length s.user_memory)
      then some (take s.page_size (drop base s.user_memory))
      else none)

-- The loop of WritePage, from `delta` on.
unfoldable pub write_bytes : ℕ → ℕ → ℕ → List ℕ → M (Unit {0})
write_bytes pid base delta [] = pure tt
write_bytes pid base delta (char ∷ value) = do
  write_to_memory pid base (pos delta) char
  write_bytes pid base (delta + 1) value

-- WritePage
unfoldable pub write_page : ℕ → ℕ → List ℕ → M (Unit {0})
unfolding has_page
write_page pid base value = do
  s ← get
  fail_if (not (length value == s.page_size)) wrong_page_length
  has_page pid base
  write_bytes pid base 0 value
