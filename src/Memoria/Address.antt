-- ===== src/Memoria/Address.antt =====
-- memoria/storage/storage.go, "ADDRESSES": LogicAddressToFrame. math.Pow is exact, as the index of a
-- page is far below 2^53.
use tp_sisop_go_utn.Utils.Strconv.{atoi}
use tp_sisop_go_utn.Utils.Strings.{split, Text}
use tp_sisop_go_utn.Base.{
  get_elem?, [], ◌^◌, leb, ◌*◌, to_nat?, at_least, ◌==◌, ◌||◌, is_negative, length, not, ◌+◌, ◌∷◌,
  ℤ, List, ℕ,
}
use tp_sisop_go_utn.Memoria.State.{
  out_of_bounds_process, no_such_process, get_data_by_pid, out_of_bounds_table,
  address_of_other_depth, M, with_metrics, with_process, Storage,
}
use tp_sisop_go_utn.Base.Outcome.{◌>>=◌, ◌>>◌, pure, get, modify, fail_if, or_fail, or_panic}

abbrev pub count_access : ℕ → Storage → Storage
count_access pid =
    with_process pid
      (with_metrics (λ m. record m { page_table_accesses = m.page_table_accesses + 1 }))

-- The loop over the entries of an address: `left` of them are still to come, and `index` is
-- processPageIndex so far.
unfoldable pub walk_tables : ℕ → ℕ → List ℤ → M ℕ
walk_tables pid index [] = pure index
walk_tables pid index (num ∷ address) = do
  s ← get
  fail_if (is_negative num || at_least s.entries_per_page num) out_of_bounds_table
  n ← or_panic (to_nat? num)
  modify (count_access pid)
  walk_tables pid (index + n * s.entries_per_page ^ length address) address

-- LogicAddressToFrame
unfoldable pub logic_address_to_frame : ℕ → List ℤ → M ℕ
logic_address_to_frame pid address = do
  s ← get
  fail_if (not (length address == s.levels)) address_of_other_depth
  p ← or_fail (get_data_by_pid pid s) no_such_process
  index ← walk_tables pid 0 address
  fail_if (leb (length p.page_bases) index) out_of_bounds_process
  or_panic (get_elem? p.page_bases index)

-- The loop of StringToLogicAddress; Atoi's error is dropped.
abbrev read_entries : List Text → List ℤ
read_entries [] = []
read_entries (part ∷ parts) = (atoi part).0 ∷ read_entries parts

-- StringToLogicAddress, at the separator '|'.
unfoldable pub string_to_logic_address : Text → List ℤ
string_to_logic_address str = read_entries (split 124 str)
