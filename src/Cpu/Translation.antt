-- ===== src/Cpu/Translation.antt =====
-- The CPU's logical addresses, read by the memory program's page tables.
use tp_sisop_go_utn.Cpu.Odometer.{AllBelow, from_int-LogicAddress, LogicAddress, page_number}
use tp_sisop_go_utn.Base.Outcome.{ok, value_of, done}
use tp_sisop_go_utn.Memoria.Address.{count_access, logic_address_to_frame, walk_tables}
use tp_sisop_go_utn.Cpu.Address.{from_int_to_logical_addres, PaginationConfig}
use tp_sisop_go_utn.Memoria.State.{get_data_by_pid, ProcessData, Storage}
use tp_sisop_go_utn.Base.{
  pos, arith, ◌∷◌, ◌/◌, some, ◌%◌, ◌≡◌, ℕ, List, get_elem?, ◌<◌, ◌^◌, ◌∙◌, ◌++◌, [],
  get_elem?_inside, length, length-map, ap, ◌+◌, sym, ◌*◌, ℤ, map,
}
use native.Mathlib.Nat.{add_assoc, mod-eq_of_lt, add-zero, zero-add}

-- The entries of an address as Go ints.
abbrev pub to_ints : List ℕ → List ℤ
to_ints = map pos

walk_tables-page_number :
    (pid index : ℕ) (ds : List ℕ) (s : Storage)
    → AllBelow s.entries_per_page ds
    → (t : Storage) × (walk_tables pid index (to_ints ds) s
        ≡ done (index + page_number s.entries_per_page ds) t)
unfolding walk_tables
walk_tables-page_number pid index [] s h = (s, ap (λ k. done k s) (sym (add-zero index)))
walk_tables-page_number pid index (d ∷ ds) s h =
    let step = index + d * s.entries_per_page ^ length (to_ints ds) in
    let (t, rest) = walk_tables-page_number pid step ds (count_access pid s) h.1 in
    (
      t,
      ground (
        arith,
        rest,
        length-map ds pos,
        add_assoc index (d * s.entries_per_page ^ length ds) (page_number s.entries_per_page ds),
      ),
    )

module _ (conf : PaginationConfig) (direccion pid base : ℕ) (p : ProcessData) (s : Storage)
    (a : LogicAddress conf direccion) where
  -- LogicAddressToFrame of the entries that the CPU makes.
  pub logic_address_to_frame-niveles :
      s.levels ≡ conf.levels
      → s.entries_per_page ≡ conf.entries_per_page
      → get_data_by_pid pid s ≡ some p
      → direccion / conf.page_size < conf.entries_per_page ^ conf.levels
      → get_elem? p.page_bases (direccion / conf.page_size) ≡ some base
      → value_of (logic_address_to_frame pid (to_ints a.niveles) s) ≡ ok base
  unfolding logic_address_to_frame
  logic_address_to_frame-niveles same_levels same_entries found reach has =
      let (t, walked) = walk_tables-page_number pid 0 a.niveles s (rw same_entries a.below) in
      let number : 0 + page_number s.entries_per_page a.niveles ≡ direccion / conf.page_size =
        rw (zero-add, same_entries) (a.number ∙ mod-eq_of_lt reach) in
      ground (
        arith,
        found,
        walked,
        number,
        has,
        length-map a.niveles pos,
        a.depth,
        same_levels,
        get_elem?_inside p.page_bases (direccion / conf.page_size) base has,
      )

-- For an address that the CPU's FromIntToLogicalAddres makes, LogicAddressToFrame of the memory
-- answers the base of the process's frame number address / page size. The page size, the entries
-- and the levels are above 0, both sides have the same entries and levels, the tables reach the
-- page, and the process is stored with such a frame.
pub logic_address_to_frame-from_int :
    (conf : PaginationConfig) (direccion pid base : ℕ) (p : ProcessData) (s : Storage)
    → 0 < conf.page_size
    → 0 < conf.entries_per_page
    → 0 < conf.levels
    → s.levels ≡ conf.levels
    → s.entries_per_page ≡ conf.entries_per_page
    → get_data_by_pid pid s ≡ some p
    → direccion / conf.page_size < conf.entries_per_page ^ conf.levels
    → get_elem? p.page_bases (direccion / conf.page_size) ≡ some base
    → (address : List ℕ) × (from_int_to_logical_addres conf direccion
        ≡ some (address ++ direccion % conf.page_size ∷ []))
      × (value_of (logic_address_to_frame pid (to_ints address) s) ≡ ok base)
logic_address_to_frame-from_int conf direccion pid base p s ps_pos e_pos l_pos same_levels
      same_entries found reach has =
    let a = from_int-LogicAddress conf direccion ps_pos e_pos l_pos in
    (
      a.niveles,
      a.result,
      logic_address_to_frame-niveles conf direccion pid base p s a same_levels same_entries found
          reach has,
    )
