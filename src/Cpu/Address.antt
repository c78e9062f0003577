-- ===== src/Cpu/Address.antt =====
-- cpu/memory/mmu.go: logical addresses, which are the entries of the page tables, outermost first,
-- with the offset in the page behind them. Physical addresses that the programs are given are ≥ 0.
use tp_sisop_go_utn.Utils.Strconv.{atoi}
use tp_sisop_go_utn.Utils.Strings.{split, Text}
use tp_sisop_go_utn.Base.{
  ℤ, suc, ◌==◌, Bool, ℕ, some, replicate, ◌∷◌, false, [], none, List, ◌++◌, true, Option, zero, ◌/◌,
  if◌then◌else◌, ◌+◌, ◌%◌,
}

-- config.PaginationConfig, as the memory program reports it.
pub record PaginationConfig : Type 0 where
  pub page_size : ℕ
  pub entries_per_page : ℕ
  pub levels : ℕ

-- The loop of `sum`, from the last entry to the first; true says that it went past the first.
unfoldable pub sum_carry : ℕ → List ℕ → List ℕ × Bool
sum_carry mod_ [] = ([], true)
sum_carry mod_ (d ∷ ds) =
    let (rest, carry) = sum_carry mod_ ds in
    if carry
    then (if d + 1 == mod_ then (0 ∷ rest, true) else ((d + 1) ∷ rest, false))
    else (d ∷ rest, false)

-- sum. An address without entries panics.
unfoldable pub sum : ℕ → List ℕ → Option (List ℕ)
unfolding sum_carry
sum mod_ [] = none
sum mod_ (d ∷ ds) = some (sum_carry mod_ (d ∷ ds)).0

-- `for range n { sum(niveles, mod) }`
unfoldable pub sum_times : ℕ → ℕ → List ℕ → Option (List ℕ)
sum_times mod_ zero niveles = some niveles
sum_times mod_ (suc n) niveles = elim (sum mod_ niveles) [
  | none ↦ none
  | some next ↦ sum_times mod_ n next
]

abbrev add_delta : ℕ → Option (List ℕ) → Option (List ℕ)
add_delta delta none = none
add_delta delta (some niveles) = some (niveles ++ delta ∷ [])

-- FromIntToLogicalAddres. A page size of 0 panics by the division.
unfoldable pub from_int_to_logical_addres : PaginationConfig → ℕ → Option (List ℕ)
from_int_to_logical_addres conf direccion =
    if conf.page_size == 0
    then none
    else add_delta (direccion % conf.page_size)
        (sum_times conf.entries_per_page (direccion / conf.page_size) (replicate conf.levels 0))

-- The loop of StringToLogicAddress; Atoi's error is dropped.
abbrev read_entries : List Text → List ℤ
read_entries [] = []
read_entries (part ∷ parts) = (atoi part).0 ∷ read_entries parts

-- StringToLogicAddress, at the separator '|'.
unfoldable pub string_to_logic_address : Text → List ℤ
string_to_logic_address str = read_entries (split 124 str)
