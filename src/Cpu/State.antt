-- ===== src/Cpu/State.antt =====
-- cpu/config/config.go: the variables of the CPU program, with the memory program that it asks over
-- HTTP. The PID -1 of an empty cache entry is `none`.
use tp_sisop_go_utn.Cpu.Tlb.{Tlb}
use tp_sisop_go_utn.Cpu.Address.{PaginationConfig}
use tp_sisop_go_utn.Utils.Strings.{Text}
use tp_sisop_go_utn.Utils.Codeutils.{Instruction, Opcode}
use tp_sisop_go_utn.Base.{ℕ, ◌∷◌, Bool, none, ℤ, some, Option, [], List}
use tp_sisop_go_utn.Base.Outcome.{Outcome}

-- CacheEntry. A page that is nil has no entries.
pub record CacheEntry : Type 0 where
  pub page : List ℕ
  pub content : List ℕ
  pub used : Bool
  pub modified : Bool
  pub position : Bool
  pub pid : Option ℕ

-- CACHE. The configuration names the algorithm by a text, and all but "CLOCK" are CLOCK-M.
pub record Cache : Type 0 where
  pub entries : List CacheEntry
  pub capacity : ℕ
  pub is_clock : Bool

-- Exec_values: the operands that `asign` decodes. The texts are bytes.
pub record ExecValues : Type 0 where
  pub arg1 : ℤ
  pub str : Text
  pub addr : List ℕ
  pub value : List ℕ

-- `S` is the state of the programs that the CPU talks to, and `time_at n` the n-th reading of the
-- clock. `instruction` and `fetch` are variables of cpu/cpu.go, and `instruccion` is
-- config.Instruccion, where none is the empty text.
pub record Cpu (S : Type 0) : Type 0 where
  pub memory_conf : PaginationConfig
  pub tlb : Tlb
  pub cache : Cache
  pub cache_enable : Bool
  pub pid : ℕ
  pub pc : ℤ
  pub instruction : Instruction
  pub instruccion : Option Opcode
  pub fetch : Bool
  pub exec_values : ExecValues
  pub interrupt_pending : Bool
  pub exit_pending : Bool
  pub time_at : ℕ → ℕ
  pub readings : ℕ
  pub memory : S

-- What keeps an operation from returning: a channel that is full, or, in the model alone, fuel and
-- an address below 0, whose entries and offset are no natural numbers.
pub data Stuck : Type 0 where
  channel_full out_of_fuel negative_address : Stuck

abbrev pub Run : Type 0 → Type 0 → Type 0
Run S A = Cpu S → Outcome Stuck (Cpu S) A

-- The last component of an address, and what stands before it; none for an empty address.
abbrev pub split_address : List ℕ → Option (List ℕ × ℕ)
split_address [] = none
split_address (a ∷ []) = some ([], a)
split_address (a ∷ b ∷ rest) = elim (split_address (b ∷ rest)) [
  | none ↦ none
  | some (page, delta) ↦ some (a ∷ page, delta)
]
