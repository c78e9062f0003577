-- ===== src/Memoria/State.antt =====
-- memoria/storage/storage.go: the package's variables as one record, and the lookups on them.
-- A handler runs as one step: the mutexes and the simulated delays are left out, and so are the
-- log lines. Addresses and sizes are ℕ (Go's `int` is 64 bits wide, and no memory is that large).
use tp_sisop_go_utn.Base.{ℕ, Bool, Option, none, some, List, [], ◌∷◌, ◌==◌, if◌then◌else◌}
use tp_sisop_go_utn.Base.Outcome.{Outcome}
use tp_sisop_go_utn.Utils.Strings.{Text}
use tp_sisop_go_utn.Utils.Codeutils.{Instruction}

-- memory_metrics
pub record MemoryMetrics : Type 0 where
  pub page_table_accesses : ℕ
  pub instructions_requested : ℕ
  pub suspensions : ℕ
  pub unsuspensions : ℕ
  pub reads : ℕ
  pub writes : ℕ

-- process_data
pub record ProcessData : Type 0 where
  pub pid : ℕ
  pub code : List Instruction
  pub page_bases : List ℕ
  pub metrics : MemoryMetrics

pub record PaginationConfig : Type 0 where
  pub page_size : ℕ
  pub entries_per_page : ℕ
  pub levels : ℕ

-- The variables of the package. `swap` is the content of the swap file, if the file exists.
pub record Storage : Type 0 where
  pub pagination : PaginationConfig
  pub open pagination use *
  pub system_memory : List ProcessData
  pub memory_size : ℕ
  pub remaining : ℕ
  pub user_memory : List ℕ
  pub frame_bases : List ℕ
  pub reservation_bits : List Bool
  pub swap : Option Text

-- The errors of the package, one for each text.
pub data Error : Type 0 where
  no_such_process program_counter_out_of_scope not_enough_user_memory : Error
  too_many_arguments unknown_opcode not_enough_memory allocation_went_wrong : Error
  page_not_assigned out_of_bounds_page wrong_page_length : Error
  address_of_other_depth out_of_bounds_table out_of_bounds_process : Error
  page_base_not_valid dump_not_created : Error
  no_swap_file no_temp_file end_of_file not_a_number not_in_swap : Error

abbrev pub M : Type 0 → Type 0
M A = Storage → Outcome Error Storage A

-- The loop of GetDataByPID.
unfoldable pub find_process : ℕ → List ProcessData → Option ProcessData
find_process pid [] = none
find_process pid (p ∷ ps) = if p.pid == pid then some p else find_process pid ps

-- GetDataByPID. The pointer that it returns is the first entry with that pid, and a write through
-- it is `update_process`.
unfoldable pub get_data_by_pid : ℕ → Storage → Option ProcessData
unfolding find_process
get_data_by_pid pid s = find_process pid s.system_memory

-- A write through the pointer: the first entry with the pid is changed in place.
unfoldable pub update_process :
    ℕ → (ProcessData → ProcessData) → List ProcessData → List ProcessData
update_process pid f [] = []
update_process pid f (p ∷ ps) = if p.pid == pid then f p ∷ ps else p ∷ update_process pid f ps

abbrev pub with_process : ℕ → (ProcessData → ProcessData) → Storage → Storage
with_process pid f s = record s { system_memory = update_process pid f s.system_memory }

abbrev pub with_metrics : (MemoryMetrics → MemoryMetrics) → ProcessData → ProcessData
with_metrics f p = record p { metrics = f p.metrics }

abbrev pub no_metrics : MemoryMetrics
no_metrics = record {
  page_table_accesses = 0;
  instructions_requested = 0;
  suspensions = 0;
  unsuspensions = 0;
  reads = 0;
  writes = 0;
}
