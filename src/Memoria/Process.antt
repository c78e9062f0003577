-- ===== src/Memoria/Process.antt =====
-- memoria/storage/storage.go, "SYSTEM MEMORY": GetInstruction, CreateProcess and DeleteProcess.
-- The code file of CreateProcess is the list of lines that bufio.Scanner yields.
use tp_sisop_go_utn.Base.{
  pos, negsuc, get_elem?, to_nat?, ◌+◌, ◌++◌, [], at_least, length, ◌==◌, if◌then◌else◌, ltb, ℤ,
  ◌∷◌, List, ℕ,
}
use tp_sisop_go_utn.Memoria.State.{
  with_metrics, unknown_opcode, with_process, program_counter_out_of_scope, too_many_arguments,
  no_such_process, not_enough_user_memory, get_data_by_pid, no_metrics, M, ProcessData,
}
use tp_sisop_go_utn.Memoria.Malloc.{allocate_memory, deallocate_memory}
use tp_sisop_go_utn.Utils.Codeutils.{op_code_from_string, Instruction}
use tp_sisop_go_utn.Utils.Strings.{split, Text}
use tp_sisop_go_utn.Base.Outcome.{◌>>=◌, ◌>>◌, pure, crash, get, modify, fail_if, or_fail, or_panic}

-- One line: its first word is the opcode, and there are at most two more.
abbrev pub parse_line : List Text → M Instruction
parse_line [] = crash
parse_line (name ∷ args) = do
  fail_if (ltb 2 (length args)) too_many_arguments
  opcode ← or_fail (op_code_from_string name) unknown_opcode
  pure (record { opcode = opcode; args = args })

abbrev pub new_process : ℕ → List Instruction → List ℕ → ProcessData
new_process pid code bases = record {
  pid = pid;
  code = code;
  page_bases = bases;
  metrics = no_metrics;
}

-- The loop over the lines. Text after the opcode is kept as it stands.
unfoldable pub parse_code : List Text → M (List Instruction)
parse_code [] = pure []
parse_code (line ∷ lines) = do
  i ← parse_line (split 32 line)
  rest ← parse_code lines
  pure (i ∷ rest)

abbrev store_process : ℕ → List Instruction → List ℕ → M (Unit {0})
store_process newpid code bases =
    modify (λ t. record t { system_memory = t.system_memory ++ new_process newpid code bases ∷ [] })

-- CreateProcess. A size below 0 passes the first test: with less than a page it is rounded to no
-- page, and the slice of a negative length panics otherwise.
unfoldable pub create_process : ℕ → List Text → ℤ → M (Unit {0})
create_process newpid code_file (pos memory_requirement) = do
  s ← get
  fail_if (ltb s.remaining memory_requirement) not_enough_user_memory
  code ← parse_code code_file
  bases ← (if memory_requirement == 0 then pure [] else allocate_memory memory_requirement)
  store_process newpid code bases
create_process newpid code_file (negsuc n) = do
  code ← parse_code code_file
  s ← get
  bases ← (if ltb (n + 1) s.page_size then allocate_memory 0 else crash)
  store_process newpid code bases

-- The last entry of a list that is not empty, and what stands before it.
abbrev pub last_or : ProcessData → List ProcessData → ProcessData
last_or p [] = p
last_or p (q ∷ qs) = last_or q qs

abbrev pub drop_last : List ProcessData → List ProcessData
drop_last [] = []
drop_last (p ∷ []) = []
drop_last (p ∷ q ∷ qs) = p ∷ drop_last (q ∷ qs)

-- The last of the entries behind the removed one takes its place.
abbrev pub move_last : List ProcessData → List ProcessData
move_last [] = []
move_last (p ∷ ps) = last_or p ps ∷ drop_last (p ∷ ps)

-- The loop of Deallocate: the first entry with the pid is overwritten by the last of all, and the
-- slice gets shorter by one.
unfoldable pub swap_remove : ℕ → List ProcessData → List ProcessData
swap_remove pid [] = []
swap_remove pid (p ∷ ps) = if p.pid == pid then move_last ps else p ∷ swap_remove pid ps

-- Deallocate
unfoldable pub deallocate : ℕ → M (Unit {0})
deallocate pid = do
  deallocate_memory pid
  modify (λ s. record s { system_memory = swap_remove pid s.system_memory })

-- DeleteProcess
unfoldable pub delete_process : ℕ → M (Unit {0})
unfolding deallocate
delete_process pid = do s ← get; _ ← or_fail (get_data_by_pid pid s) no_such_process; deallocate pid

-- GetInstruction. The count goes up before the read, which panics at a negative counter.
unfoldable pub get_instruction : ℕ → ℤ → M Instruction
get_instruction pid pc = do
  s ← get
  p ← or_fail (get_data_by_pid pid s) no_such_process
  fail_if (at_least (length p.code) pc) program_counter_out_of_scope
  modify (
      with_process pid
        (with_metrics (λ m. record m { instructions_requested = m.instructions_requested + 1 })))
  i ← or_panic (to_nat? pc)
  or_panic (get_elem? p.code i)
