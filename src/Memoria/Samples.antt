-- ===== src/Memoria/Samples.antt =====
-- A memory of four pages of four bytes, with two processes, and runs of the operations on it.
use tp_sisop_go_utn.Memoria.Access.{
  contains, get_from_memory, get_page, write_page, write_to_memory,
}
use tp_sisop_go_utn.Memoria.PageIo.{get_page-write_page, write_to_memory_escapes}
use tp_sisop_go_utn.Base.Outcome.{ok, state_after, ◌>>=◌, value_of}
use tp_sisop_go_utn.Memoria.Deletion.{delete_process-Deleted, Deleted}
use tp_sisop_go_utn.Memoria.Isolation.{write_to_memory_isolated}
use tp_sisop_go_utn.Base.{
  pos, arith, suc, ◌<◌, none, ◌∷◌, true, ℕ, [], replicate, zero, refl, Bool, get_or, false, ◌≡◌,
}
use tp_sisop_go_utn.Memoria.State.{find_process, get_data_by_pid, no_metrics, ProcessData, Storage}
use tp_sisop_go_utn.Memoria.Frames.{bases_from, bit_value, owners}
use tp_sisop_go_utn.Memoria.Lifecycle.{create_process-cases, Creation}
use tp_sisop_go_utn.Memoria.Invariant.{IsSound}

abbrev pub process_one : ProcessData
process_one = record { pid = 1; code = []; page_bases = 0 ∷ 8 ∷ []; metrics = no_metrics }

abbrev pub process_two : ProcessData
process_two = record { pid = 2; code = []; page_bases = 4 ∷ []; metrics = no_metrics }

abbrev pub small : Storage
small = record {
  pagination = record { page_size = 4; entries_per_page = 2; levels = 2 };
  system_memory = process_one ∷ process_two ∷ [];
  memory_size = 16;
  remaining = 4;
  user_memory = replicate 16 0;
  frame_bases = 0 ∷ 4 ∷ 8 ∷ 12 ∷ [];
  reservation_bits = true ∷ true ∷ true ∷ false ∷ [];
  swap = none;
}

abbrev pub everyone : ℕ → Bool
everyone pid = true

once :
    (i : ℕ)
    → i < 4
    → owners 4 i (0 ∷ 8 ∷ 4 ∷ []) ≡ bit_value (get_or (true ∷ true ∷ true ∷ false ∷ []) i false)
once zero h = refl
once (suc zero) h = refl
once (suc (suc zero)) h = refl
once (suc (suc (suc zero))) h = refl
once (suc (suc (suc (suc i)))) h = absurd (omega arith)

pub small-IsSound : IsSound [] everyone small
small-IsSound = record {
  page_pos = omega arith;
  numbered = unfold bases_from in refl;
  memory_length = refl;
  frames_fit = refl;
  accounted = refl;
  owned = record {
    in_range = (refl, omega arith, (refl, omega arith, (refl, omega arith, tt)));
    owned_once = once;
  };
  distinct = ((omega arith, tt), (tt, tt));
}

write_to_memory_isolated_example :
    value_of (get_page 2 4 (state_after small (write_to_memory 1 8 (pos 3) 77 small)))
    ≡ value_of (get_page 2 4 small)
write_to_memory_isolated_example =
    write_to_memory_isolated everyone small
      (state_after small (write_to_memory 1 8 (pos 3) 77 small)) 1 2 8 4 3 77 small-IsSound
      (omega arith) refl refl (omega arith)
      (unfold write_to_memory get_data_by_pid find_process contains in refl)

create_process-cases_example : Creation everyone small 3 [] 3
create_process-cases_example =
    create_process-cases everyone small 3 [] 3 small-IsSound refl (omega arith, (omega arith, tt))

delete_process-Deleted_example : Deleted everyone 1 process_one small
delete_process-Deleted_example =
    delete_process-Deleted everyone 1 process_one small small-IsSound refl
      (unfold get_data_by_pid find_process in refl)

get_page-write_page_example :
    value_of ((write_page 1 8 (1 ∷ 2 ∷ 3 ∷ 4 ∷ []) >>= λ _. get_page 1 8) small)
    ≡ ok (1 ∷ 2 ∷ 3 ∷ 4 ∷ [])
get_page-write_page_example =
    get_page-write_page 1 8 process_one (1 ∷ 2 ∷ 3 ∷ 4 ∷ []) small
      (unfold get_data_by_pid find_process in refl) (unfold contains in refl) (omega arith) refl

write_to_memory_escapes_example :
    value_of ((write_to_memory 1 0 (pos 4) 77 >>= λ _. get_from_memory 2 4 (pos 0)) small) ≡ ok 77
write_to_memory_escapes_example =
    write_to_memory_escapes 1 2 0 4 77 process_one process_two small
      (unfold get_data_by_pid find_process in refl) (unfold contains in refl)
      (unfold get_data_by_pid find_process in refl) (unfold contains in refl) (omega arith)
      (omega arith) (omega arith) (omega arith) refl
