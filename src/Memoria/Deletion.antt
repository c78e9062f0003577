-- ===== src/Memoria/Deletion.antt =====
-- DeleteProcess of a resident process.
use tp_sisop_go_utn.Memoria.Removal.{
  DistinctPids-swap_remove, InRange-swap_remove, owners-swap_remove, find_process-swap_remove,
  swap_remove-Absent,
}
use tp_sisop_go_utn.Memoria.Invariant.{owned_frames, find_process-Absent, IsSound}
use tp_sisop_go_utn.Memoria.Ownership.{Owns-same}
use tp_sisop_go_utn.Memoria.Process.{swap_remove, delete_process}
use tp_sisop_go_utn.Memoria.Deallocation.{freed, deallocate_memory-Deallocated, without}
use tp_sisop_go_utn.Memoria.State.{no_such_process, get_data_by_pid, Storage, ProcessData}
use tp_sisop_go_utn.Base.Outcome.{fail, done}
use tp_sisop_go_utn.Base.{
  arith, ℕ, sym, none, ◌≢◌, refl, some, ◌+◌, true, ◌*◌, [], Bool, ◌≡◌, length,
}

-- What DeleteProcess leaves of `s` when the entry `p` with this pid goes.
pub record Deleted (resident : ℕ → Bool) (pid : ℕ) (p : ProcessData) (s : Storage) : Type 0 where
  pub after : Storage
  pub result : delete_process pid s ≡ done tt after
  pub gone : get_data_by_pid pid after ≡ none
  pub others : (i : ℕ) → i ≢ pid → get_data_by_pid i after ≡ get_data_by_pid i s
  pub refunded : after.remaining ≡ s.remaining + length p.page_bases * s.page_size
  pub same_memory : after.user_memory ≡ s.user_memory
  pub sound : IsSound [] (without pid resident) after

module _ (resident : ℕ → Bool) (pid : ℕ) (p : ProcessData) (s : Storage) (v : IsSound [] resident s)
    (here : resident pid ≡ true) (found : get_data_by_pid pid s ≡ some p) where
  -- DeleteProcess of a resident process, with sound variables, succeeds: its entry is gone, every
  -- other pid is found as before, the remaining memory grows by its frames times the page size,
  -- the user memory is the same, and the variables are sound without it.
  pub delete_process-Deleted : Deleted resident pid p s
  unfolding delete_process get_data_by_pid
  delete_process-Deleted =
      let f = deallocate_memory-Deallocated resident pid p s here v found in
      let t = freed s p f.bits in
      record {
        after = record t { system_memory = swap_remove pid s.system_memory };
        result = ground (arith, found, f.result);
        gone = find_process-Absent pid _ (swap_remove-Absent pid s.system_memory v.distinct);
        others = λ i n. find_process-swap_remove i pid s.system_memory v.distinct n;
        refunded = refl;
        same_memory = refl;
        sound = record {
          page_pos = f.sound.page_pos;
          numbered = f.sound.numbered;
          memory_length = f.sound.memory_length;
          frames_fit = f.sound.frames_fit;
          accounted = f.sound.accounted;
          owned =
              Owns-same s.page_size f.bits (owned_frames (without pid resident) s.system_memory)
                (owned_frames (without pid resident) (swap_remove pid s.system_memory))
                (λ i. sym (
                  owners-swap_remove (without pid resident) s.page_size i pid s.system_memory
                    (ground arith)))
                (InRange-swap_remove (without pid resident) s.page_size (length f.bits) pid
                  s.system_memory f.sound.owned.in_range)
                f.sound.owned;
          distinct = DistinctPids-swap_remove pid s.system_memory v.distinct;
        };
      }

-- DeleteProcess of a pid that is not stored fails and changes nothing.
pub delete_process_missing :
    (pid : ℕ) (s : Storage)
    → get_data_by_pid pid s ≡ none
    → delete_process pid s ≡ fail no_such_process s
unfolding delete_process
delete_process_missing pid s h = ground (arith, h)
