-- ===== src/Memoria/SwapSamples.antt =====
-- A process of the sample memory that goes to the swap file and comes back.
use tp_sisop_go_utn.Memoria.Samples.{everyone, process_one, small, small-IsSound}
use tp_sisop_go_utn.Memoria.SwapRoundTrip.{RoundTrip, unsuspend_process-suspend_process}
use tp_sisop_go_utn.Memoria.Unsuspension.{Restored, unsuspend_process-Restored}
use tp_sisop_go_utn.Memoria.SwapOut.{suspend_process-Suspended, Suspended}
use tp_sisop_go_utn.Memoria.SwapTwice.{delete_process-suspend_process}
use tp_sisop_go_utn.Memoria.State.{find_process, get_data_by_pid, Storage}
use tp_sisop_go_utn.Memoria.Swap.{Files, show_bytes, suspend_process}
use tp_sisop_go_utn.Memoria.Process.{delete_process}
use tp_sisop_go_utn.Memoria.SwapFile.{file_text}
use tp_sisop_go_utn.Memoria.Invariant.{IsSound}
use tp_sisop_go_utn.Memoria.Frames.{bases_from, bit_value, owners}
use tp_sisop_go_utn.Utils.Strconv.{itoa}
use tp_sisop_go_utn.Utils.Strings.{join}
use tp_sisop_go_utn.Base.Outcome.{done, ◌>>=◌}
use tp_sisop_go_utn.Base.{
  ◌*◌, ◌+◌, ◌<◌, ◌==◌, ◌≡◌, ◌∷◌, [], arith, Bool, false, get_or, List, refl, some, suc, true, zero,
  ℕ,
}

abbrev disk : Files
disk = record { appends = true; creates_temp = true; renames = true }

suspend_process-Suspended_example : Suspended disk everyone 1 process_one [] small
suspend_process-Suspended_example =
    suspend_process-Suspended disk everyone 1 process_one [] small refl small-IsSound
      (unfold find_process in refl) (omega arith) refl refl

unsuspend_process-suspend_process_example : RoundTrip disk everyone 1 process_one [] small
unsuspend_process-suspend_process_example =
    unsuspend_process-suspend_process disk everyone 1 process_one [] small refl small-IsSound
      (unfold get_data_by_pid find_process in refl) (omega arith) refl refl refl refl tt refl
      (omega arith) (omega arith) refl (omega arith)

delete_process-suspend_process_example :
    (t : Storage) × ((suspend_process disk 1 >>= λ _. delete_process 1) small ≡ done tt t)
    × (t.remaining ≡ 4 + 2 * (2 * 4))
delete_process-suspend_process_example =
    delete_process-suspend_process disk everyone 1 process_one [] small refl small-IsSound
      (unfold get_data_by_pid find_process in refl) (omega arith) refl refl

-- The first process is in the swap file, and the second one in the memory.
abbrev pages_of_one : List (List ℕ)
pages_of_one = (1 ∷ 2 ∷ 3 ∷ 4 ∷ []) ∷ (0 ∷ 255 ∷ 0 ∷ 9 ∷ []) ∷ []

abbrev second : ℕ → Bool
second pid = pid == 2

abbrev swapped_small : Storage
swapped_small = record small {
  remaining = 12;
  reservation_bits = false ∷ true ∷ false ∷ false ∷ [];
  swap = some (file_text ((1, pages_of_one) ∷ []));
}

once :
    (i : ℕ)
    → i < 4
    → owners 4 i (4 ∷ []) ≡ bit_value (get_or (false ∷ true ∷ false ∷ false ∷ []) i false)
once zero h = refl
once (suc zero) h = refl
once (suc (suc zero)) h = refl
once (suc (suc (suc zero))) h = refl
once (suc (suc (suc (suc i)))) h = absurd (omega arith)

swapped_small-IsSound : IsSound [] second swapped_small
swapped_small-IsSound = record {
  page_pos = omega arith;
  numbered = unfold bases_from in refl;
  memory_length = refl;
  frames_fit = refl;
  accounted = refl;
  owned = record { in_range = (refl, omega arith, tt); owned_once = once };
  distinct = ((omega arith, tt), (tt, tt));
}

unsuspend_process-Restored_example :
    Restored disk second 1 ((1, pages_of_one) ∷ []) pages_of_one swapped_small
unsuspend_process-Restored_example =
    unsuspend_process-Restored disk second 1 process_one ((1, pages_of_one) ∷ []) pages_of_one
      swapped_small refl swapped_small-IsSound refl (unfold get_data_by_pid find_process in refl)
      (omega arith) refl (omega arith) refl (omega arith) (omega arith) (omega arith) (omega arith)
      refl refl

-- What SuspendProcess writes of a page.
shown : show_bytes (0 ∷ 255 ∷ []) ≡ 91 ∷ 48 ∷ 32 ∷ 50 ∷ 53 ∷ 53 ∷ 93 ∷ []
unfolding show_bytes join itoa
shown = refl
