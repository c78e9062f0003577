-- ===== src/Memoria/SwapTwice.antt =====
-- DeleteProcess of a process that SuspendProcess has swapped out (memoria/storage/storage.go).
use tp_sisop_go_utn.Memoria.Swap.{Files, suspend_process, text_of}
use tp_sisop_go_utn.Memoria.SwapFile.{file_text, SwapBlock}
use tp_sisop_go_utn.Memoria.SwapOut.{suspend_process-Suspended, Suspended}
use tp_sisop_go_utn.Memoria.Deallocation.{InRange-process}
use tp_sisop_go_utn.Memoria.Frames.{InRange, clear_bits}
use tp_sisop_go_utn.Memoria.Invariant.{IsSound}
use tp_sisop_go_utn.Memoria.State.{get_data_by_pid, ProcessData, Storage}
use tp_sisop_go_utn.Memoria.Process.{delete_process, swap_remove}
use tp_sisop_go_utn.Memoria.Malloc.{deallocate_memory}
use tp_sisop_go_utn.Base.Outcome.{done, ◌>>=◌}
use tp_sisop_go_utn.Base.{
  refl, ◌∙◌, ap, sym, arith, ℕ, ◌+◌, ◌*◌, ◌/◌, ◌<◌, ◌≡◌, some, List, [], ◌∷◌, length, Bool, true,
  false, set, length-set,
}

-- Frames that exist can be cleared, whatever their bits are.
clear_bits_inside :
    (ps n : ℕ) (bases : List ℕ) (bits : List Bool)
    → 0 < ps
    → n ≡ length bits
    → InRange ps n bases
    → (left : List Bool) × (clear_bits ps bases bits ≡ some left)
unfolding clear_bits
clear_bits_inside ps n [] bits pos e h = (bits, refl)
clear_bits_inside ps n (b ∷ bases) bits pos e h =
    let (left, rest) =
      clear_bits_inside ps n bases (set bits (b / ps) false) pos
        (e ∙ sym (length-set bits (b / ps) false)) h.2 in
    (left, ground (arith, rest, h.1, e, pos))

module _ (files : Files) (resident : ℕ → Bool) (pid : ℕ) (p : ProcessData) (blocks : List SwapBlock)
    (s : Storage) (here : resident pid ≡ true) (v : IsSound [] resident s)
    (found : get_data_by_pid pid s ≡ some p) (some_page : 0 < length p.page_bases)
    (opens : files.appends ≡ true) (old : text_of s.swap ≡ file_text blocks) where
  gone : Suspended files resident pid p blocks s
  unfolding get_data_by_pid
  gone = suspend_process-Suspended files resident pid p blocks s here v found some_page opens old

  gone_page_size : gone.after.page_size ≡ s.page_size
  gone_page_size = ap (λ c. c.page_size) gone.same_pages

  cleared :
      (left : List Bool) × (clear_bits gone.after.page_size gone.entry.page_bases
          gone.after.reservation_bits
        ≡ some left)
  unfolding get_data_by_pid
  cleared =
      rw (gone_page_size, gone.same_bases)
        (clear_bits_inside s.page_size (length s.reservation_bits) p.page_bases
          gone.after.reservation_bits v.page_pos
          (v.frames_fit ∙ sym (rw (gone.same_size, gone_page_size) at gone.sound.frames_fit))
          (InRange-process resident pid p here s.page_size _ s.system_memory found
            v.owned.in_range))

  -- DeleteProcess of a resident process with pages that has just been suspended succeeds, and gives
  -- back its frames a second time: the remaining memory has grown by twice their size. The
  -- variables are sound before, and the swap file can be opened.
  pub delete_process-suspend_process :
      (t : Storage) × ((suspend_process files pid >>= λ _. delete_process pid) s ≡ done tt t)
      × (t.remaining ≡ s.remaining + 2 * (length p.page_bases * s.page_size))
  unfolding delete_process deallocate_memory
  delete_process-suspend_process =
      let t = gone.after in
      (
        record t {
          reservation_bits = cleared.0;
          remaining = t.remaining + length gone.entry.page_bases * t.page_size;
          system_memory = swap_remove pid t.system_memory;
        },
        ground (arith, gone.result, gone.kept, gone.same_bases, some_page, cleared.1),
        omega (
          arith,
          gone.refunded,
          ap (λ (n : ℕ). n * gone.after.page_size) (ap length gone.same_bases),
          ap (λ (n : ℕ). length p.page_bases * n) gone_page_size,
        ),
      )
