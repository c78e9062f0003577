-- ===== src/Memoria/SwapOut.antt =====
-- SuspendProcess of memoria/storage/storage.go: what it writes to the swap file, and what is left.
use tp_sisop_go_utn.Memoria.PageRuns.{
  pages_at, Readable, Readable-InRange, Formatted, format_pages-Formatted,
}
use tp_sisop_go_utn.Memoria.Swap.{
  add_to_swap, block_text, Files, format_swap_data, suspend_process, text_of,
}
use tp_sisop_go_utn.Memoria.SwapFile.{file_text, file_text-append, lines_text, SwapBlock}
use tp_sisop_go_utn.Memoria.State.{
  find_process, get_data_by_pid, ProcessData, Storage, with_metrics, with_process,
}
use tp_sisop_go_utn.Memoria.Deallocation.{
  deallocate_memory-Deallocated, Deallocated, freed, InRange-process, without,
}
use tp_sisop_go_utn.Memoria.Touched.{find_process-Touched, Touched-IsSound, Touched-metrics}
use tp_sisop_go_utn.Memoria.Lookup.{find_process-update}
use tp_sisop_go_utn.Memoria.Invariant.{find_process-pid, IsSound}
use tp_sisop_go_utn.Utils.Strings.{Text}
use tp_sisop_go_utn.Base.Outcome.{done}
use tp_sisop_go_utn.Base.{
  refl, ◌∙◌, ap, sym, arith, ℕ, ◌+◌, ◌*◌, ◌/◌, ◌<◌, ◌≡◌, ◌≢◌, some, List, [], ◌∷◌, ◌++◌, length,
  Bool, true, suc,
}

-- What SuspendProcess leaves of `s`, where the process is `p` and the swap file has these blocks.
pub record Suspended (files : Files) (resident : ℕ → Bool) (pid : ℕ) (p : ProcessData)
    (blocks : List SwapBlock) (s : Storage) : Type 0 where
  pub after : Storage
  pub result : suspend_process files pid s ≡ done tt after
  pub swapped_out :
      after.swap
      ≡ some (file_text (blocks ++ (pid, pages_at s.page_size s.user_memory p.page_bases) ∷ []))
  pub same_memory : after.user_memory ≡ s.user_memory
  pub same_pages : after.pagination ≡ s.pagination
  pub same_size : after.memory_size ≡ s.memory_size
  pub refunded : after.remaining ≡ s.remaining + length p.page_bases * s.page_size
  pub entry : ProcessData
  pub kept : get_data_by_pid pid after ≡ some entry
  pub same_bases : entry.page_bases ≡ p.page_bases
  pub others : (i : ℕ) → i ≢ pid → get_data_by_pid i after ≡ get_data_by_pid i s
  pub sound : IsSound [] (without pid resident) after

pub length-pages_at : (ps : ℕ) (mem bases : List ℕ) → length (pages_at ps mem bases) ≡ length bases
length-pages_at ps mem [] = refl
length-pages_at ps mem (b ∷ bases) = ap suc (length-pages_at ps mem bases)

module _ (files : Files) (resident : ℕ → Bool) (pid : ℕ) (p : ProcessData) (blocks : List SwapBlock)
    (s : Storage) (here : resident pid ≡ true) (v : IsSound [] resident s)
    (found : find_process pid s.system_memory ≡ some p) (some_page : 0 < length p.page_bases)
    (opens : files.appends ≡ true) (old : text_of s.swap ≡ file_text blocks) where
  abbrev pages : List (List ℕ)
  pages = pages_at s.page_size s.user_memory p.page_bases

  readable : Readable p.page_bases s.page_size (length s.user_memory) p.page_bases
  readable =
      Readable-InRange s.page_size (length s.reservation_bits) (length s.user_memory) p.page_bases
        v.page_pos (v.frames_fit ∙ ap (λ (n : ℕ). n / s.page_size) (sym v.memory_length))
        (InRange-process resident pid p here s.page_size _ s.system_memory found v.owned.in_range)

  formatted : Formatted pid p.page_bases s
  formatted = format_pages-Formatted pid p.page_bases p s found readable

  -- The variables with the block in the swap file.
  written : Storage
  written = record formatted.after { swap = some (file_text (blocks ++ (pid, pages) ∷ [])) }

  appended :
      text_of formatted.after.swap
        ++ block_text p.pid (length p.page_bases) (some (lines_text pages))
      ≡ file_text (blocks ++ (pid, pages) ∷ [])
  appended =
      ap (λ (t : Text). t ++ block_text p.pid (length p.page_bases) (some (lines_text pages)))
        (ap text_of formatted.touched.same_swap ∙ old)
      ∙ ap
          (λ (k : ℕ).
            file_text blocks ++ block_text k (length p.page_bases) (some (lines_text pages)))
          (find_process-pid pid s.system_memory p found)
      ∙ ap (λ (n : ℕ). file_text blocks ++ block_text pid n (some (lines_text pages)))
          (sym (length-pages_at s.page_size s.user_memory p.page_bases))
      ∙ file_text-append blocks pid pages

  add_to_swap_lem : add_to_swap files p s ≡ done tt written
  unfolding add_to_swap format_swap_data written
  add_to_swap_lem =
      ground
        (arith, opens, find_process-pid pid s.system_memory p found, formatted.result, appended)

  written-IsSound : IsSound [] resident written
  unfolding written
  written-IsSound =
      let w = Touched-IsSound pid [] resident formatted.touched v in
      record {
        page_pos = w.page_pos;
        numbered = w.numbered;
        memory_length = w.memory_length;
        frames_fit = w.frames_fit;
        accounted = w.accounted;
        owned = w.owned;
        distinct = w.distinct;
      }

  entry : ProcessData
  entry = formatted.touched.change p

  entry_found : find_process pid written.system_memory ≡ some entry
  unfolding entry written
  entry_found = ground (arith, find_process-Touched pid formatted.touched pid, found)

  freed-written : Deallocated resident pid entry written
  freed-written =
      deallocate_memory-Deallocated resident pid entry written here written-IsSound entry_found

  abbrev count_suspension : ProcessData → ProcessData
  count_suspension = with_metrics (λ m. record m { suspensions = m.suspensions + 1 })

  -- SuspendProcess of a resident process with pages, with sound variables and a swap file that can
  -- be opened, succeeds: the file gets one block more, with the pid and the bytes of the process's
  -- pages in their order. Its frames are given back, the user memory is the same, it keeps its
  -- list of bases, every other pid is found as before, and the variables are sound without it.
  pub suspend_process-Suspended : Suspended files resident pid p blocks s
  unfolding suspend_process get_data_by_pid entry written
  suspend_process-Suspended =
      let d = freed-written in
      let t = freed written entry d.bits in
      let counted = Touched-metrics pid (λ m. record m { suspensions = m.suspensions + 1 }) t in
      let bases : entry.page_bases ≡ p.page_bases = formatted.touched.keeps_bases p in
      record {
        after = with_process pid count_suspension t;
        result = ground (arith, found, add_to_swap_lem, d.result, some_page);
        swapped_out = refl;
        same_memory = formatted.same_memory;
        same_pages = formatted.touched.same_pages;
        same_size = formatted.touched.same_size;
        refunded = rw (formatted.touched.same_remaining, bases, formatted.touched.same_pages) refl;
        entry = count_suspension entry;
        kept = ground (
          arith,
          find_process-update pid count_suspension (λ k. refl) pid written.system_memory,
          entry_found,
        );
        same_bases = bases;
        others = λ i other. ground (
          arith,
          find_process-update pid count_suspension (λ k. refl) i written.system_memory,
          find_process-Touched pid formatted.touched i,
          other,
        );
        sound = Touched-IsSound pid [] (without pid resident) counted d.sound;
      }
