-- ===== src/Memoria/SwapRoundTrip.antt =====
-- SuspendProcess and then UnSuspendProcess (memoria/storage/storage.go).
use tp_sisop_go_utn.Memoria.Access.{contains}
use tp_sisop_go_utn.Memoria.Swap.{Files, suspend_process, text_of, unsuspend_process}
use tp_sisop_go_utn.Memoria.SwapFile.{file_text, IntPids, SwapBlock, swapped, unswapped}
use tp_sisop_go_utn.Memoria.PageRuns.{page_at, pages_at, Readable, Readable-InRange}
use tp_sisop_go_utn.Memoria.SwapOut.{suspend_process-Suspended, Suspended, length-pages_at}
use tp_sisop_go_utn.Memoria.SwapIn.{PagesOf}
use tp_sisop_go_utn.Memoria.SwapPages.{AllBytes}
use tp_sisop_go_utn.Memoria.Unsuspension.{Restored, unsuspend_process-Restored}
use tp_sisop_go_utn.Memoria.Allocation.{WholePages}
use tp_sisop_go_utn.Memoria.Deallocation.{InRange-process, with_, without}
use tp_sisop_go_utn.Memoria.Invariant.{IsSound}
use tp_sisop_go_utn.Memoria.State.{get_data_by_pid, ProcessData, Storage}
use tp_sisop_go_utn.Base.Outcome.{done, ◌>>=◌}
use tp_sisop_go_utn.Base.{
  ◌∙◌, ap, sym, arith, ℕ, ◌*◌, ◌/◌, ◌^◌, ◌<◌, ◌≡◌, ◌≢◌, none, some, List, [], ◌∷◌, ◌++◌, length,
  Bool, true, suc, zero, take, drop, length-take, length-drop,
}

module _ (pid : ℕ) (pages : List (List ℕ)) where
  swapped-snoc :
      (blocks : List SwapBlock)
      → swapped pid blocks ≡ none
      → swapped pid (blocks ++ (pid, pages) ∷ []) ≡ some pages
  swapped-snoc [] h = ground arith
  swapped-snoc ((i, old) ∷ blocks) h = ground (arith, swapped-snoc blocks)

  unswapped-snoc :
      (blocks : List SwapBlock)
      → swapped pid blocks ≡ none
      → unswapped pid (blocks ++ (pid, pages) ∷ []) ≡ blocks
  unswapped-snoc [] h = ground arith
  unswapped-snoc ((i, old) ∷ blocks) h = ground (arith, unswapped-snoc blocks)

  IntPids-snoc :
      (blocks : List SwapBlock)
      → IntPids blocks
      → pid < 2 ^ 63
      → IntPids (blocks ++ (pid, pages) ∷ [])
  IntPids-snoc [] h small = (small, tt)
  IntPids-snoc ((i, old) ∷ blocks) h small = (h.0, IntPids-snoc blocks h.1 small)

AllBytes-take : (n : ℕ) (bytes : List ℕ) → AllBytes bytes → AllBytes (take n bytes)
AllBytes-take zero bytes h = tt
AllBytes-take (suc n) [] h = tt
AllBytes-take (suc n) (b ∷ bytes) h = (h.0, AllBytes-take n bytes h.1)

AllBytes-drop : (n : ℕ) (bytes : List ℕ) → AllBytes bytes → AllBytes (drop n bytes)
AllBytes-drop zero bytes h = h
AllBytes-drop (suc n) [] h = tt
AllBytes-drop (suc n) (b ∷ bytes) h = AllBytes-drop n bytes h.1

-- The pages inside a memory of bytes are whole.
PagesOf-pages_at :
    (own : List ℕ) (ps : ℕ) (mem bases : List ℕ)
    → AllBytes mem
    → Readable own ps (length mem) bases
    → PagesOf ps (pages_at ps mem bases)
PagesOf-pages_at own ps mem [] bytes r = tt
PagesOf-pages_at own ps mem (b ∷ bases) bytes r = (
  omega (arith, length-take ps (drop b mem), length-drop b mem, r.1),
  AllBytes-take ps (drop b mem) (AllBytes-drop b mem bytes),
  PagesOf-pages_at own ps mem bases bytes r.2,
)

-- What the two leave of `s` together.
pub record RoundTrip (files : Files) (resident : ℕ → Bool) (pid : ℕ) (p : ProcessData)
    (blocks : List SwapBlock) (s : Storage) : Type 0 where
  pub after : Storage
  pub result : (suspend_process files pid >>= λ _. unsuspend_process files pid) s ≡ done tt after
  pub entry : ProcessData
  pub kept : get_data_by_pid pid after ≡ some entry
  pub same_pages :
      pages_at s.page_size after.user_memory entry.page_bases
      ≡ pages_at s.page_size s.user_memory p.page_bases
  pub same_remaining : after.remaining ≡ s.remaining
  pub same_swap : after.swap ≡ some (file_text blocks)
  pub others : (i : ℕ) → i ≢ pid → get_data_by_pid i after ≡ get_data_by_pid i s
  pub untouched :
      (i base : ℕ) (q : ProcessData)
      → i ≢ pid
      → resident i ≡ true
      → get_data_by_pid i s ≡ some q
      → contains q.page_bases base ≡ true
      → page_at s.page_size after.user_memory base ≡ page_at s.page_size s.user_memory base
  pub sound : IsSound [] (with_ pid (without pid resident)) after

module _ (files : Files) (resident : ℕ → Bool) (pid : ℕ) (p : ProcessData) (blocks : List SwapBlock)
    (s : Storage) (here : resident pid ≡ true) (v : IsSound [] resident s)
    (found : get_data_by_pid pid s ≡ some p) (some_page : 0 < length p.page_bases)
    (opens : files.appends ≡ true) (temp : files.creates_temp ≡ true)
    (renames : files.renames ≡ true) (old : text_of s.swap ≡ file_text blocks)
    (small : IntPids blocks) (absent : swapped pid blocks ≡ none) (pid_small : pid < 2 ^ 63)
    (count_small : length p.page_bases < 2 ^ 63) (whole : WholePages s)
    (bytes : AllBytes s.user_memory) where
  suspended : Suspended files resident pid p blocks s
  unfolding get_data_by_pid
  suspended =
      suspend_process-Suspended files resident pid p blocks s here v found some_page opens old

  readable : Readable p.page_bases s.page_size (length s.user_memory) p.page_bases
  unfolding get_data_by_pid
  readable =
      Readable-InRange s.page_size (length s.reservation_bits) (length s.user_memory) p.page_bases
        v.page_pos (v.frames_fit ∙ ap (λ (n : ℕ). n / s.page_size) (sym v.memory_length))
        (InRange-process resident pid p here s.page_size _ s.system_memory found v.owned.in_range)

  abbrev pages : List (List ℕ)
  pages = pages_at s.page_size s.user_memory p.page_bases

  same_page_size : suspended.after.page_size ≡ s.page_size
  same_page_size = ap (λ c. c.page_size) suspended.same_pages

  back :
      Restored files (without pid resident) pid (blocks ++ (pid, pages) ∷ []) pages suspended.after
  back =
      let r = suspended in
      unsuspend_process-Restored files (without pid resident) pid r.entry
        (blocks ++ (pid, pages) ∷ []) pages r.after (ground arith) r.sound
        (rw (r.same_size, same_page_size) whole) r.kept (rw r.same_bases some_page) r.swapped_out
        (IntPids-snoc pid pages blocks small pid_small) (swapped-snoc pid pages blocks absent)
        (rw same_page_size
          (PagesOf-pages_at p.page_bases s.page_size s.user_memory p.page_bases bytes readable))
        (rw (length-pages_at s.page_size s.user_memory p.page_bases) some_page)
        (rw (length-pages_at s.page_size s.user_memory p.page_bases) count_small)
        (omega (
          arith,
          r.refunded,
          ap (λ (n : ℕ). n * length pages) same_page_size,
          ap (λ (n : ℕ). s.page_size * n) (length-pages_at s.page_size s.user_memory p.page_bases),
        ))
        temp renames

  -- SuspendProcess and then UnSuspendProcess of a resident process with pages: both succeed, each
  -- of its pages has the bytes that it had, in the same order, the remaining memory, the blocks
  -- of the swap file and every other pid's entry are as before, every page of another resident
  -- process has the bytes that it had, and the variables are sound with the process. The
  -- variables are sound before, the memory is of bytes and of whole pages, the swap file can be
  -- opened and replaced, holds blocks of other pids, and pids and the number of pages fit into an
  -- int.
  pub unsuspend_process-suspend_process : RoundTrip files resident pid p blocks s
  unsuspend_process-suspend_process = record {
    after = back.after;
    result = ground (arith, suspended.result, back.result);
    entry = back.entry;
    kept = back.kept;
    same_pages = rw same_page_size at back.restored;
    same_remaining = omega (
      arith,
      back.charged,
      suspended.refunded,
      ap (λ (n : ℕ). n * length pages) same_page_size,
      ap (λ (n : ℕ). s.page_size * n) (length-pages_at s.page_size s.user_memory p.page_bases),
    );
    same_swap =
        back.swapped_in ∙ ap (λ b. some (file_text b)) (unswapped-snoc pid pages blocks absent);
    others = λ i other. back.others i other ∙ suspended.others i other;
    untouched = λ i base q other stays there has.
        rw (same_page_size, suspended.same_memory) at
          (back.untouched i base q (ground (arith, other, stays)) (suspended.others i other ∙ there)
            has);
    sound = back.sound;
  }
