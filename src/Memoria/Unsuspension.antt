-- ===== src/Memoria/Unsuspension.antt =====
-- UnSuspendProcess of memoria/storage/storage.go: the pages of the swap file in new frames.
use tp_sisop_go_utn.Memoria.Swap.{
  allocate_pages, first_chunk, swap_in, Files, get_from_swap, remove_from_swap, unsuspend_process,
}
use tp_sisop_go_utn.Memoria.SwapFile.{
  body_text, copy_others-file_text, file_text, find_block-file_text, IntPids, SwapBlock, swapped,
  unswapped,
}
use tp_sisop_go_utn.Memoria.SwapIn.{
  pages_at-write_pages, PagesOf, PagesRestored, restore_pages-PagesRestored, write_pages_outside,
}
use tp_sisop_go_utn.Memoria.SwapPages.{first_chunk-body_text, middle_chunks-body_text}
use tp_sisop_go_utn.Memoria.Allocation.{allocate_memory-Allocated, Allocated, taken, WholePages}
use tp_sisop_go_utn.Memoria.Deallocation.{InRange-process, owners-without, with_}
use tp_sisop_go_utn.Memoria.Frames.{
  InRange, InRange-append_left, InRange-append_right, owners, owners-append, bit_value_le,
}
use tp_sisop_go_utn.Memoria.Invariant.{DistinctPids-update, IsSound, owned_frames}
use tp_sisop_go_utn.Memoria.State.{
  find_process, get_data_by_pid, ProcessData, Storage, with_metrics, with_process,
}
use tp_sisop_go_utn.Memoria.Touched.{
  find_process-Touched, Touched-IsSound, Touched-metrics, Touched-trans,
}
use tp_sisop_go_utn.Memoria.PageRuns.{page_at, pages_at, Readable, Readable-InRange}
use tp_sisop_go_utn.Memoria.Lookup.{contains-owners, find_process-update, InRange-contains}
use tp_sisop_go_utn.Memoria.Regained.{
  ceil_div_mul, give_bases, InRange-give_bases, owners-give_bases, owners_beyond,
}
use tp_sisop_go_utn.Memoria.Ownership.{Owns-same}
use tp_sisop_go_utn.Memoria.Access.{contains}
use tp_sisop_go_utn.Utils.Strconv.{atoi, atoi-itoa}
use tp_sisop_go_utn.Base.Outcome.{done}
use tp_sisop_go_utn.Utils.Strings.{split}
use native.Mathlib.Decide.{dec_lt}
use tp_sisop_go_utn.Base.{
  refl, ◌∙◌, ap, sym, arith, ℕ, ◌+◌, ◌*◌, ◌/◌, ◌^◌, ◌≤◌, ◌<◌, ◌≡◌, ◌≢◌, some, List, [], ◌∷◌, ◌++◌,
  length, Bool, true, false, suc, get_or, replicate, length-replicate,
}

-- What UnSuspendProcess leaves of `s`, where the swap file has these blocks and these pages are the
-- process's.
pub record Restored (files : Files) (resident : ℕ → Bool) (pid : ℕ) (blocks : List SwapBlock)
    (pages : List (List ℕ)) (s : Storage) : Type 0 where
  pub after : Storage
  pub result : unsuspend_process files pid s ≡ done tt after
  pub swapped_in : after.swap ≡ some (file_text (unswapped pid blocks))
  pub entry : ProcessData
  pub kept : get_data_by_pid pid after ≡ some entry
  pub counted : length entry.page_bases ≡ length pages
  pub restored : pages_at s.page_size after.user_memory entry.page_bases ≡ pages
  pub charged : after.remaining + s.page_size * length pages ≡ s.remaining
  pub others : (i : ℕ) → i ≢ pid → get_data_by_pid i after ≡ get_data_by_pid i s
  pub untouched :
      (i base : ℕ) (p : ProcessData)
      → resident i ≡ true
      → get_data_by_pid i s ≡ some p
      → contains p.page_bases base ≡ true
      → page_at s.page_size after.user_memory base ≡ page_at s.page_size s.user_memory base
  pub sound : IsSound [] (with_ pid resident) after

module _ (files : Files) (resident : ℕ → Bool) (pid : ℕ) (q : ProcessData) (blocks : List SwapBlock)
    (pages : List (List ℕ)) (s : Storage) (away : resident pid ≡ false) (v : IsSound [] resident s)
    (whole : WholePages s) (found : get_data_by_pid pid s ≡ some q)
    (some_page : 0 < length q.page_bases) (stored : s.swap ≡ some (file_text blocks))
    (small : IntPids blocks) (in_file : swapped pid blocks ≡ some pages)
    (right : PagesOf s.page_size pages) (count_pos : 0 < length pages)
    (count_small : length pages < 2 ^ 63) (fits : s.page_size * length pages ≤ s.remaining)
    (temp : files.creates_temp ≡ true) (renames : files.renames ≡ true) where
  allocated : Allocated [] resident s (s.page_size * length pages)
  allocated =
      allocate_memory-Allocated [] resident s (s.page_size * length pages) v whole
        (size_pos s.page_size (length pages) v.page_pos count_pos) fits
    where
      size_pos : (a b : ℕ) → 0 < a → 0 < b → 0 < a * b
      size_pos a b x y = grind arith

  -- The variables after the allocation, and with the block out of the file.
  with_frames : Storage
  with_frames = taken s (s.page_size * length pages) allocated.bits

  removed : Storage
  removed = record with_frames { swap = some (file_text (unswapped pid blocks)) }

  given : Storage
  given = with_process pid (give_bases allocated.new) removed

  get_from_swap_lem : get_from_swap pid s ≡ done (body_text pages ++ 126 ∷ []) s
  unfolding get_from_swap
  get_from_swap_lem = ground (
    arith,
    stored,
    find_block-file_text (suc (length (file_text blocks))) pid blocks pages s (omega arith) small
        in_file,
  )

  remove_from_swap_lem : remove_from_swap files pid with_frames ≡ done tt removed
  unfolding remove_from_swap removed with_frames
  remove_from_swap_lem = ground (
    arith,
    stored,
    temp,
    renames,
    copy_others-file_text (suc (length (file_text blocks))) pid blocks pages with_frames
        (omega arith) small in_file,
  )

  new_in_range : InRange s.page_size (length allocated.bits) allocated.new
  new_in_range = InRange-append_left s.page_size (length allocated.bits) allocated.new [] (
      InRange-append_left s.page_size (length allocated.bits) (allocated.new ++ []) _
        allocated.sound.owned.in_range)

  given-IsSound : IsSound [] (with_ pid resident) given
  unfolding given removed with_frames get_data_by_pid
  given-IsSound =
      let a = allocated.sound in
      let before = owned_frames resident s.system_memory in
      record {
        page_pos = a.page_pos;
        numbered = a.numbered;
        memory_length = a.memory_length;
        frames_fit = a.frames_fit;
        accounted = a.accounted;
        owned =
            Owns-same s.page_size allocated.bits ((allocated.new ++ []) ++ before) _
              (λ i. omega (
                arith,
                owners-append s.page_size i (allocated.new ++ []) before,
                owners-append s.page_size i allocated.new [],
                owners-give_bases resident pid allocated.new away s.page_size i q s.system_memory
                    a.distinct found,
              ))
              (InRange-give_bases resident pid allocated.new away s.page_size
                (length allocated.bits) s.system_memory a.distinct new_in_range
                (InRange-append_right s.page_size (length allocated.bits) (allocated.new ++ [])
                  before a.owned.in_range))
              a.owned;
        distinct =
            DistinctPids-update pid (give_bases allocated.new) s.system_memory (λ p. refl)
              a.distinct;
      }

  new-Readable : Readable allocated.new s.page_size (length s.user_memory) allocated.new
  new-Readable =
      Readable-InRange s.page_size (length allocated.bits) (length s.user_memory) allocated.new
        v.page_pos
        (allocated.sound.frames_fit ∙ ap (λ (n : ℕ). n / s.page_size) (sym v.memory_length))
        new_in_range

  exact : length pages ≡ length allocated.new
  exact = sym (allocated.exact ∙ ceil_div_mul s.page_size (length pages) v.page_pos)

  given_found : find_process pid given.system_memory ≡ some (give_bases allocated.new q)
  unfolding given removed with_frames get_data_by_pid
  given_found = ground (
    arith,
    find_process-update pid (give_bases allocated.new) (λ p. refl) pid s.system_memory,
    found,
  )

  loop : PagesRestored pid allocated.new pages (replicate s.page_size 0) given
  unfolding given removed with_frames
  loop =
      restore_pages-PagesRestored pid s.page_size (length s.user_memory) allocated.new allocated.new
        pages (replicate s.page_size 0) (give_bases allocated.new q) given given_found refl refl
        refl v.page_pos (length-replicate s.page_size 0) exact right new-Readable

  -- A frame's owners among the new bases and those of before.
  owned_split :
      (i : ℕ)
      → i < length allocated.bits
      → owners s.page_size i allocated.new
          + owners s.page_size i (owned_frames resident s.system_memory)
        ≤ 1
  owned_split i h =
      let before = owned_frames resident s.system_memory in
      omega (
        arith,
        allocated.sound.owned.owned_once i h,
        bit_value_le (get_or allocated.bits i false),
        owners-append s.page_size i (allocated.new ++ []) before,
        owners-append s.page_size i allocated.new [],
      )

  new_once : (i : ℕ) → owners s.page_size i allocated.new ≤ 1
  new_once i = elim (dec_lt i (length allocated.bits)) [
    | yes h ↦ omega (arith, owned_split i h)
    | no n ↦ omega (
      arith,
      owners_beyond s.page_size (length allocated.bits) i allocated.new new_in_range (omega arith),
    )
  ]

  not_new :
      (i base : ℕ) (p : ProcessData)
      → resident i ≡ true
      → get_data_by_pid i s ≡ some p
      → contains p.page_bases base ≡ true
      → (base / s.page_size * s.page_size ≡ base)
        × (owners s.page_size (base / s.page_size) allocated.new ≡ 0)
  unfolding get_data_by_pid
  not_new i base p here there has =
      let before = owned_frames resident s.system_memory in
      let r = InRange-contains s.page_size (length allocated.bits) base p.page_bases has (
        InRange-process resident i p here s.page_size _ s.system_memory there (
          InRange-append_right s.page_size (length allocated.bits) (allocated.new ++ []) before
            allocated.sound.owned.in_range)) in
      (
        r.0,
        omega (
          arith,
          owned_split (base / s.page_size) r.1,
          contains-owners s.page_size base p.page_bases has,
          owners-without resident i p here s.page_size (base / s.page_size) s.system_memory
              v.distinct there,
        ),
      )

  abbrev count_unsuspension : ProcessData → ProcessData
  count_unsuspension = with_metrics (λ m. record m { unsuspensions = m.unsuspensions + 1 })

  -- The process's frames, by their number.
  allocate_pages_lem :
      allocate_pages (atoi (first_chunk (split 10 (body_text pages ++ 126 ∷ [])))).0 s
      ≡ done allocated.new with_frames
  unfolding with_frames
  allocate_pages_lem =
      rw (first_chunk-body_text pages, atoi-itoa (length pages) count_small) allocated.result

  same_page_size : given.page_size ≡ s.page_size
  unfolding given removed with_frames
  same_page_size = refl

  swap_in_lem : swap_in files pid s ≡ done tt (with_process pid count_unsuspension loop.after)
  unfolding given
  swap_in_lem = ground (
    arith,
    get_from_swap_lem,
    allocate_pages_lem,
    remove_from_swap_lem,
    middle_chunks-body_text pages,
    loop.result,
    same_page_size,
  )

  -- UnSuspendProcess of a process whose block in the swap file has these pages succeeds: the block
  -- is gone from the file, the process has as many bases as there are pages, with those bytes in
  -- their order, their size is taken off what remains, every other pid is found as before, what
  -- other resident processes have in their pages is the same, and the variables are sound with the
  -- process resident. The variables are sound before, the memory is of whole pages, the process is
  -- stored, not resident and has bases from before, there is at least one page, the pages are whole
  -- and of bytes, they fit into what remains, their number and the pids of the file fit into an
  -- int, and the temporary file can be created and renamed.
  pub unsuspend_process-Restored : Restored files resident pid blocks pages s
  unfolding unsuspend_process get_data_by_pid given removed with_frames
  unsuspend_process-Restored =
      let counted =
        Touched-metrics pid (λ m. record m { unsuspensions = m.unsuspensions + 1 }) loop.after in
      let all = Touched-trans pid loop.touched counted in
      record {
        after = with_process pid count_unsuspension loop.after;
        result = ground (arith, found, some_page, swap_in_lem);
        swapped_in = loop.touched.same_swap;
        entry = all.change (give_bases allocated.new q);
        kept = ground (arith, find_process-Touched pid all pid, given_found);
        counted = ap length (all.keeps_bases (give_bases allocated.new q)) ∙ sym exact;
        restored =
            ap (pages_at s.page_size loop.after.user_memory)
              (all.keeps_bases (give_bases allocated.new q))
            ∙ ap (λ m. pages_at s.page_size m allocated.new) loop.memory
            ∙ pages_at-write_pages s.page_size (length allocated.bits) allocated.new allocated.new
                s.user_memory pages new_in_range right exact new_once new-Readable;
        charged = omega (
          arith,
          loop.touched.same_remaining,
          ap (λ (n : ℕ). s.page_size * n) (ceil_div_mul s.page_size (length pages) v.page_pos),
          fits,
        );
        others = λ i other. ground (
          arith,
          find_process-Touched pid all i,
          find_process-update pid (give_bases allocated.new) (λ p. refl) i s.system_memory,
          other,
        );
        untouched = λ i base p here there has.
            ap (λ m. page_at s.page_size m base) loop.memory
            ∙ write_pages_outside s.page_size (length allocated.bits) base allocated.new
                s.user_memory pages new_in_range right (not_new i base p here there has).0
                (not_new i base p here there has).1;
        sound = Touched-IsSound pid [] (with_ pid resident) all given-IsSound;
      }
