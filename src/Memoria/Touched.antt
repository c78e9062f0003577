-- ===== src/Memoria/Touched.antt =====
-- A change of the memory program's variables (memoria/storage/storage.go) to bytes of the user
-- memory and to the metrics of one process: what it leaves alone.
use tp_sisop_go_utn.Base.{
  refl, sym, ◌∙◌, ap, option_map, arith, ℕ, ◌==◌, ◌≡◌, if◌then◌else◌, List, [], ◌∷◌, length, Bool,
}
use tp_sisop_go_utn.Memoria.State.{
  with_metrics, with_process, MemoryMetrics, find_process, ProcessData, Storage, update_process,
}
use tp_sisop_go_utn.Memoria.Invariant.{DistinctPids-update, IsSound, owned_frames-update}
use tp_sisop_go_utn.Memoria.Lookup.{find_process-update}

pub record Touched (pid : ℕ) (s t : Storage) : Type 0 where
  pub change : ProcessData → ProcessData
  pub keeps_pid : (p : ProcessData) → (change p).pid ≡ p.pid
  pub keeps_bases : (p : ProcessData) → (change p).page_bases ≡ p.page_bases
  pub entries : t.system_memory ≡ update_process pid change s.system_memory
  pub same_pages : t.pagination ≡ s.pagination
  pub same_size : t.memory_size ≡ s.memory_size
  pub same_remaining : t.remaining ≡ s.remaining
  pub same_frames : t.frame_bases ≡ s.frame_bases
  pub same_bits : t.reservation_bits ≡ s.reservation_bits
  pub same_swap : t.swap ≡ s.swap
  pub same_length : length t.user_memory ≡ length s.user_memory

module _ (pid : ℕ) where
  update_process_same : (ps : List ProcessData) → update_process pid (λ p. p) ps ≡ ps
  unfolding update_process
  update_process_same [] = refl
  update_process_same (p ∷ ps) = ground (arith, update_process_same ps)

  update_process_twice :
      (f g : ProcessData → ProcessData) (ps : List ProcessData)
      → ((p : ProcessData) → (f p).pid ≡ p.pid)
      → update_process pid g (update_process pid f ps) ≡ update_process pid (λ p. g (f p)) ps
  unfolding update_process
  update_process_twice f g [] same = refl
  update_process_twice f g (p ∷ ps) same = ground (arith, same p, update_process_twice f g ps same)

  pub Touched-refl : (s : Storage) → Touched pid s s
  Touched-refl s = record {
    change = λ p. p;
    keeps_pid = λ p. refl;
    keeps_bases = λ p. refl;
    entries = sym (update_process_same s.system_memory);
    same_pages = refl;
    same_size = refl;
    same_remaining = refl;
    same_frames = refl;
    same_bits = refl;
    same_swap = refl;
    same_length = refl;
  }

  pub Touched-metrics :
      (f : MemoryMetrics → MemoryMetrics) (s : Storage)
      → Touched pid s (with_process pid (with_metrics f) s)
  Touched-metrics f s = record {
    change = with_metrics f;
    keeps_pid = λ p. refl;
    keeps_bases = λ p. refl;
    entries = refl;
    same_pages = refl;
    same_size = refl;
    same_remaining = refl;
    same_frames = refl;
    same_bits = refl;
    same_swap = refl;
    same_length = refl;
  }

  pub Touched-trans : {s t u : Storage} → Touched pid s t → Touched pid t u → Touched pid s u
  Touched-trans {s = s} a b = record {
    change = λ p. b.change (a.change p);
    keeps_pid = λ p. b.keeps_pid (a.change p) ∙ a.keeps_pid p;
    keeps_bases = λ p. b.keeps_bases (a.change p) ∙ a.keeps_bases p;
    entries =
        b.entries
        ∙ ap (update_process pid b.change) a.entries
        ∙ update_process_twice a.change b.change s.system_memory a.keeps_pid;
    same_pages = b.same_pages ∙ a.same_pages;
    same_size = b.same_size ∙ a.same_size;
    same_remaining = b.same_remaining ∙ a.same_remaining;
    same_frames = b.same_frames ∙ a.same_frames;
    same_bits = b.same_bits ∙ a.same_bits;
    same_swap = b.same_swap ∙ a.same_swap;
    same_length = b.same_length ∙ a.same_length;
  }

  -- The process is found with its change, and every other one as it was.
  pub find_process-Touched :
      {s t : Storage} (a : Touched pid s t) (i : ℕ)
      → find_process i t.system_memory ≡ (
          if i == pid
          then option_map a.change (find_process i s.system_memory)
          else find_process i s.system_memory)
  find_process-Touched {s = s} a i =
      ap (find_process i) a.entries ∙ find_process-update pid a.change a.keeps_pid i s.system_memory

  pub Touched-IsSound :
      {s t : Storage} (held : List ℕ) (resident : ℕ → Bool)
      → Touched pid s t
      → IsSound held resident s
      → IsSound held resident t
  Touched-IsSound {s = s} held resident a v = record {
    page_pos = rw a.same_pages v.page_pos;
    numbered = rw (a.same_frames, a.same_pages, a.same_bits) v.numbered;
    memory_length = a.same_length ∙ v.memory_length ∙ sym a.same_size;
    frames_fit = rw (a.same_bits, a.same_size, a.same_pages) v.frames_fit;
    accounted = rw (a.same_remaining, a.same_bits, a.same_pages, a.same_size) v.accounted;
    owned =
        rw
          (
            a.same_pages,
            a.same_bits,
            a.entries,
            owned_frames-update resident pid a.change s.system_memory a.keeps_pid a.keeps_bases,
          )
          v.owned;
    distinct =
        rw a.entries (DistinctPids-update pid a.change s.system_memory a.keeps_pid v.distinct);
  }
