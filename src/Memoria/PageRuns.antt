-- ===== src/Memoria/PageRuns.antt =====
-- Pages inside the memory, as GetPage and the loop of formatSwapData in memoria/storage/storage.go
-- read them.
use tp_sisop_go_utn.Memoria.Swap.{format_pages}
use tp_sisop_go_utn.Memoria.SwapFile.{lines_text}
use tp_sisop_go_utn.Memoria.State.{
  find_process, get_data_by_pid, ProcessData, Storage, with_metrics,
}
use tp_sisop_go_utn.Memoria.Touched.{Touched, Touched-metrics, Touched-refl, Touched-trans}
use tp_sisop_go_utn.Memoria.Access.{add_reads, contains, get_page}
use tp_sisop_go_utn.Memoria.Frames.{InRange}
use tp_sisop_go_utn.Memoria.Lookup.{find_process-update}
use native.Mathlib.Nat.{div-mul-le_self}
use tp_sisop_go_utn.Base.Outcome.{done}
use tp_sisop_go_utn.Base.{
  refl, ap, arith, ℕ, ◌+◌, ◌*◌, ◌/◌, ◌≤◌, ◌<◌, ◌≡◌, some, List, [], ◌∷◌, take, drop, length, true,
  suc,
}

-- The bytes of the page at a base, and of several.
abbrev pub page_at : ℕ → List ℕ → ℕ → List ℕ
page_at page_size memory base = take page_size (drop base memory)

abbrev pub pages_at : ℕ → List ℕ → List ℕ → List (List ℕ)
pages_at page_size memory [] = []
pages_at page_size memory (base ∷ bases) =
    page_at page_size memory base ∷ pages_at page_size memory bases

-- Bases that are among `own`, of pages inside the memory.
abbrev pub Readable : List ℕ → ℕ → ℕ → List ℕ → Type 0
Readable own page_size size [] = Unit {0}
Readable own page_size size (base ∷ bases) =
    (contains own base ≡ true) × (base + page_size ≤ size) × Readable own page_size size bases

Readable-cons :
    (x : ℕ) (own : List ℕ) (ps size : ℕ) (bases : List ℕ)
    → Readable own ps size bases
    → Readable (x ∷ own) ps size bases
unfolding contains
Readable-cons x own ps size [] h = tt
Readable-cons x own ps size (b ∷ bases) h =
    (ground (arith, h.0), h.1, Readable-cons x own ps size bases h.2)

-- A whole frame with an index below the number of frames lies inside the memory.
pub frame_inside :
    (ps n size b : ℕ) → 0 < ps → n ≡ size / ps → b / ps * ps ≡ b → b / ps < n → b + ps ≤ size
frame_inside ps n size b ps_pos e whole lt =
    let up : suc (b / ps) * ps ≤ n * ps = mul_mono (suc (b / ps)) n ps lt in
    omega (arith, up, whole, e, ap (λ (t : ℕ). t * ps) e, div-mul-le_self size ps)
  where
    mul_mono : (x y z : ℕ) → x ≤ y → x * z ≤ y * z
    mul_mono x y z le = grind arith

pub Readable-InRange :
    (ps n size : ℕ) (bases : List ℕ)
    → 0 < ps
    → n ≡ size / ps
    → InRange ps n bases
    → Readable bases ps size bases
unfolding contains
Readable-InRange ps n size [] ps_pos e h = tt
Readable-InRange ps n size (b ∷ bases) ps_pos e h = (
  ground arith,
  frame_inside ps n size b ps_pos e h.0 h.1,
  Readable-cons b bases ps size bases (Readable-InRange ps n size bases ps_pos e h.2),
)

pub get_page-Readable :
    (pid base : ℕ) (p : ProcessData) (s : Storage)
    → find_process pid s.system_memory ≡ some p
    → contains p.page_bases base ≡ true
    → base + s.page_size ≤ length s.user_memory
    → get_page pid base s
      ≡ done (page_at s.page_size s.user_memory base) (add_reads s.page_size pid s)
unfolding get_page get_data_by_pid
get_page-Readable pid base p s found has fits = ground (arith, found, has, fits)

found-add_reads :
    (pid : ℕ) (p : ProcessData) (s : Storage)
    → find_process pid s.system_memory ≡ some p
    → find_process pid (add_reads s.page_size pid s).system_memory
      ≡ some (with_metrics (λ m. record m { reads = m.reads + s.page_size }) p)
found-add_reads pid p s found = ground (
  arith,
  find_process-update pid (with_metrics (λ m. record m { reads = m.reads + s.page_size }))
      (λ k. refl) pid s.system_memory,
  found,
)

-- What the loop of formatSwapData returns and leaves.
pub record Formatted (pid : ℕ) (bases : List ℕ) (s : Storage) : Type 0 where
  pub after : Storage
  pub result :
      format_pages pid bases s
      ≡ done (some (lines_text (pages_at s.page_size s.user_memory bases))) after
  pub touched : Touched pid s after
  pub same_memory : after.user_memory ≡ s.user_memory

pub format_pages-Formatted :
    (pid : ℕ) (bases : List ℕ) (p : ProcessData) (s : Storage)
    → find_process pid s.system_memory ≡ some p
    → Readable p.page_bases s.page_size (length s.user_memory) bases
    → Formatted pid bases s
unfolding format_pages
format_pages-Formatted pid [] p s found readable = record {
  after = s;
  result = refl;
  touched = Touched-refl pid s;
  same_memory = refl;
}
format_pages-Formatted pid (base ∷ bases) p s found readable =
    let t = add_reads s.page_size pid s in
    let q = with_metrics (λ m. record m { reads = m.reads + s.page_size }) p in
    let rest = format_pages-Formatted pid bases q t (found-add_reads pid p s found) readable.2 in
    record {
      after = rest.after;
      result =
          ground (arith, get_page-Readable pid base p s found readable.0 readable.1, rest.result);
      touched =
          Touched-trans pid
            (Touched-metrics pid (λ m. record m { reads = m.reads + s.page_size }) s) rest.touched;
      same_memory = rest.same_memory;
    }
