-- ===== src/Memoria/PageReads.antt =====
-- GetPage and Memory_Dump of memoria/storage/storage.go, where every page of a stored process lies
-- inside the memory.
use tp_sisop_go_utn.Memoria.Reads.{bases_of, paged, Reads, Still-refl}
use tp_sisop_go_utn.Memoria.PageRuns.{frame_inside, get_page-Readable}
use tp_sisop_go_utn.Memoria.Touched.{find_process-Touched, Touched, Touched-metrics}
use tp_sisop_go_utn.Memoria.Access.{contains, get_page}
use tp_sisop_go_utn.Memoria.Deallocation.{InRange-process}
use tp_sisop_go_utn.Memoria.Invariant.{IsSound}
use tp_sisop_go_utn.Memoria.Lookup.{InRange-contains}
use tp_sisop_go_utn.Memoria.Dump.{dump_pages, memory_dump}
use tp_sisop_go_utn.Utils.Strings.{Text}
use mathlib.Core.Option.{some-injective}
use tp_sisop_go_utn.Memoria.State.{
  dump_not_created, no_such_process, page_not_assigned, find_process, get_data_by_pid, ProcessData,
  Storage,
}
use tp_sisop_go_utn.Base.Outcome.{done, fail}
use tp_sisop_go_utn.Base.{
  ◌+◌, ◌/◌, ◌==◌, ◌≡◌, ◌≤◌, ◌∙◌, [], ap, arith, Bool, Bool-cases, false, if◌then◌else◌, inl, inr,
  length, none, Option, option_map, refl, some, sym, true, ℕ,
}

-- Every page of a stored process lies inside the memory.
abbrev pub Inside : Storage → Type 0
Inside s =
    (pid base : ℕ) (p : ProcessData)
    → find_process pid s.system_memory ≡ some p
    → contains p.page_bases base ≡ true
    → base + s.page_size ≤ length s.user_memory

pub get_page-Reads :
    (pid base : ℕ) (s : Storage)
    → Inside s
    → Reads pid s (paged s.page_size s.user_memory base (bases_of pid s)) (get_page pid base s)
unfolding get_page get_data_by_pid
get_page-Reads pid base s inside = by_process (find_process pid s.system_memory) refl
  where
    by_process :
        (o : Option ProcessData)
        → find_process pid s.system_memory ≡ o
        → Reads pid s (paged s.page_size s.user_memory base (bases_of pid s)) (get_page pid base s)
    by_process none e =
        let r : get_page pid base s ≡ fail no_such_process s = ground (arith, e) in
        rw (r, e) (Still-refl pid s, refl)
    by_process (some p) e = elim (Bool-cases (contains p.page_bases base)) [
      | inl has ↦
          rw (get_page-Readable pid base p s e has (inside pid base p e has), e, has)
            (record { touched = Touched-metrics pid _ s; same_memory = refl }, refl)
      | inr lacks ↦
          (let r : get_page pid base s ≡ fail page_not_assigned s = ground (arith, e, lacks) in
            rw (r, e, lacks) (Still-refl pid s, refl))
    ]

-- Memory_Dump writes to its file only.
pub memory_dump-Reads :
    (created : Bool) (pid : ℕ) (s : Storage)
    → (text : Option Text) × Reads pid s text (memory_dump created pid s)
unfolding memory_dump get_data_by_pid
memory_dump-Reads created pid s = by_process (find_process pid s.system_memory) refl created refl
  where
    by_process :
        (o : Option ProcessData)
        → find_process pid s.system_memory ≡ o
        → (b : Bool) → created ≡ b
        → (text : Option Text) × Reads pid s text (memory_dump created pid s)
    by_process none e b f = (
      none,
      (let r : memory_dump created pid s ≡ fail no_such_process s = ground (arith, e) in
          rw r (Still-refl pid s, refl)),
    )
    by_process (some p) e false f = (
      none,
      (let r : memory_dump created pid s ≡ fail dump_not_created s = ground (arith, e, f) in
          rw r (Still-refl pid s, refl)),
    )
    by_process (some p) e true f = (
      some (dump_pages 0 p.page_bases s),
      (let r : memory_dump created pid s ≡ done (dump_pages 0 p.page_bases s) s =
            ground (arith, e, f) in
          rw r (Still-refl pid s, refl)),
    )

pub bases_of-Touched :
    (pid : ℕ) (s t : Storage) → Touched pid s t → (i : ℕ) → bases_of i t ≡ bases_of i s
bases_of-Touched pid s t a i =
    ap (option_map (λ p. p.page_bases)) (find_process-Touched pid a i)
    ∙ same_bases (i == pid) (find_process i s.system_memory)
  where
    same_bases :
        (b : Bool) (o : Option ProcessData)
        → option_map (λ p. p.page_bases) (if b then option_map a.change o else o)
          ≡ option_map (λ p. p.page_bases) o
    same_bases false o = refl
    same_bases true none = refl
    same_bases true (some p) = ap some (a.keeps_bases p)

pub Inside-Touched : (pid : ℕ) (s t : Storage) → Touched pid s t → Inside s → Inside t
Inside-Touched pid s t a inside i base p found has =
    by_bases (find_process i s.system_memory) refl
      (sym (bases_of-Touched pid s t a i) ∙ ap (option_map (λ q. q.page_bases)) found)
  where
    by_bases :
        (o : Option ProcessData)
        → find_process i s.system_memory ≡ o
        → option_map (λ q. q.page_bases) o ≡ some p.page_bases
        → base + t.page_size ≤ length t.user_memory
    by_bases none e same = absurd (cc)
    by_bases (some q) e same =
        let bases : q.page_bases ≡ p.page_bases = some-injective _ _ same in
        rw (a.same_pages, a.same_length) (inside i base q e (ap (λ l. contains l base) bases ∙ has))

-- In sound variables, with every process resident, the pages are whole frames of the memory.
pub Inside-IsSound :
    (resident : ℕ → Bool) (s : Storage)
    → ((i : ℕ) → resident i ≡ true)
    → IsSound [] resident s
    → Inside s
Inside-IsSound resident s all v pid base p found has =
    let owned =
      InRange-process resident pid p (all pid) s.page_size (length s.reservation_bits)
        s.system_memory found v.owned.in_range in
    let frame =
      InRange-contains s.page_size (length s.reservation_bits) base p.page_bases has owned in
    frame_inside s.page_size (length s.reservation_bits) (length s.user_memory) base v.page_pos
      (v.frames_fit ∙ ap (λ (n : ℕ). n / s.page_size) (sym v.memory_length)) frame.0 frame.1
