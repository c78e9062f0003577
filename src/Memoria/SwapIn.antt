-- ===== src/Memoria/SwapIn.antt =====
-- The loop of UnSuspendProcess over the pages (memoria/storage/storage.go): which bytes it leaves in
-- the user memory.
use tp_sisop_go_utn.Memoria.PageIo.{
  length-write_at, Stored, take-drop-write_at, write_at, write_bytes-Stored,
}
use tp_sisop_go_utn.Memoria.SwapPages.{AllBytes, fill_bytes-page, inside_brackets-show_bytes}
use tp_sisop_go_utn.Memoria.Swap.{restore_pages, show_bytes}
use tp_sisop_go_utn.Memoria.State.{find_process, get_data_by_pid, ProcessData, Storage}
use tp_sisop_go_utn.Memoria.Touched.{find_process-Touched, Touched, Touched-refl, Touched-trans}
use tp_sisop_go_utn.Memoria.PageRuns.{page_at, pages_at, Readable}
use tp_sisop_go_utn.Memoria.Lookup.{take-drop-set_outside}
use tp_sisop_go_utn.Memoria.Access.{contains, write_page}
use tp_sisop_go_utn.Memoria.Frames.{InRange, owners}
use native.Mathlib.Nat.{add_assoc}
use tp_sisop_go_utn.Memoria.Isolation.{frames_apart}
use tp_sisop_go_utn.Base.Outcome.{done}
use tp_sisop_go_utn.Base.{
  refl, ◌∙◌, ap, ap, sym, arith, ℕ, ◌+◌, ◌*◌, ◌/◌, ◌≤◌, ◌<◌, ◌≡◌, ◌⊎◌, some, List, [], ◌∷◌, take,
  drop, length, true, set, map, subst,
}

-- The pages stored at the bases, one after the other.
abbrev pub write_pages : List ℕ → List ℕ → List (List ℕ) → List ℕ
write_pages mem [] pages = mem
write_pages mem (base ∷ bases) [] = mem
write_pages mem (base ∷ bases) (page ∷ pages) = write_pages (write_at mem base page) bases pages

-- Pages of the same length, with entries that are bytes.
abbrev pub PagesOf : ℕ → List (List ℕ) → Type 0
PagesOf page_size [] = Unit {0}
PagesOf page_size (page ∷ pages) =
    (length page ≡ page_size) × AllBytes page × PagesOf page_size pages

write_at_outside :
    (ps base delta other : ℕ) (mem vs : List ℕ)
    → delta + length vs ≤ ps
    → ((d : ℕ) → d < ps → (base + d < other) ⊎ (other + ps ≤ base + d))
    → page_at ps (write_at mem (base + delta) vs) other ≡ page_at ps mem other
write_at_outside ps base delta other mem [] fits apart = refl
write_at_outside ps base delta other mem (v ∷ vs) fits apart =
    ap (λ i. page_at ps (write_at (set mem (base + delta) v) i vs) other) (add_assoc base delta 1)
    ∙ write_at_outside ps base (delta + 1) other (set mem (base + delta) v) vs (omega arith) apart
    ∙ take-drop-set_outside mem other ps (base + delta) v (apart delta (omega arith))

-- A frame that is not among the bases keeps its bytes.
pub write_pages_outside :
    (ps n other : ℕ) (bases : List ℕ) (mem : List ℕ) (pages : List (List ℕ))
    → InRange ps n bases
    → PagesOf ps pages
    → other / ps * ps ≡ other
    → owners ps (other / ps) bases ≡ 0
    → page_at ps (write_pages mem bases pages) other ≡ page_at ps mem other
write_pages_outside ps n other [] mem pages r h e none_of = refl
write_pages_outside ps n other (b ∷ bases) mem [] r h e none_of = refl
write_pages_outside ps n other (b ∷ bases) mem (page ∷ pages) r h e none_of =
    write_pages_outside ps n other bases (write_at mem b page) pages r.2 h.2 e
      (ground (arith, none_of))
    ∙ ap (λ i. page_at ps (write_at mem i page) other) (let z : b ≡ b + 0 = omega arith in z)
    ∙ write_at_outside ps b 0 other mem page (omega (arith, h.0))
        (λ d small. frames_apart ps b other d r.0 e (ground (arith, none_of)) small)

-- Pages that go to frames of their own are there afterwards.
pub pages_at-write_pages :
    (ps n : ℕ) (own bases mem : List ℕ) (pages : List (List ℕ))
    → InRange ps n bases
    → PagesOf ps pages
    → length pages ≡ length bases
    → ((i : ℕ) → owners ps i bases ≤ 1)
    → Readable own ps (length mem) bases
    → pages_at ps (write_pages mem bases pages) bases ≡ pages
pages_at-write_pages ps n own [] mem [] r h len once readable = refl
pages_at-write_pages ps n own [] mem (page ∷ pages) r h len once readable = absurd (omega arith)
pages_at-write_pages ps n own (b ∷ bases) mem [] r h len once readable = absurd (omega arith)
pages_at-write_pages ps n own (b ∷ bases) mem (page ∷ pages) r h len once readable =
    let mem' = write_at mem b page in
    let alone : owners ps (b / ps) bases ≡ 0 = ground (arith, once (b / ps)) in
    let first : page_at ps (write_pages mem' bases pages) b ≡ page =
      write_pages_outside ps n b bases mem' pages r.2 h.2 r.0 alone
      ∙ ap (λ k. take k (drop b mem')) (sym h.0)
      ∙ take-drop-write_at mem b page (omega (arith, h.0, readable.1)) in
    let rest =
      pages_at-write_pages ps n own bases mem' pages r.2 h.2 (omega arith)
        (λ i. omega (arith, once i))
        (subst (λ size. Readable own ps size bases) (sym (length-write_at mem b page))
          readable.2) in
    rw (first, rest) refl

-- What the loop leaves.
pub record PagesRestored (pid : ℕ) (bases : List ℕ) (pages : List (List ℕ)) (bytes : List ℕ)
    (s : Storage) : Type 0 where
  pub after : Storage
  pub result : restore_pages pid bases (map show_bytes pages) bytes s ≡ done tt after
  pub touched : Touched pid s after
  pub memory : after.user_memory ≡ write_pages s.user_memory bases pages

found-Touched :
    (pid : ℕ) (p : ProcessData) (s t : Storage) (a : Touched pid s t)
    → find_process pid s.system_memory ≡ some p
    → find_process pid t.system_memory ≡ some (a.change p)
found-Touched pid p s t a found = ground (arith, find_process-Touched pid a pid, found)

write_page-Stored :
    (pid base : ℕ) (p : ProcessData) (page : List ℕ) (s : Storage)
    → find_process pid s.system_memory ≡ some p
    → contains p.page_bases base ≡ true
    → base + s.page_size ≤ length s.user_memory
    → length page ≡ s.page_size
    → (w : Stored pid base 0 page s) × (write_page pid base page s ≡ done tt w.after)
unfolding write_page get_data_by_pid
write_page-Stored pid base p page s found has fits len =
    let w =
      write_bytes-Stored pid base 0 page s (record { p = p; found = found; has = has })
        (omega (arith, len)) in
    (w, ground (arith, found, has, w.result, len))

-- The page size `ps`, the bases `own` of the process and the memory's size are the same in every
-- round.
pub restore_pages-PagesRestored :
    (pid ps size : ℕ) (own bases : List ℕ) (pages : List (List ℕ)) (bytes : List ℕ)
    (p : ProcessData) (s : Storage)
    → find_process pid s.system_memory ≡ some p
    → s.page_size ≡ ps
    → length s.user_memory ≡ size
    → p.page_bases ≡ own
    → 0 < ps
    → length bytes ≡ ps
    → length pages ≡ length bases
    → PagesOf ps pages
    → Readable own ps size bases
    → PagesRestored pid bases pages bytes s
unfolding restore_pages
restore_pages-PagesRestored pid ps size own [] pages bytes p s found eps esize eown pos len same h
      readable =
    record { after = s; result = refl; touched = Touched-refl pid s; memory = refl }
restore_pages-PagesRestored pid ps size own (b ∷ bases) [] bytes p s found eps esize eown pos len
      same h readable =
    absurd (omega arith)
restore_pages-PagesRestored pid ps size own (b ∷ bases) ([] ∷ pages) bytes p s found eps esize eown
      pos len same h readable =
    absurd (omega (arith, h.0))
restore_pages-PagesRestored pid ps size own (b ∷ bases) ((x ∷ xs) ∷ pages) bytes p s found eps esize
      eown pos len same h readable =
    let page = x ∷ xs in
    let (w, wrote) =
      write_page-Stored pid b p page s found (ap (λ l. contains l b) eown ∙ readable.0)
        (omega (arith, readable.1)) (h.0 ∙ sym eps) in
    let rest =
      restore_pages-PagesRestored pid ps size own bases pages page (w.touched.change p) w.after
        (found-Touched pid p s w.after w.touched found)
        (ap (λ c. c.page_size) w.touched.same_pages ∙ eps) (w.touched.same_length ∙ esize)
        (w.touched.keeps_bases p ∙ eown) pos h.0 (omega arith) h.2 readable.2 in
    record {
      after = rest.after;
      result = ground (
        arith,
        inside_brackets-show_bytes page,
        fill_bytes-page x xs bytes (h.0 ∙ sym len) h.1,
        wrote,
        rest.result,
      );
      touched = Touched-trans pid w.touched rest.touched;
      memory =
          rest.memory
          ∙ ap (λ m. write_pages m bases pages)
              (w.memory
                ∙ ap (λ i. write_at s.user_memory i page) (let z : b + 0 ≡ b = omega arith in z));
    }
