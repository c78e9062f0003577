-- ===== src/Memoria/Writes.antt =====
-- WritePage of memoria/storage/storage.go: what it changes, whether or not it is refused.
use tp_sisop_go_utn.Memoria.Reads.{bases_of, paged}
use tp_sisop_go_utn.Memoria.PageReads.{bases_of-Touched, Inside}
use tp_sisop_go_utn.Memoria.PageIo.{MayTouch, take-drop-write_at, write_bytes-Stored}
use tp_sisop_go_utn.Memoria.Touched.{Touched, Touched-refl}
use tp_sisop_go_utn.Memoria.Access.{contains, write_page}
use tp_sisop_go_utn.Memoria.PageRuns.{page_at}
use tp_sisop_go_utn.Memoria.State.{
  Error, find_process, get_data_by_pid, no_such_process, page_not_assigned, ProcessData, Storage,
  wrong_page_length,
}
use tp_sisop_go_utn.Base.Outcome.{done, fail, Outcome, panic}
use tp_sisop_go_utn.Base.{
  ◌+◌, ◌==◌, ◌≡◌, ◌∙◌, ap, arith, Bool-cases, drop, inl, inr, length, length-drop, length-take,
  List, none, Option, option_map, refl, some, sym, true, ℕ,
}
use mathlib.Core.Option.{some-injective}

-- A page that is written.
pub record StoredPage (pid base : ℕ) (new : List ℕ) (s : Storage) : Type 0 where
  pub after : Storage
  pub result : write_page pid base new s ≡ done tt after
  pub touched : Touched pid s after
  pub reads : paged after.page_size after.user_memory base (bases_of pid after) ≡ some new

-- Whether it returns or fails, what is left is related to what was.
abbrev pub Moves : {A : Type 0} → (Storage → Type 0) → Outcome Error Storage A → Type 0
Moves R (done a t) = R t
Moves R (fail e t) = R t
Moves R panic = ⊥

module _ (pid base : ℕ) (new : List ℕ) (s : Storage) (inside : Inside s) where
  write_page-StoredPage :
      (p : ProcessData)
      → find_process pid s.system_memory ≡ some p
      → contains p.page_bases base ≡ true
      → length new ≡ s.page_size
      → StoredPage pid base new s
  unfolding write_page get_data_by_pid
  write_page-StoredPage p found has len =
      let fits = inside pid base p found has in
      let m : MayTouch pid base s = record { p = p; found = found; has = has } in
      let w = write_bytes-Stored pid base 0 new s m (omega (arith, len, fits)) in
      let e : base + 0 ≡ base = omega arith in
      let bases : bases_of pid w.after ≡ some p.page_bases =
        bases_of-Touched pid s w.after w.touched pid ∙ ap (option_map (λ q. q.page_bases)) found in
      record {
        after = w.after;
        result = ground (arith, len, found, has, w.result);
        touched = w.touched;
        reads =
            rw (bases, has, w.memory, w.same_pages, sym len, e)
              (ap some (take-drop-write_at s.user_memory base new (omega (arith, len, fits))));
      }

  -- The page was one of the process's, and the new one is as long.
  pub write_page-over :
      (old : List ℕ)
      → paged s.page_size s.user_memory base (bases_of pid s) ≡ some old
      → length new ≡ length old
      → StoredPage pid base new s
  write_page-over old had len = by_process (find_process pid s.system_memory) refl had
    where
      by_process :
          (o : Option ProcessData)
          → find_process pid s.system_memory ≡ o
          → paged s.page_size s.user_memory base (option_map (λ p. p.page_bases) o) ≡ some old
          → StoredPage pid base new s
      by_process none e h = absurd (cc)
      by_process (some p) e h = elim (Bool-cases (contains p.page_bases base)) [
        | inl has ↦
            (let old_page : page_at s.page_size s.user_memory base ≡ old =
                some-injective _ _ (rw has at h) in
              let fits = inside pid base p e has in
              write_page-StoredPage p e has (
                omega (
                  arith,
                  len,
                  ap length old_page,
                  fits,
                  length-take s.page_size (drop base s.user_memory),
                  length-drop base s.user_memory,
                )))
        | inr lacks ↦ absurd (cc (rw lacks at h))
      ]

  pub write_page-Moves : Moves (Touched pid s) (write_page pid base new s)
  unfolding write_page get_data_by_pid
  write_page-Moves = elim (Bool-cases (length new == s.page_size)) [
    | inl whole ↦ by_process (find_process pid s.system_memory) refl whole
    | inr other ↦
        (let r : write_page pid base new s ≡ fail wrong_page_length s = ground (arith, other) in
          rw r (Touched-refl pid s))
  ]
    where
      by_process :
          (o : Option ProcessData)
          → find_process pid s.system_memory ≡ o
          → (length new == s.page_size) ≡ true
          → Moves (Touched pid s) (write_page pid base new s)
      by_process none e whole =
          let r : write_page pid base new s ≡ fail no_such_process s = ground (arith, e, whole) in
          rw r (Touched-refl pid s)
      by_process (some p) e whole = elim (Bool-cases (contains p.page_bases base)) [
        | inl has ↦
            (let w = write_page-StoredPage p e has (ground (arith, whole)) in rw w.result w.touched)
        | inr lacks ↦
            (let r : write_page pid base new s ≡ fail page_not_assigned s =
                ground (arith, e, lacks, whole) in
              rw r (Touched-refl pid s))
      ]
