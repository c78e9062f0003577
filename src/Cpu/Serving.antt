-- ===== src/Cpu/Serving.antt =====
-- What the CPU relies on in the memory program, and the TLB against it.
use tp_sisop_go_utn.Cpu.Tlb.{
  touch, is_entry, oldest_index, Replacement, Tlb, TlbEntry, add_entry_tlb, are_slices_equal, evict,
  find_entry, remove_at, fifo, lru, unknown,
}
use tp_sisop_go_utn.Cpu.Memory.{MemoryProgram, Reply, answered, refused, unreachable}
use tp_sisop_go_utn.Base.{
  arith, refl, ◌∷◌, none, suc, leb, [], some, inr, zero, List, ◌∙◌, ◌≢◌, ◌≡◌, length, true, Option,
  ◌==◌, Bool-cases, ℕ, inl, ◌++◌,
}

abbrev pub reply_of : {A : Type 0} → Option A → Reply A
reply_of none = refused
reply_of (some a) = answered a

-- The memory program as a table of frames and of pages: requests for frames, for pages and for
-- dumps change neither, and a page that is saved over one of the same length is the page from then
-- on, while the frames stay.
pub record Serves {S : Type 0} (program : MemoryProgram S) (frame_of : S → ℕ → List ℕ → Option ℕ)
    (page_of : S → ℕ → ℕ → Option (List ℕ)) : Type 0 where
  pub frame_reply :
      (pid : ℕ) (page : List ℕ) (s : S)
      → (program.frame pid page s).0 ≡ reply_of (frame_of s pid page)
  pub frame_keeps :
      (pid : ℕ) (page : List ℕ) (s : S)
      → (frame_of (program.frame pid page s).1 ≡ frame_of s)
        × (page_of (program.frame pid page s).1 ≡ page_of s)
  pub page_reply :
      (pid base : ℕ) (s : S) → (program.full_page pid base s).0 ≡ reply_of (page_of s pid base)
  pub page_keeps :
      (pid base : ℕ) (s : S)
      → (frame_of (program.full_page pid base s).1 ≡ frame_of s)
        × (page_of (program.full_page pid base s).1 ≡ page_of s)
  pub dump_reply : (pid : ℕ) (s : S) → (program.memory_dump pid s).0 ≢ unreachable
  pub dump_keeps :
      (pid : ℕ) (s : S)
      → (frame_of (program.memory_dump pid s).1 ≡ frame_of s)
        × (page_of (program.memory_dump pid s).1 ≡ page_of s)
  pub save_reply :
      (pid base : ℕ) (old new : List ℕ) (s : S)
      → page_of s pid base ≡ some old
      → length new ≡ length old
      → (program.save_page pid base new s).0 ≡ answered tt
  pub save_keeps :
      (pid base : ℕ) (new : List ℕ) (s : S)
      → frame_of (program.save_page pid base new s).1 ≡ frame_of s
  pub save_stores :
      (pid base : ℕ) (old new : List ℕ) (s : S)
      → page_of s pid base ≡ some old
      → length new ≡ length old
      → page_of (program.save_page pid base new s).1 pid base ≡ some new

-- Every entry of the TLB has the frame that the memory program has.
abbrev pub Agrees : (ℕ → List ℕ → Option ℕ) → List TlbEntry → Type 0
Agrees frames [] = Unit {0}
Agrees frames (e ∷ es) = (frames e.pid e.page ≡ some e.frame) × Agrees frames es

pub are_slices_equal→eq : (a b : List ℕ) → are_slices_equal a b ≡ true → a ≡ b
unfolding are_slices_equal
are_slices_equal→eq [] [] h = refl
are_slices_equal→eq (a ∷ as_) (b ∷ bs) h = ground (arith, are_slices_equal→eq as_ bs)
are_slices_equal→eq [] (b ∷ bs) h = absurd (cc)
are_slices_equal→eq (a ∷ as_) [] h = absurd (cc)

module _ (frames : ℕ → List ℕ → Option ℕ) where
  Agrees-append :
      (es fs : List TlbEntry) → Agrees frames es → Agrees frames fs → Agrees frames (es ++ fs)
  Agrees-append [] fs h k = k
  Agrees-append (e ∷ es) fs h k = (h.0, Agrees-append es fs h.1 k)

  Agrees-remove_at :
      (i : ℕ) (es : List TlbEntry) → Agrees frames es → Agrees frames (remove_at i es)
  unfolding remove_at
  Agrees-remove_at i [] h = h
  Agrees-remove_at zero (e ∷ es) h = h.1
  Agrees-remove_at (suc i) (e ∷ es) h = (h.0, Agrees-remove_at i es h.1)

  Agrees-evict :
      (a : Replacement) (es : List TlbEntry) → Agrees frames es → Agrees frames (evict a es)
  unfolding evict
  Agrees-evict a [] h = h
  Agrees-evict fifo (e ∷ es) h = h.1
  Agrees-evict lru (e ∷ es) h = Agrees-remove_at (oldest_index e.last_used 0 0 (e ∷ es)) (e ∷ es) h
  Agrees-evict unknown (e ∷ es) h = h

  pub Agrees-add :
      (now : ℕ) (page : List ℕ) (frame pid : ℕ) (t : Tlb)
      → frames pid page ≡ some frame
      → Agrees frames t.entries
      → Agrees frames (add_entry_tlb now page frame pid t).entries
  unfolding add_entry_tlb
  Agrees-add now page frame pid t new h = elim (Bool-cases (t.capacity == 0)) [
    | inl e ↦ rw (e, add_entry_tlb) h
    | inr e ↦ elim (Bool-cases (leb t.capacity (length t.entries))) [
      | inl f ↦
          rw (e, f, add_entry_tlb)
            (Agrees-append _ _ (Agrees-evict t.replacement_alg t.entries h) (new, tt))
      | inr f ↦ rw (e, f, add_entry_tlb) (Agrees-append _ _ h (new, tt))
    ]
  ]

  pub find_entry-Agrees :
      (alg : Replacement) (now : ℕ) (page : List ℕ) (pid : ℕ) (es : List TlbEntry)
      → Agrees frames es
      → Agrees frames (find_entry alg now page pid es).1
        × ((frame : ℕ)
            → (find_entry alg now page pid es).0 ≡ some frame
            → frames pid page ≡ some frame)
  unfolding find_entry
  find_entry-Agrees alg now page pid [] h = (h, λ frame e. absurd (cc))
  find_entry-Agrees alg now page pid (e ∷ es) h =
      let rest = find_entry-Agrees alg now page pid es h.1 in
      elim (Bool-cases (is_entry page pid e)) [
        | inl hit ↦ rw hit (hit_agrees alg hit)
        | inr miss ↦ rw miss ((h.0, rest.0), rest.1)
      ]
    where
      same : is_entry page pid e ≡ true → frames pid page ≡ some e.frame
      same hit = ground (arith, h.0, hit, are_slices_equal→eq e.page page)

      hit_agrees :
          (a : Replacement)
          → is_entry page pid e ≡ true
          → Agrees frames (touch a now e ∷ es)
            × ((frame : ℕ) → some e.frame ≡ some frame → frames pid page ≡ some frame)
      hit_agrees lru hit = (h, λ frame f. same hit ∙ f)
      hit_agrees _ hit = (h, λ frame f. same hit ∙ f)
