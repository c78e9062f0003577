-- ===== src/Memoria/Deallocation.antt =====
-- deallocateMemory on sound variables.
use tp_sisop_go_utn.Memoria.Ownership.{clear_bits-Cleared, Owns-same}
use tp_sisop_go_utn.Base.{
  sym, ◌∙◌, ◌++◌, ◌*◌, length, subst, ℕ, ◌+◌, ◌≡◌, refl, ap, Bool, true, false, List, [], ◌∷◌, some,
  arith, ◌==◌, if◌then◌else◌,
}
use tp_sisop_go_utn.Memoria.Frames.{
  clear_bits, Owns, owners, InRange, owners-append, InRange-append, InRange-append_left,
  InRange-append_right,
}
use tp_sisop_go_utn.Base.Outcome.{done}
use tp_sisop_go_utn.Memoria.State.{get_data_by_pid, Storage, ProcessData, find_process}
use tp_sisop_go_utn.Memoria.Malloc.{deallocate_memory}
use tp_sisop_go_utn.Memoria.Invariant.{IsSound, owned_frames, DistinctPids, Absent}
use native.Mathlib.Decide.{ℕ_discrete}

-- The resident processes but one, and with one more.
abbrev pub without : ℕ → (ℕ → Bool) → ℕ → Bool
without pid resident i = if i == pid then false else resident i

abbrev pub with_ : ℕ → (ℕ → Bool) → ℕ → Bool
with_ pid resident i = if i == pid then true else resident i

module _ (resident : ℕ → Bool) (pid : ℕ) where
  pub owned_frames-without-Absent :
      (ps : List ProcessData)
      → Absent pid ps
      → owned_frames (without pid resident) ps ≡ owned_frames resident ps
  owned_frames-without-Absent [] h = refl
  owned_frames-without-Absent (q ∷ ps) h = ground (arith, owned_frames-without-Absent ps h.1)

  pub owned_frames-with-Absent :
      (ps : List ProcessData)
      → Absent pid ps
      → owned_frames (with_ pid resident) ps ≡ owned_frames resident ps
  owned_frames-with-Absent [] h = refl
  owned_frames-with-Absent (q ∷ ps) h = ground (arith, owned_frames-with-Absent ps h.1)

module _ (resident : ℕ → Bool) (pid : ℕ) (p : ProcessData) (here : resident pid ≡ true) where
  -- The frames of one process, and those of the others.
  pub owners-without :
      (pg i : ℕ) (ps : List ProcessData)
      → DistinctPids ps
      → find_process pid ps ≡ some p
      → owners pg i (owned_frames resident ps)
        ≡ owners pg i p.page_bases + owners pg i (owned_frames (without pid resident) ps)
  unfolding find_process
  owners-without pg i [] d f = ground arith
  owners-without pg i (q ∷ ps) d f = elim (ℕ_discrete q.pid pid) [
    | yes e ↦ ground (
      arith,
      owners-append pg i q.page_bases (owned_frames resident ps),
      subst (λ k. owned_frames (without k resident) ps ≡ owned_frames resident ps) e
          (owned_frames-without-Absent resident q.pid ps d.0),
      ap resident e,
    )
    | no n ↦ ground (
      arith,
      owners-append pg i q.page_bases (owned_frames resident ps),
      owners-append pg i q.page_bases (owned_frames (without pid resident) ps),
      owners-without pg i ps d.1,
    )
  ]

  -- The same for their range.
  pub InRange-without :
      (pg n : ℕ) (ps : List ProcessData)
      → InRange pg n (owned_frames resident ps)
      → InRange pg n (owned_frames (without pid resident) ps)
  InRange-without pg n [] h = tt
  InRange-without pg n (q ∷ ps) h = ground (
    arith,
    InRange-append_right pg n q.page_bases (owned_frames resident ps),
    InRange-append_left pg n q.page_bases (owned_frames resident ps),
    InRange-without pg n ps,
    InRange-append pg n q.page_bases (owned_frames (without pid resident) ps),
  )

  pub InRange-process :
      (pg n : ℕ) (ps : List ProcessData)
      → find_process pid ps ≡ some p
      → InRange pg n (owned_frames resident ps)
      → InRange pg n p.page_bases
  unfolding find_process
  InRange-process pg n [] f h = ground arith
  InRange-process pg n (q ∷ ps) f h = elim (ℕ_discrete q.pid pid) [
    | yes e ↦
        ground
          (arith, ap resident e, InRange-append_left pg n q.page_bases (owned_frames resident ps))
    | no m ↦ ground (
      arith,
      InRange-append_right pg n q.page_bases (owned_frames resident ps),
      InRange-process pg n ps,
    )
  ]

-- The variables after the frames of `p` are given back.
abbrev pub freed : Storage → ProcessData → List Bool → Storage
freed s p bits = record s {
  reservation_bits = bits;
  remaining = s.remaining + length p.page_bases * s.page_size;
}

clear_bits_none :
    (ps : ℕ) (bs : List ℕ) (bits left : List Bool)
    → length bs ≡ 0
    → clear_bits ps bs bits ≡ some left
    → left ≡ bits
unfolding clear_bits
clear_bits_none ps [] bits left e h = ground arith
clear_bits_none ps (b ∷ bs) bits left e h = absurd (omega arith)

-- deallocateMemory of a resident process.
pub record Deallocated (resident : ℕ → Bool) (pid : ℕ) (p : ProcessData) (s : Storage)
    : Type 0 where
  pub bits : List Bool
  pub result : deallocate_memory pid s ≡ done tt (freed s p bits)
  pub sound : IsSound [] (without pid resident) (freed s p bits)

module _ (resident : ℕ → Bool) (pid : ℕ) (p : ProcessData) (s : Storage)
    (here : resident pid ≡ true) (v : IsSound [] resident s)
    (found : find_process pid s.system_memory ≡ some p) where
  others : List ℕ
  others = owned_frames (without pid resident) s.system_memory

  others-Owns : Owns s.page_size s.reservation_bits (p.page_bases ++ others)
  unfolding others
  others-Owns =
      Owns-same s.page_size s.reservation_bits (owned_frames resident s.system_memory)
        (p.page_bases ++ others)
        (λ i.
          owners-without resident pid p here s.page_size i s.system_memory v.distinct found
          ∙ sym (owners-append s.page_size i p.page_bases others))
        (InRange-append s.page_size (length s.reservation_bits) p.page_bases others
          (InRange-process resident pid p here s.page_size _ s.system_memory found v.owned.in_range)
          (InRange-without resident pid p here s.page_size _ s.system_memory v.owned.in_range))
        v.owned

  -- deallocateMemory of a resident process, with sound variables, does not panic, gives back the
  -- process's frames, and leaves the variables sound without that process.
  pub deallocate_memory-Deallocated : Deallocated resident pid p s
  unfolding deallocate_memory get_data_by_pid others
  deallocate_memory-Deallocated =
      let c =
        clear_bits-Cleared s.page_size p.page_bases s.reservation_bits others v.page_pos
          others-Owns in
      record {
        bits = c.left;
        result = ground (
          arith,
          found,
          c.result,
          clear_bits_none s.page_size p.page_bases s.reservation_bits c.left,
        );
        sound = record {
          page_pos = v.page_pos;
          numbered = rw c.same_length v.numbered;
          memory_length = v.memory_length;
          frames_fit = omega (arith, v.frames_fit, c.same_length);
          accounted = omega (arith, v.accounted, ap (λ (t : ℕ). t * s.page_size) c.counted);
          owned = c.owns;
          distinct = v.distinct;
        };
      }
