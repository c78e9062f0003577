-- ===== src/Memoria/Regained.antt =====
-- The frames that UnSuspendProcess gives to an entry (memoria/storage/storage.go).
use tp_sisop_go_utn.Memoria.Deallocation.{owned_frames-with-Absent, with_}
use tp_sisop_go_utn.Memoria.Frames.{
  InRange, InRange-append, InRange-append_left, InRange-append_right, owners, owners-append,
}
use tp_sisop_go_utn.Memoria.Invariant.{Absent, DistinctPids, owned_frames}
use tp_sisop_go_utn.Memoria.State.{find_process, ProcessData, update_process}
use native.Mathlib.Nat.{div-eq_of_lt, mul-add-div}
use native.Mathlib.Decide.{ℕ_discrete}
use tp_sisop_go_utn.Base.{
  refl, ◌∙◌, ap, arith, ceil_div, ℕ, ◌+◌, ◌-◌, ◌*◌, ◌≤◌, ◌<◌, ◌≡◌, some, List, [], ◌∷◌, Bool, false,
  subst,
}

-- The entry of the pid gets these frames.
abbrev pub give_bases : List ℕ → ProcessData → ProcessData
give_bases new p = record p { page_bases = new }

module _ (resident : ℕ → Bool) (pid : ℕ) (new : List ℕ) (away : resident pid ≡ false) where
  owned_frames-update-Absent :
      (ps : List ProcessData)
      → Absent pid ps
      → owned_frames (with_ pid resident) (update_process pid (give_bases new) ps)
        ≡ owned_frames resident ps
  unfolding update_process
  owned_frames-update-Absent [] h = refl
  owned_frames-update-Absent (q ∷ ps) h = ground (arith, owned_frames-update-Absent ps h.1)

  -- The frames of the entries with the new ones, and those before.
  pub owners-give_bases :
      (pg i : ℕ) (q : ProcessData) (ps : List ProcessData)
      → DistinctPids ps
      → find_process pid ps ≡ some q
      → owners pg i (owned_frames (with_ pid resident) (update_process pid (give_bases new) ps))
        ≡ owners pg i new + owners pg i (owned_frames resident ps)
  unfolding find_process update_process
  owners-give_bases pg i q [] d f = ground arith
  owners-give_bases pg i q (r ∷ ps) d f = elim (ℕ_discrete r.pid pid) [
    | yes e ↦
        let same =
          subst (λ k. owned_frames (with_ k resident) ps ≡ owned_frames resident ps) e
            (owned_frames-with-Absent resident r.pid ps d.0) in
        ground (arith, same, owners-append pg i new (owned_frames resident ps), ap resident e, away)
    | no n ↦ ground (
      arith,
      owners-append pg i r.page_bases
          (owned_frames (with_ pid resident) (update_process pid (give_bases new) ps)),
      owners-append pg i r.page_bases (owned_frames resident ps),
      owners-give_bases pg i q ps d.1,
    )
  ]

  pub InRange-give_bases :
      (pg n : ℕ) (ps : List ProcessData)
      → DistinctPids ps
      → InRange pg n new
      → InRange pg n (owned_frames resident ps)
      → InRange pg n (owned_frames (with_ pid resident) (update_process pid (give_bases new) ps))
  unfolding update_process
  InRange-give_bases pg n [] d hn h = tt
  InRange-give_bases pg n (r ∷ ps) d hn h = elim (ℕ_discrete r.pid pid) [
    | yes e ↦
        let same =
          subst (λ k. owned_frames (with_ k resident) ps ≡ owned_frames resident ps) e
            (owned_frames-with-Absent resident r.pid ps d.0) in
        ground
          (arith, same, ap resident e, away, InRange-append pg n new (owned_frames resident ps) hn)
    | no m ↦ ground (
      arith,
      InRange-append_left pg n r.page_bases (owned_frames resident ps),
      InRange-append_right pg n r.page_bases (owned_frames resident ps),
      InRange-append pg n r.page_bases
          (owned_frames (with_ pid resident) (update_process pid (give_bases new) ps)),
      InRange-give_bases pg n ps d.1 hn,
    )
  ]

pub ceil_div_mul : (ps n : ℕ) → 0 < ps → ceil_div (ps * n) ps ≡ n
ceil_div_mul ps n pos =
    mul-add-div pos n (ps - 1) ∙ omega (arith, div-eq_of_lt {n = ps - 1} {m = ps} (omega arith))

pub owners_beyond :
    (pg n i : ℕ) (bases : List ℕ) → InRange pg n bases → n ≤ i → owners pg i bases ≡ 0
owners_beyond pg n i [] h le = refl
owners_beyond pg n i (b ∷ bases) h le = ground (arith, owners_beyond pg n i bases h.2 le)
