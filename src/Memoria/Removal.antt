-- ===== src/Memoria/Removal.antt =====
-- DeleteProcess: what the removal of an entry does to the others.
use tp_sisop_go_utn.Memoria.Frames.{
  InRange-append_left, InRange-append, InRange-append_right, InRange, owners-append, owners,
}
use tp_sisop_go_utn.Memoria.Invariant.{Absent, DistinctPids, owned_frames-append, owned_frames}
use tp_sisop_go_utn.Memoria.State.{find_process, ProcessData}
use mathlib.Core.List.{append_assoc, append-nil}
use tp_sisop_go_utn.Base.{
  ◌∙◌, ◌≢◌, sym, subst, arith, List, ◌≡◌, if◌then◌else◌, ℕ, Bool, refl, ◌++◌, [], false, ◌∷◌, ap,
}
use tp_sisop_go_utn.Memoria.Process.{move_last, last_or, drop_last, swap_remove}
use native.Mathlib.Decide.{ℕ_discrete}

-- The entries of a list, the last one moved to the front.
move_last-split :
    (q : ProcessData) (qs : List ProcessData) → drop_last (q ∷ qs) ++ last_or q qs ∷ [] ≡ q ∷ qs
move_last-split q [] = refl
move_last-split q (r ∷ rs) = ap (λ l. q ∷ l) (move_last-split r rs)

module _ (resident : ℕ → Bool) (pg i : ℕ) where
  owners-move_last :
      (ps : List ProcessData)
      → owners pg i (owned_frames resident (move_last ps)) ≡ owners pg i (owned_frames resident ps)
  owners-move_last [] = refl
  owners-move_last (q ∷ qs) =
      let l = last_or q qs in
      let d = drop_last (q ∷ qs) in
      let lf : List ℕ = if resident l.pid then l.page_bases else [] in
      omega (
        arith,
        ap (λ (ps : List ProcessData). owners pg i (owned_frames resident ps))
            (move_last-split q qs),
        ap (owners pg i) (owned_frames-append resident d (l ∷ [])),
        owners-append pg i (owned_frames resident d) (lf ++ []),
        owners-append pg i lf [],
        owners-append pg i lf (owned_frames resident d),
      )

  -- An entry that owns nothing may go.
  pub owners-swap_remove :
      (pid : ℕ) (ps : List ProcessData)
      → resident pid ≡ false
      → owners pg i (owned_frames resident (swap_remove pid ps))
        ≡ owners pg i (owned_frames resident ps)
  unfolding swap_remove
  owners-swap_remove pid [] r = refl
  owners-swap_remove pid (q ∷ qs) r = elim (ℕ_discrete q.pid pid) [
    | yes e ↦ ground (arith, owners-move_last qs, ap resident e)
    | no n ↦ ground (
      arith,
      owners-swap_remove pid qs r,
      owners-append pg i (if resident q.pid then q.page_bases else []) (owned_frames resident qs),
      owners-append pg i (if resident q.pid then q.page_bases else [])
          (owned_frames resident (swap_remove pid qs)),
    )
  ]

module _ (resident : ℕ → Bool) (pg n : ℕ) where
  InRange-move_last :
      (ps : List ProcessData)
      → InRange pg n (owned_frames resident ps)
      → InRange pg n (owned_frames resident (move_last ps))
  InRange-move_last [] h = h
  InRange-move_last (q ∷ qs) h =
      let l = last_or q qs in
      let d = drop_last (q ∷ qs) in
      let lf : List ℕ = if resident l.pid then l.page_bases else [] in
      let h' : InRange pg n (owned_frames resident (d ++ l ∷ [])) = rw (move_last-split q qs) h in
      let h'' : InRange pg n (owned_frames resident d ++ lf ++ []) =
        rw (owned_frames-append resident d (l ∷ []), ← append_assoc (owned_frames resident d) lf [])
          at h' in
      InRange-append pg n lf (owned_frames resident d)
        (InRange-append_right pg n (owned_frames resident d) lf (rw append-nil at h''))
        (InRange-append_left pg n (owned_frames resident d) lf (rw append-nil at h''))

  pub InRange-swap_remove :
      (pid : ℕ) (ps : List ProcessData)
      → InRange pg n (owned_frames resident ps)
      → InRange pg n (owned_frames resident (swap_remove pid ps))
  unfolding swap_remove
  InRange-swap_remove pid [] h = h
  InRange-swap_remove pid (q ∷ qs) h =
      let qf : List ℕ = if resident q.pid then q.page_bases else [] in
      ground (
        arith,
        InRange-append_right pg n qf (owned_frames resident qs),
        InRange-append_left pg n qf (owned_frames resident qs),
        InRange-move_last qs,
        InRange-swap_remove pid qs,
        InRange-append pg n qf (owned_frames resident (swap_remove pid qs)),
      )

Absent-snoc :
    (i : ℕ) (ps : List ProcessData) (l : ProcessData) → Absent i (ps ++ l ∷ []) → Absent i (l ∷ ps)
Absent-snoc i [] l h = h
Absent-snoc i (p ∷ ps) l h = let r = Absent-snoc i ps l h.1 in (r.0, (h.0, r.1))

DistinctPids-front :
    (ps : List ProcessData) (l : ProcessData) → DistinctPids (ps ++ l ∷ []) → DistinctPids (l ∷ ps)
DistinctPids-front [] l h = h
DistinctPids-front (p ∷ ps) l h =
    let r = DistinctPids-front ps l h.1 in
    let a = Absent-snoc p.pid ps l h.0 in (((λ e. a.0 (sym e)), r.0), (a.1, r.1))

Absent-move_last : (i : ℕ) (ps : List ProcessData) → Absent i ps → Absent i (move_last ps)
Absent-move_last i [] h = h
Absent-move_last i (q ∷ qs) h =
    Absent-snoc i (drop_last (q ∷ qs)) (last_or q qs)
      (subst (Absent i) (sym (move_last-split q qs)) h)

DistinctPids-move_last : (ps : List ProcessData) → DistinctPids ps → DistinctPids (move_last ps)
DistinctPids-move_last [] h = h
DistinctPids-move_last (q ∷ qs) h =
    DistinctPids-front (drop_last (q ∷ qs)) (last_or q qs)
      (subst DistinctPids (sym (move_last-split q qs)) h)

pub Absent-swap_remove :
    (i pid : ℕ) (ps : List ProcessData) → Absent i ps → Absent i (swap_remove pid ps)
unfolding swap_remove
Absent-swap_remove i pid [] h = h
Absent-swap_remove i pid (q ∷ qs) h =
    ground (arith, Absent-move_last i qs h.1, Absent-swap_remove i pid qs h.1)

pub DistinctPids-swap_remove :
    (pid : ℕ) (ps : List ProcessData) → DistinctPids ps → DistinctPids (swap_remove pid ps)
unfolding swap_remove
DistinctPids-swap_remove pid [] d = d
DistinctPids-swap_remove pid (q ∷ qs) d = ground (
  arith,
  DistinctPids-move_last qs d.1,
  DistinctPids-swap_remove pid qs d.1,
  Absent-swap_remove q.pid pid qs d.0,
)

-- The removed pid is gone.
pub swap_remove-Absent :
    (pid : ℕ) (ps : List ProcessData) → DistinctPids ps → Absent pid (swap_remove pid ps)
unfolding swap_remove
swap_remove-Absent pid [] d = tt
swap_remove-Absent pid (q ∷ qs) d = elim (ℕ_discrete q.pid pid) [
  | yes e ↦ ground (arith, subst (λ k. Absent k (move_last qs)) e (Absent-move_last q.pid qs d.0))
  | no n ↦ ground (arith, swap_remove-Absent pid qs d.1)
]

find_process-snoc :
    (i : ℕ) (ps : List ProcessData) (l : ProcessData)
    → DistinctPids (ps ++ l ∷ [])
    → find_process i (ps ++ l ∷ []) ≡ find_process i (l ∷ ps)
unfolding find_process
find_process-snoc i [] l d = refl
find_process-snoc i (p ∷ ps) l d =
    ground (arith, find_process-snoc i ps l d.1, (Absent-snoc p.pid ps l d.0).0)

-- The other processes are found as before.
pub find_process-swap_remove :
    (i pid : ℕ) (ps : List ProcessData)
    → DistinctPids ps
    → i ≢ pid
    → find_process i (swap_remove pid ps) ≡ find_process i ps
unfolding find_process swap_remove
find_process-swap_remove i pid [] d n = refl
find_process-swap_remove i pid (q ∷ qs) d n =
    ground (arith, find_process-swap_remove i pid qs d.1, find_process-move_last qs d.1)
  where
    find_process-move_last :
        (ps : List ProcessData)
        → DistinctPids ps
        → find_process i (move_last ps) ≡ find_process i ps
    find_process-move_last [] d' = refl
    find_process-move_last (r ∷ rs) d' =
        sym (
          find_process-snoc i (drop_last (r ∷ rs)) (last_or r rs)
            (subst DistinctPids (sym (move_last-split r rs)) d'))
        ∙ ap (find_process i) (move_last-split r rs)
