-- ===== src/Kernel/Times.antt =====
-- What the kernel measures: the times of a process in its states, and the bursts.
use tp_sisop_go_utn.Base.{
  ltb, if◌then◌else◌, some, arith, ◌≢◌, ap, [], refl, List, ◌-◌, ◌∙◌, ℕ, ◌∷◌, ◌≡◌, ◌++◌, ◌+◌, ◌≤◌,
}
use native.Mathlib.Nat.{le_trans, zero-add}
use tp_sisop_go_utn.Kernel.Shared.{
  tiempo_restante_de_rafaga, mayor_loop, mayor_tiempo_restante_de_rafaga,
  menor_tiempo_restante_de_rafaga,
}
use tp_sisop_go_utn.Kernel.State.{Process}
use tp_sisop_go_utn.Kernel.Placement.{eq_state_refl, eq_state→eq}
use tp_sisop_go_utn.Kernel.Pcb.{
  create, set_state, Pcb, last_duration, put, set_states, State, exit, new, ready, exec, blocked,
  susp_blocked, susp_ready,
}
use tp_sisop_go_utn.Utils.Strings.{Text}

-- All the time that a block was charged with.
abbrev pub total_time : (State → ℕ) → ℕ
total_time t = t exit + t new + t ready + t exec + t blocked + t susp_blocked + t susp_ready

-- The times do not fall, from `start` on.
abbrev pub IsMonotone : ℕ → List (ℕ × State) → Type 0
IsMonotone start [] = Unit {0}
IsMonotone start ((now, s) ∷ rest) = (start ≤ now) × IsMonotone now rest

-- The last of the times.
abbrev pub last_time : ℕ → List (ℕ × State) → ℕ
last_time start [] = start
last_time start ((now, s) ∷ rest) = last_time now rest

last_duration-snoc : (xs : List ℕ) (a b : ℕ) → last_duration ((xs ++ a ∷ []) ++ b ∷ []) ≡ b - a
unfolding last_duration
last_duration-snoc [] a b = refl
last_duration-snoc (x ∷ []) a b = refl
last_duration-snoc (x ∷ y ∷ xs) a b = more xs (last_duration-snoc (y ∷ xs) a b)
  where
    more :
        (zs : List ℕ)
        → last_duration (y ∷ ((zs ++ a ∷ []) ++ b ∷ [])) ≡ b - a
        → last_duration (x ∷ y ∷ ((zs ++ a ∷ []) ++ b ∷ [])) ≡ b - a
    more [] h = h
    more (z ∷ zs) h = h

total_time-put :
    (s : State) (n : ℕ) (t : State → ℕ) → total_time (put s (t s + n) t) ≡ total_time t + n
total_time-put exit n t = omega arith
total_time-put s n t = omega arith

module _ (instants : List ℕ) (last now : ℕ) (s : State) (pcb : Pcb)
    (known : pcb.k_metrics.instants_list ≡ instants ++ last ∷ []) where
  -- SetState charges the time since the last change to the state that is entered.
  pub set_state_charges :
      (set_state now s pcb).k_metrics.time_spent s ≡ pcb.k_metrics.time_spent s + (now - last)
  unfolding set_state
  set_state_charges = ground (arith, known, last_duration-snoc instants last now, eq_state_refl s)

  -- SetState charges nothing to a state that it does not enter, the one that is left included,
  -- where the block was in some state before.
  set_state_left :
      (t : State)
      → t ≢ s
      → (set_state now s pcb).k_metrics.time_spent t ≡ pcb.k_metrics.time_spent t
  unfolding set_state
  set_state_left t n = ground (arith, eq_state→eq s t, n)

  total_time-set_state :
      total_time (set_state now s pcb).k_metrics.time_spent
      ≡ total_time pcb.k_metrics.time_spent + (now - last)
  unfolding set_state
  total_time-set_state =
      rw (known, last_duration-snoc instants last now)
        (total_time-put s (now - last) pcb.k_metrics.time_spent)

total_time-set_states :
    (changes : List (ℕ × State)) (instants : List ℕ) (last : ℕ) (pcb : Pcb)
    → pcb.k_metrics.instants_list ≡ instants ++ last ∷ []
    → IsMonotone last changes
    → total_time (set_states changes pcb).k_metrics.time_spent + last
      ≡ total_time pcb.k_metrics.time_spent + last_time last changes
unfolding set_states
total_time-set_states [] instants last pcb known m = refl
total_time-set_states ((now, s) ∷ rest) instants last pcb known m = omega (
  arith,
  total_time-set_states rest (instants ++ last ∷ []) now (set_state now s pcb)
      (unfold set_state in ap (λ l. l ++ now ∷ []) known) m.1,
  total_time-set_state instants last now s pcb known,
)

-- After any changes of state at times that do not fall, the times that SetState has charged to the
-- states add up to the time from the creation of the block to the last change.
pub total_time-create :
    (start pid : ℕ) (path : Text) (changes : List (ℕ × State))
    → IsMonotone start changes
    → total_time (set_states changes (create start pid path)).k_metrics.time_spent + start
      ≡ last_time start changes
total_time-create start pid path changes m =
    total_time-set_states changes [] start (create start pid path) (unfold create set_state in refl)
      m
    ∙ (unfold create set_state last_duration in zero-add (last_time start changes))

-- MenorTiempoRestanteDeRafaga returns what MayorTiempoRestanteDeRafaga returns, a process with the
-- most time left, on every list.
menor-eq-mayor :
    (now : ℕ) (ps : List Process)
    → menor_tiempo_restante_de_rafaga now ps ≡ mayor_tiempo_restante_de_rafaga now ps
unfolding menor_tiempo_restante_de_rafaga mayor_tiempo_restante_de_rafaga
menor-eq-mayor now [] = refl
menor-eq-mayor now (p ∷ ps) = refl

-- No process of these has more time left.
abbrev NoneAbove : ℕ → Process → List Process → Type 0
NoneAbove now best [] = Unit {0}
NoneAbove now best (p ∷ ps) =
    (tiempo_restante_de_rafaga now p ≤ tiempo_restante_de_rafaga now best) × NoneAbove now best ps

NoneAbove-mono :
    (now : ℕ) (a b : Process) (ps : List Process)
    → tiempo_restante_de_rafaga now a ≤ tiempo_restante_de_rafaga now b
    → NoneAbove now a ps
    → NoneAbove now b ps
NoneAbove-mono now a b [] h n = tt
NoneAbove-mono now a b (p ∷ ps) h n = (omega arith, NoneAbove-mono now a b ps h n.1)

-- The process that the loop keeps of two.
abbrev longer : ℕ → Process → Process → Process
longer now best p =
    if ltb (tiempo_restante_de_rafaga now best) (tiempo_restante_de_rafaga now p) then p else best

longer-le :
    (now : ℕ) (best p : Process)
    → (tiempo_restante_de_rafaga now best ≤ tiempo_restante_de_rafaga now (longer now best p))
      × (tiempo_restante_de_rafaga now p ≤ tiempo_restante_de_rafaga now (longer now best p))
longer-le now best p = ground arith

mayor_loop-le :
    (now : ℕ) (best : Process) (ps : List Process)
    → (tiempo_restante_de_rafaga now best ≤ tiempo_restante_de_rafaga now (mayor_loop now best ps))
      × NoneAbove now (mayor_loop now best ps) ps
unfolding mayor_loop
mayor_loop-le now best [] = (omega arith, tt)
mayor_loop-le now best (p ∷ ps) =
    let r = mayor_loop-le now (longer now best p) ps in
    let b = longer-le now best p in (le_trans b.0 r.0, (le_trans b.1 r.0, r.1))

-- MayorTiempoRestanteDeRafaga of a list that is not empty returns a process, and none of the list
-- has more time left of its burst.
mayor-NoneAbove :
    (now : ℕ) (p : Process) (ps : List Process)
    → (best : Process) × (mayor_tiempo_restante_de_rafaga now (p ∷ ps) ≡ some best)
      × NoneAbove now best (p ∷ ps)
unfolding mayor_tiempo_restante_de_rafaga
mayor-NoneAbove now p ps = (mayor_loop now p ps, refl, mayor_loop-le now p ps)
