-- ===== src/Cpu/Endings.antt =====
-- The rounds of ciclo in cpu/cpu.go: that they end, and that a pending interrupt is served.
use tp_sisop_go_utn.Cpu.KeepingCycle.{fixed, Keeps-step}
use tp_sisop_go_utn.Cpu.Keeping.{Left}
use tp_sisop_go_utn.Cpu.Cycle.{
  asign, ciclo_round, ciclo_rounds, end_round, exec, Motivo, Peers, send_pid_pc_to_memory,
  send_results, signal, interrupted, exited,
}
use tp_sisop_go_utn.Cpu.Memory.{answered, MemoryProgram, refused, Reply, unreachable}
use tp_sisop_go_utn.Cpu.State.{Cpu, out_of_fuel, Run, Stuck}
use tp_sisop_go_utn.Utils.Codeutils.{Instruction}
use tp_sisop_go_utn.Base.Outcome.{done, fail, Outcome, panic, pure, ◌>>=◌}
use tp_sisop_go_utn.Base.{
  ◌⊎◌, inl, inr, ◌<◌, ◌≡◌, ◌≢◌, if◌then◌else◌, ◌∙◌, ◌∷◌, [], ap, arith, Bool, false, List, refl,
  subst, sym, true,
}

bind_assoc :
    {S A B C : Type 0} (m : Run S A) (f : A → Run S B) (g : B → Run S C) (c : Cpu S)
    → ((m >>= f) >>= g) c ≡ (m >>= λ a. f a >>= g) c
bind_assoc {S} {A} {B} {C} m f g c = go (m c) refl
  where
    go : (o : Outcome Stuck (Cpu S) A) → m c ≡ o → ((m >>= f) >>= g) c ≡ (m >>= λ a. f a >>= g) c
    go (done a t) e = rw (e, ◌>>=◌) refl
    go (fail x t) e = rw (e, ◌>>=◌) refl
    go panic e = rw (e, ◌>>=◌) refl

module _ {S : Type 0} (program : MemoryProgram S) (peers : Peers S) where
  -- How a round may end: with the process and the layout of its addresses as they were, with a
  -- panic, or with a wait that is not for the model's fuel.
  abbrev pub Returns : Cpu S → Outcome Stuck (Cpu S) Bool → Type 0
  Returns c (done go_on t) = (t.memory_conf ≡ c.memory_conf) × (t.pid ≡ c.pid)
  Returns c (fail e t) = e ≢ out_of_fuel
  Returns c panic = Unit

  -- What the channels allow `select` to take, while an interrupt is pending: the interrupt, and the
  -- exit only where one is pending too.
  abbrev pub Allowed : Bool → Bool → Motivo → Type 0
  Allowed first exit interrupted = (first ≡ true) ⊎ (exit ≡ false)
  Allowed first exit exited = (first ≡ false) × (exit ≡ true)

  -- The report has gone out, and what it was about is not pending any more.
  abbrev pub reported : Motivo → Cpu S → Cpu S
  reported interrupted u = record u {
    interrupt_pending = false;
    memory = peers.results u.pid u.pc interrupted u.memory;
  }
  reported exited u = record u {
    exit_pending = false;
    memory = peers.results u.pid u.pc exited u.memory;
  }

  -- How a round with a pending interrupt may end, where `o` is what decoding and executing come to:
  -- the cycle is over behind that, with one report for the process, and that is all that follows.
  abbrev pub Served :
      Bool → Cpu S → Outcome Stuck (Cpu S) Bool → Outcome Stuck (Cpu S) Bool → Type 0
  Served first c o (done go_on t) =
      (go_on ≡ false)
      × (status : Bool) × (u : Cpu S) × (reason : Motivo) × (o ≡ done status u)
      × (u.pid ≡ c.pid)
      × (u.interrupt_pending ≡ true)
      × Allowed first u.exit_pending reason
      × (t ≡ reported reason u)
  Served first c o (fail e t) = e ≢ out_of_fuel
  Served first c o panic = Unit

  -- What follows the instruction in a round.
  abbrev after_exec : Bool → Bool → Run S Bool
  after_exec first status t =
      end_round program peers status (signal program peers first t.interrupt_pending t.exit_pending)
        t

  -- The variables with the instruction.
  abbrev pub with_instruction : Instruction → Cpu S → Cpu S
  with_instruction i c = record c {
    memory = (peers.process c.pid c.pc c.memory).1;
    instruction = i;
    fetch = true;
  }

  round_of_answer :
      (first : Bool) (i : Instruction) (c : Cpu S)
      → (peers.process c.pid c.pc c.memory).0 ≡ answered i
      → ciclo_round program peers first c
        ≡ ((asign program peers >>= λ u. exec program peers) >>= after_exec first)
            (with_instruction i c)
  unfolding ciclo_round send_pid_pc_to_memory
  round_of_answer first i c fetched =
      let u = with_instruction i c in
      let step : ciclo_round program peers first c
          ≡ (asign program peers >>= λ w. exec program peers >>= after_exec first) u =
        ground arith in
      step ∙ sym (bind_assoc (asign program peers) (λ w. exec program peers) (after_exec first) u)

  end_round-Returns :
      (status first interrupt exit : Bool) (c t : Cpu S)
      → t.memory_conf ≡ c.memory_conf
      → t.pid ≡ c.pid
      → Returns c (end_round program peers status (signal program peers first interrupt exit) t)
  unfolding send_results
  end_round-Returns status first false false c t e f = (e, f)
  end_round-Returns status first true false c t e f = (e, f)
  end_round-Returns status first false true c t e f = (e, f)
  end_round-Returns status true true true c t e f = (e, f)
  end_round-Returns status false true true c t e f = (e, f)

  end_round-Served :
      (status first interrupt exit : Bool) (c t : Cpu S)
      → t.interrupt_pending ≡ true
      → interrupt ≡ true
      → t.exit_pending ≡ exit
      → t.pid ≡ c.pid
      → Served first c
          (done status t)
          (end_round program peers status (signal program peers first interrupt exit) t)
  unfolding send_results
  end_round-Served status first false exit c t p i x f = absurd (cc)
  end_round-Served status first true false c t p i x f =
      (refl, status, t, interrupted, refl, f, p, inr x, refl)
  end_round-Served status true true true c t p i x f =
      (refl, status, t, interrupted, refl, f, p, inl refl, refl)
  end_round-Served status false true true c t p i x f =
      (refl, status, t, exited, refl, f, p, (refl, x), refl)

  finish_Returns :
      (first : Bool) (c : Cpu S) (o : Outcome Stuck (Cpu S) Bool)
      → Left (fixed program peers) (fixed program peers c) o
      → Returns c (elim o [ done a t ↦ after_exec first a t | fail e t ↦ fail e t | panic ↦ panic ])
  finish_Returns first c (done status t) h =
      end_round-Returns status first t.interrupt_pending t.exit_pending c t (ap (λ w. w.0) h)
        (ap (λ w. w.1) h)
  finish_Returns first c (fail e t) h = h
  finish_Returns first c panic h = tt

  finish_Served :
      (first : Bool) (c : Cpu S) (o : Outcome Stuck (Cpu S) Bool)
      → c.interrupt_pending ≡ true
      → Left (fixed program peers) (fixed program peers c) o
      → Served first c o
          (elim o [ done a t ↦ after_exec first a t | fail e t ↦ fail e t | panic ↦ panic ])
  finish_Served first c (done status t) pending h =
      let still = ap (λ w. w.2) h ∙ pending in
      end_round-Served status first t.interrupt_pending t.exit_pending c t still still refl
        (ap (λ w. w.1) h)
  finish_Served first c (fail e t) pending h = h
  finish_Served first c panic pending h = tt

  -- Decoding and executing an instruction that has arrived.
  abbrev pub executed : Instruction → Cpu S → Outcome Stuck (Cpu S) Bool
  executed i c = (asign program peers >>= λ u. exec program peers) (with_instruction i c)

  -- Where an interrupt is pending when an instruction arrives, and the round returns: the cycle
  -- is over, whatever the instruction and whatever the other programs answer, and behind the
  -- execution there is one report for the process that ran, with the program counter that it
  -- reached. It is for the interrupt, which is not pending any more, unless an exit is pending
  -- too by then and `select` takes that; then it is for the exit, and the interrupt stays
  -- pending. A page has a size above 0; loops end then, so that what may keep the round from
  -- returning is a panic, a full channel, or an address below 0.
  pub ciclo_round-Served :
      (first : Bool) (i : Instruction) (c : Cpu S)
      → 0 < c.memory_conf.page_size
      → (peers.process c.pid c.pc c.memory).0 ≡ answered i
      → c.interrupt_pending ≡ true
      → Served first c (executed i c) (ciclo_round program peers first c)
  ciclo_round-Served first i c size fetched pending =
      let u = with_instruction i c in
      rw (round_of_answer first i c fetched) (
        finish_Served first c ((asign program peers >>= λ u. exec program peers) u) pending
          ((Keeps-step program peers (fixed program peers c) size).keeps u refl))

  round_Returns :
      (first : Bool) (c : Cpu S)
      → 0 < c.memory_conf.page_size
      → Returns c (ciclo_round program peers first c)
  unfolding ciclo_round send_pid_pc_to_memory
  round_Returns first c size = by_reply (peers.process c.pid c.pc c.memory).0 refl
    where
      missed :
          ciclo_round program peers first c
            ≡ done true (record c { memory = (peers.process c.pid c.pc c.memory).1 })
          → Returns c (ciclo_round program peers first c)
      missed e = subst (Returns c) (sym e) (refl, refl)

      by_reply :
          (r : Reply Instruction)
          → (peers.process c.pid c.pc c.memory).0 ≡ r
          → Returns c (ciclo_round program peers first c)
      by_reply (answered i) e =
          let u = with_instruction i c in
          rw (round_of_answer first i c e) (
            finish_Returns first c ((asign program peers >>= λ u. exec program peers) u)
              ((Keeps-step program peers (fixed program peers c) size).keeps u refl))
      by_reply refused e = missed (ground arith)
      by_reply unreachable e = missed (ground arith)

  then_rest :
      (c : Cpu S) (o : Outcome Stuck (Cpu S) Bool) (next : Run S Bool)
      → Returns c o
      → ((t : Cpu S) → t.memory_conf ≡ c.memory_conf → Returns t (next t))
      → Returns c (elim o [
        | done go_on t ↦ (if go_on then next else pure false) t
        | fail e t ↦ fail e t
        | panic ↦ panic
      ])
  then_rest c (done false t) next h k = h
  then_rest c (done true t) next h k = rest (next t) (k t h.0)
    where
      rest : (o : Outcome Stuck (Cpu S) Bool) → Returns t o → Returns c o
      rest (done b u) l = (l.0 ∙ h.0, l.1 ∙ h.1)
      rest (fail e u) l = l
      rest panic l = tt
  then_rest c (fail e t) next h k = h
  then_rest c panic next h k = tt

  -- Every round of the cycle ends, with a page size above 0, whatever the instructions and
  -- whatever the other programs answer, if nothing panics and no channel is full or address below
  -- 0: the loops of CLOCK, ReadCache, WriteCache, ReadMemory and WriteMemory never run out of
  -- their rounds. The process that runs and the layout of its addresses stay the same.
  pub ciclo_rounds-Returns :
      (choices : List Bool) (c : Cpu S)
      → 0 < c.memory_conf.page_size
      → Returns c (ciclo_rounds program peers choices c)
  unfolding ciclo_rounds
  ciclo_rounds-Returns [] c size = (refl, refl)
  ciclo_rounds-Returns (first ∷ choices) c size =
      then_rest c (ciclo_round program peers first c) (ciclo_rounds program peers choices)
        (round_Returns first c size)
        λ t h. ciclo_rounds-Returns choices t (omega (arith, size, ap (λ m. m.page_size) h))
