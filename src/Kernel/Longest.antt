-- ===== src/Kernel/Longest.antt =====
-- GetCPUWithLonguesBurst of kernel/scheduler/scheduler.go.
use native.Mathlib.Nat.{le_trans}
use tp_sisop_go_utn.Base.{
  Bool-cases, List, Option, Option-cases, [], arith, inl, inr, ltb, none, refl, some, tests, ℕ, ◌∷◌,
  ◌≡◌, ◌≤◌,
}
use tp_sisop_go_utn.Kernel.Interrupts.{
  get_cpu_with_longues_burst, longer_cpu, longest_cpu, time_left,
}
use tp_sisop_go_utn.Kernel.State.{CpuConnection, Kernel}

-- The time left of the process on a CPU; 0 on one that is idle.
abbrev pub left_on : ℕ → Kernel → CpuConnection → ℕ
left_on now k c = elim c.process [ none ↦ 0 | some p ↦ time_left now k p ]

abbrev pub NoneLonger : ℕ → Kernel → ℕ → List CpuConnection → Type 0
NoneLonger now k n [] = Unit {0}
NoneLonger now k n (c ∷ cs) = (left_on now k c ≤ n) × NoneLonger now k n cs

-- A CPU that is busy, and on which no less time is left than on any of the list.
pub record Longest (now : ℕ) (k : Kernel) (cs : List CpuConnection) (r : Option CpuConnection)
    : Type 0 where
  pub cpu : CpuConnection
  pub process : ℕ
  pub found : r ≡ some cpu
  pub busy : cpu.process ≡ some process
  pub none_longer : NoneLonger now k (left_on now k cpu) cs

-- What the loop leaves, from a busy CPU on.
pub record Kept (now : ℕ) (k : Kernel) (best : CpuConnection) (cs : List CpuConnection)
    (r : Option CpuConnection) : Type 0 where
  pub longest : Longest now k cs r
  pub no_less : left_on now k best ≤ left_on now k longest.cpu

longer_cpu-cases :
    (now : ℕ) (k : Kernel) (best c : CpuConnection) (q : ℕ)
    → best.process ≡ some q
    → (next : CpuConnection) × (longer_cpu now k best c ≡ some next)
      × ((p : ℕ) × (next.process ≡ some p))
      × (left_on now k best ≤ left_on now k next)
      × (left_on now k c ≤ left_on now k next)
longer_cpu-cases now k best c q e = elim (Option-cases c.process) [
  | inl f ↦ (best, rw (f, e) refl, (q, e), omega arith, rw f (omega arith))
  | inr (p, f) ↦ elim (Bool-cases (ltb (time_left now k q) (time_left now k p))) [
    | inl g ↦ (c, rw (f, e, g) refl, (p, f), rw (f, e) (omega (tests, g)), omega arith)
    | inr g ↦ (best, rw (f, e, g) refl, (q, e), omega arith, rw (f, e) (ground (arith, g)))
  ]
]

longest_cpu-Kept :
    (now : ℕ) (k : Kernel) (best : CpuConnection) (q : ℕ) (cs : List CpuConnection)
    → best.process ≡ some q
    → Kept now k best cs (longest_cpu now k best cs)
unfolding longest_cpu
longest_cpu-Kept now k best q [] e = record {
  longest = record { cpu = best; process = q; found = refl; busy = e; none_longer = tt };
  no_less = omega arith;
}
longest_cpu-Kept now k best q (c ∷ cs) e =
    let (kept, step, (p, f), more, over) = longer_cpu-cases now k best c q e in
    let rest = longest_cpu-Kept now k kept p cs f in
    rw (step, longest_cpu)
      (record {
        longest = record {
          cpu = rest.longest.cpu;
          process = rest.longest.process;
          found = rest.longest.found;
          busy = rest.longest.busy;
          none_longer = (le_trans over rest.no_less, rest.longest.none_longer);
        };
        no_less = le_trans more rest.no_less;
      })

-- GetCPUWithLonguesBurst, where the first CPU is busy, does not panic: it returns a CPU that is busy,
-- and on none of the CPUs is more time left.
pub get_cpu_with_longues_burst-Longest :
    (now : ℕ) (k : Kernel) (first : CpuConnection) (q : ℕ) (cs : List CpuConnection)
    → first.process ≡ some q
    → Longest now k (first ∷ cs) (get_cpu_with_longues_burst now k (first ∷ cs))
unfolding get_cpu_with_longues_burst
get_cpu_with_longues_burst-Longest now k first q cs e =
    (longest_cpu-Kept now k first q (first ∷ cs) e).longest
