-- ===== src/Kernel/Syscalls.antt =====
-- RecieveSyscall of kernel/api/kernel_api.go: what each syscall keeps, the handler keeps.
use tp_sisop_go_utn.Base.Outcome.{
  panic, fail, done, fail_if, Outcome, or_fail, ◌>>=◌, or_panic, state_after,
}
use tp_sisop_go_utn.Kernel.Api.{
  Refusal, recieve_syscall, body_invalid, write_pc, dispatch, process_on, syscall_dump_memory,
  syscall_exit, syscall_init_proc, syscall_io,
}
use tp_sisop_go_utn.Kernel.Shared.{KernelConfig}
use tp_sisop_go_utn.Base.{
  negsuc, pos, ◌<◌, [], none, List, some, inl, ◌≡◌, Bool-cases, ℤ, ◌∷◌, Option-cases, ℕ, inr,
  Option, get_elem?,
}
use tp_sisop_go_utn.Utils.Strconv.{atoi}
use tp_sisop_go_utn.Kernel.State.{with_process, CpuConnection, Kernel}
use tp_sisop_go_utn.Utils.Codeutils.{Opcode, Instruction}
use tp_sisop_go_utn.Utils.Strings.{eq_text, Text}

-- Every CPU runs a process that was created.
abbrev pub KnownCpus : ℕ → List CpuConnection → Type 0
KnownCpus n [] = Unit {0}
KnownCpus n (c ∷ cs) = ((p : ℕ) → c.process ≡ some p → p < n) × KnownCpus n cs

process_on-lt :
    (id : Text) (cs : List CpuConnection) (n p : ℕ)
    → KnownCpus n cs
    → process_on id cs ≡ some p
    → p < n
unfolding process_on
process_on-lt id [] n p known e = absurd (cc)
process_on-lt id (c ∷ cs) n p known e = elim (Bool-cases (eq_text c.id id)) [
  | inl same ↦ known.0 p (rw (same, process_on) at e)
  | inr other ↦ process_on-lt id cs n p known.1 (rw (other, process_on) at e)
]

-- Where an operation panics, the state is the one before it.
from_start :
    (P : Kernel → Type 0) (k k' : Kernel) (o : Outcome Refusal Kernel (Unit {0}))
    → P k
    → P (state_after k' o)
    → P (state_after k o)
from_start P k k' (done a t) h h' = h'
from_start P k k' (fail e t) h h' = h'
from_start P k k' panic h h' = h

module _ (c : KernelConfig) (now : ℕ) (P : Kernel → Type 0)
    (of_io : (x : ℕ) (device : Text) (time : ℤ) (k : Kernel)
      → x < k.next_pid
      → P k
      → P (state_after k (syscall_io c now x device time k)))
    (of_init : (path : Text) (size : ℤ) (k : Kernel)
      → P k
      → P (state_after k (syscall_init_proc c now path size k)))
    (of_dump : (x : ℕ) (k : Kernel)
      → x < k.next_pid
      → P k
      → P (state_after k (syscall_dump_memory c now x k)))
    (of_exit : (x : ℕ) (k : Kernel)
      → x < k.next_pid
      → P k
      → P (state_after k (syscall_exit now x k)))
    (of_pc : (x n : ℕ) (k : Kernel)
      → P k
      → P (with_process x (λ q. record q { pcb = record q.pcb { pc = n } }) k)) where
  dispatch-keeps :
      (x : ℕ) (i : Instruction) (o : Opcode) (k : Kernel)
      → x < k.next_pid
      → P k
      → P (state_after k (dispatch c now x i o k))
  unfolding dispatch
  dispatch-keeps x i Opcode.io k lt h = elim (Option-cases (get_elem? i.args 0)) [
    | inl e ↦ rw (e, or_panic) h
    | inr (a, e) ↦ elim (Option-cases (get_elem? i.args 1)) [
      | inl f ↦ rw (e, f, or_panic) h
      | inr (b, f) ↦ rw (e, f, or_panic) (of_io x a (atoi b).0 k lt h)
    ]
  ]
  dispatch-keeps x i Opcode.init_proc k lt h = elim (Option-cases (get_elem? i.args 0)) [
    | inl e ↦ rw (e, or_panic) h
    | inr (a, e) ↦ elim (Option-cases (get_elem? i.args 1)) [
      | inl f ↦ rw (e, f, or_panic) h
      | inr (b, f) ↦ rw (e, f, or_panic) (of_init a (atoi b).0 k h)
    ]
  ]
  dispatch-keeps x i Opcode.dump_memory k lt h = of_dump x k lt h
  dispatch-keeps x i Opcode.exit k lt h = of_exit x k lt h
  dispatch-keeps x i _ k lt h = h

  executed :
      (x : ℕ) (pc : ℤ) (body : Option Instruction) (k : Kernel)
      → x < k.next_pid
      → P k
      → P (
          state_after k (
            (write_pc x pc >>= λ _. or_fail body body_invalid >>= λ i. dispatch c now x i i.opcode)
              k))
  executed x (negsuc n) body k lt h = h
  executed x (pos pc) none k lt h = of_pc x pc k h
  executed x (pos pc) (some i) k lt h =
      let counted = with_process x (λ q. record q { pcb = record q.pcb { pc = pc } }) k in
      from_start P k counted (dispatch c now x i i.opcode counted) h
        (dispatch-keeps x i i.opcode counted lt (of_pc x pc k h))

  pub recieve_syscall-keeps :
      (cpu_id pc : Text) (body : Option Instruction) (k : Kernel)
      → KnownCpus k.next_pid k.available_cpus
      → P k
      → P (state_after k (recieve_syscall c now cpu_id pc body k))
  unfolding recieve_syscall
  recieve_syscall-keeps cpu_id pc body k known h = elim (Bool-cases (eq_text cpu_id [])) [
    | inl e ↦ rw (e, fail_if) h
    | inr e ↦ elim (Bool-cases (atoi pc).1) [
      | inr f ↦ rw (e, f, fail_if) h
      | inl f ↦ elim (Option-cases (process_on cpu_id k.available_cpus)) [
        | inl g ↦ rw (e, f, fail_if, g, or_fail) h
        | inr (x, g) ↦
            rw (e, f, fail_if, g, or_fail)
              (executed x (atoi pc).0 body k
                (process_on-lt cpu_id k.available_cpus k.next_pid x known g) h)
      ]
    ]
  ]
