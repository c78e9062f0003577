-- ===== src/Kernel/Closing.antt =====
-- When the kernel closes: TerminateProcess of kernel/shared/process_shared.go, behind the move to
-- EXIT.
use tp_sisop_go_utn.Kernel.Reachable.{Reach-IsSound}
use tp_sisop_go_utn.Kernel.Sound.{IsSound}
use tp_sisop_go_utn.Base.{
  Bool-cases, List, [], arith, count, false, if◌then◌else◌, inl, inr, length, ltb, none, refl, suc,
  true, zero, ℕ, ◌+◌, ◌<◌, ◌==◌, ◌↔◌, ◌∷◌, ◌≡◌, ◌≤◌,
}
use tp_sisop_go_utn.Kernel.Api.{finish}
use tp_sisop_go_utn.Kernel.Pcb.{exit}
use tp_sisop_go_utn.Kernel.Placement.{
  IsPlaced, enqueue-IsPlaced, eq_state_refl, eq_state→eq, remove_by_pid-IsPlaced,
}
use tp_sisop_go_utn.Kernel.Preservation.{next_pid-remove}
use tp_sisop_go_utn.Kernel.Queues.{SortSlice, enqueue, remove_by_pid}
use tp_sisop_go_utn.Kernel.Shared.{KernelConfig, terminate_process}
use tp_sisop_go_utn.Kernel.State.{Kernel, Process, state_of}
use tp_sisop_go_utn.Kernel.Steps.{Reach}

abbrev sum_to : (ℕ → ℕ) → ℕ → ℕ
sum_to f zero = 0
sum_to f (suc n) = sum_to f n + f n

sum_to-same : (f g : ℕ → ℕ) (n : ℕ) → ((p : ℕ) → f p ≡ g p) → sum_to f n ≡ sum_to g n
sum_to-same f g zero e = refl
sum_to-same f g (suc n) e = omega (arith, e n, sum_to-same f g n e)

-- One entry more.
sum_to-cons :
    (x n : ℕ) (q : List ℕ)
    → sum_to (λ p. count p (x ∷ q)) n ≡ sum_to (λ p. count p q) n + (if ltb x n then 1 else 0)
sum_to-cons x zero q = ground arith
sum_to-cons x (suc n) q = ground (arith, sum_to-cons x n q)

sum_to-zero : (n : ℕ) → sum_to (λ p. 0) n ≡ 0
sum_to-zero zero = refl
sum_to-zero (suc n) = omega (arith, sum_to-zero n)

-- A queue of numbers below `n` has as many entries as these numbers occur.
sum_to-length :
    (n : ℕ) (q : List ℕ) → ((p : ℕ) → n ≤ p → count p q ≡ 0) → sum_to (λ p. count p q) n ≡ length q
sum_to-length n [] none_above = sum_to-zero n
sum_to-length n (x ∷ xs) none_above = ground (
  arith,
  sum_to-cons x n xs,
  sum_to-length n xs (λ p le. ground (arith, none_above p le)),
  none_above x,
)

sum_to-le : (f : ℕ → ℕ) (n : ℕ) → ((p : ℕ) → f p ≤ 1) → sum_to f n ≤ n
sum_to-le f zero once = omega arith
sum_to-le f (suc n) once = omega (arith, sum_to-le f n once, once n)

-- The processes below `n` are in EXIT.
abbrev pub AllExit : ℕ → Kernel → Type 0
AllExit zero k = Unit {0}
AllExit (suc n) k = (state_of k n ≡ exit) × AllExit n k

AllExit-same :
    (n : ℕ) (k u : Kernel) → ((p : ℕ) → state_of k p ≡ state_of u p) → AllExit n k → AllExit n u
AllExit-same zero k u same a = tt
AllExit-same (suc n) k u same a = ground (arith, same n, AllExit-same n k u same a.1)

module _ (k : Kernel) (h : IsPlaced none k) where
  in_exit : ℕ → ℕ
  in_exit p = count p (k.queue exit)

  in_exit-le : (p : ℕ) → in_exit p ≤ 1
  unfolding in_exit
  in_exit-le p = ground (arith, h.place p exit)

  full-AllExit : (n : ℕ) → n ≤ k.next_pid → sum_to in_exit n ≡ n → AllExit n k
  unfolding in_exit
  full-AllExit zero le e = tt
  full-AllExit (suc n) le e =
      let below = sum_to-le in_exit n in_exit-le in
      let once = in_exit-le n in
      (
        eq_state→eq (state_of k n) exit (ground (arith, h.place n exit)),
        full-AllExit n (omega arith) (omega arith),
      )

  AllExit-full : (n : ℕ) → n ≤ k.next_pid → AllExit n k → sum_to in_exit n ≡ n
  unfolding in_exit
  AllExit-full zero le a = refl
  AllExit-full (suc n) le a =
      ground (arith, AllExit-full n (omega arith) a.1, h.place n exit, a.0, eq_state_refl exit)

-- TerminateProcess closes the kernel exactly when every process that was created is in EXIT.
terminate_process-closes :
    (k : Kernel)
    → IsPlaced none k
    → k.total_processes_created ≡ k.next_pid
    → k.closing ≡ false
    → ((terminate_process k).closing ≡ true) ↔ AllExit k.next_pid (terminate_process k)
unfolding terminate_process in_exit
terminate_process-closes k h total open_yet =
    elim (Bool-cases (length (k.queue exit) == k.total_processes_created)) [
      | inl e ↦
          rw (e, terminate_process)
            (
              λ _.
                  AllExit-same k.next_pid k _ (λ p. refl)
                    (full-AllExit k h k.next_pid (omega arith)
                      (ground (arith, e, total, all_counted))),
              λ _. refl,
            )
      | inr e ↦
          rw (e, terminate_process)
            (
              λ closed. absurd (ground (arith, closed, open_yet)),
              λ a. absurd (
                  ground
                    (arith, e, total, all_counted, AllExit-full k h k.next_pid (omega arith) a)),
            )
    ]
  where
    all_counted : sum_to (in_exit k h) k.next_pid ≡ length (k.queue exit)
    all_counted = sum_to-length k.next_pid (k.queue exit) (λ p le. ground (arith, h.place p exit))

-- In every state that the kernel reaches before it closes, from its start on, as long as no handler,
-- scheduler or goroutine panicked and every CPU named the reason of its report: when a process that
-- was created ends, wherever it is, the kernel closes if every process that was created is then in
-- EXIT, and only then.
pub finish-closes :
    (c : KernelConfig) (lib : SortSlice) (heap : ℕ → Process) (k : Kernel) (now x : ℕ)
    → Reach c lib heap k
    → k.closing ≡ false
    → x < k.next_pid
    → ((finish now x k).closing ≡ true) ↔ AllExit k.next_pid (finish now x k)
unfolding enqueue remove_by_pid
finish-closes c lib heap k now x r open_yet lt =
    terminate_process-closes ended placed sound.known.2 open_yet
  where
    sound : IsSound k
    sound = Reach-IsSound c lib heap r

    ended : Kernel
    ended = enqueue now exit x (remove_by_pid (state_of k x) x k).1

    placed : IsPlaced none ended
    placed =
        enqueue-IsPlaced now exit x (remove_by_pid (state_of k x) x k).1
          (rw (next_pid-remove (state_of k x) x k) lt) (remove_by_pid-IsPlaced x k lt sound.placed)
