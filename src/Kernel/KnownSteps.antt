-- ===== src/Kernel/KnownSteps.antt =====
-- The turns of the schedulers, the syscalls and the reports: what CPUs and MTSQueue point to.
use mathlib.Core.Option.{some-injective}
use tp_sisop_go_utn.Base.{
  Bool, Bool-cases, List, Option, Option-cases, [], arith, false, if◌then◌else◌, inl, inr, ltb,
  none, not, some, subst, true, ℕ, ◌&&◌, ◌<◌, ◌∷◌, ◌≡◌,
}
use tp_sisop_go_utn.Kernel.Api.{after_dump}
use tp_sisop_go_utn.Kernel.Interrupts.{
  get_cpu_with_longues_burst, preempt, preempt_for, sts_interrupt, time_left,
}
use tp_sisop_go_utn.Kernel.Known.{
  IsKnown, IsNumbered-assign, KnownCpus-assign, if_found-IsKnown, remove_blocked-IsKnown,
  terminate-IsKnown,
}
use tp_sisop_go_utn.Kernel.Moves.{dequeue-Taken, remove_by_pid-Taken, search_queue-Taken}
use tp_sisop_go_utn.Kernel.Pcb.{blocked, eq_state, exec, exit, new, ready, susp_ready}
use tp_sisop_go_utn.Kernel.Placement.{IsPlaced}
use tp_sisop_go_utn.Kernel.Queues.{
  SortBy, SortSlice, dequeue, enqueue, if_found, remove_by_pid, search_queue,
}
use tp_sisop_go_utn.Kernel.Scheduler.{
  bring_back, give_back, lts_turn, mts_round, send_to_execute, send_to_wait, start_timer,
  start_timers, sts_dispatch, suspend, with_cpu,
}
use tp_sisop_go_utn.Kernel.Shared.{
  get_available_cpu, remove_blocked_by_pid, terminate_process, try_inititialize_process,
}
use tp_sisop_go_utn.Kernel.State.{Blocked, CpuConnection, Kernel, state_of, with_process}

-- Likewise, whatever was taken out.
if_any-IsKnown :
    (r : Option ℕ × Kernel) (f : ℕ → Kernel → Kernel)
    → IsKnown r.1
    → ((x : ℕ) → IsKnown (f x r.1))
    → IsKnown (if_found r f)
if_any-IsKnown (none, k) f h keep = h
if_any-IsKnown (some x, k) f h keep = keep x

pub lts_turn-IsKnown :
    (lib : SortSlice) (by : SortBy) (accepted : Bool) (now : ℕ) (k : Kernel)
    → IsKnown k
    → IsKnown (lts_turn lib by accepted now k)
unfolding lts_turn search_queue try_inititialize_process enqueue remove_by_pid
lts_turn-IsKnown lib by accepted now k h =
    if_any-IsKnown (search_queue lib new by k)
      (λ p k'. (try_inititialize_process accepted now p k').1) h (λ x. initialized x accepted)
  where
    initialized :
        (x : ℕ) (b : Bool)
        → IsKnown (try_inititialize_process b now x (search_queue lib new by k).1).1
    initialized x true = h
    initialized x false = h

with_cpu-IsKnown :
    (ref : ℕ) (o : Option ℕ) (k : Kernel)
    → ((p : ℕ) → o ≡ some p → p < k.next_pid)
    → IsKnown k
    → IsKnown (with_cpu ref o k)
with_cpu-IsKnown ref o k lt h = (
  KnownCpus-assign k.next_pid ref o k.available_cpus lt h.0,
  h.1,
  h.2,
  IsNumbered-assign 0 ref o k.available_cpus h.3,
)

give_back-IsKnown : (now x : ℕ) (ref : ℕ) (k : Kernel) → IsKnown k → IsKnown (give_back now ref x k)
unfolding enqueue remove_by_pid
give_back-IsKnown now x ref k h =
    if_any-IsKnown (remove_by_pid (state_of k x) x k)
      (λ q k'. with_cpu ref none (enqueue now ready q k')) h
      (λ q.
        with_cpu-IsKnown ref none (enqueue now ready q (remove_by_pid (state_of k x) x k).1)
          (λ p e. absurd (cc)) h)

send_to_execute-IsKnown :
    (taken : Bool) (now x : ℕ) (ref : ℕ) (k : Kernel)
    → x < k.next_pid
    → IsKnown k
    → IsKnown (send_to_execute taken now ref x k)
unfolding send_to_execute enqueue
send_to_execute-IsKnown taken now x ref k lt h = elim (Bool-cases (eq_state (state_of k x) exit)) [
  | inl e ↦ rw (e, send_to_execute) h
  | inr e ↦ rw (e, send_to_execute) (finish_turn taken)
]
  where
    running : Kernel
    running =
        with_process x (λ q. record q { start_time = now })
          (with_cpu ref (some x) (enqueue now exec x k))

    known : IsKnown running
    known =
        with_cpu-IsKnown ref (some x) (enqueue now exec x k)
          (λ p e. subst (λ q. q < k.next_pid) (some-injective x p e) lt) h

    finish_turn : (b : Bool) → IsKnown (if b then running else give_back now ref x running)
    finish_turn true = known
    finish_turn false = give_back-IsKnown now x ref running known

pub sts_dispatch-IsKnown :
    (lib : SortSlice) (by : SortBy) (taken : Bool) (now : ℕ) (k : Kernel)
    → IsPlaced none k
    → IsKnown k
    → IsKnown (sts_dispatch lib by taken now k)
unfolding sts_dispatch
sts_dispatch-IsKnown lib by taken now k p h = elim (Option-cases (get_available_cpu k)) [
  | inl e ↦ rw (e, sts_dispatch) h
  | inr (cpu, e) ↦
      rw (e, sts_dispatch)
        (if_found-IsKnown ready k (dequeue lib ready by k)
          (λ p k'. send_to_execute taken now cpu.ref p k') (dequeue-Taken lib ready by k p)
          (unfold dequeue in h)
          (λ x lt.
            send_to_execute-IsKnown taken now x cpu.ref (dequeue lib ready by k).1
              (unfold dequeue in lt) (unfold dequeue in h)))
]

handed_over-IsKnown :
    (taken : Bool) (now p : ℕ) (ref : ℕ) (k : Kernel)
    → IsPlaced none k
    → IsKnown k
    → IsKnown (if_found (remove_by_pid ready p k) (send_to_execute taken now ref))
unfolding remove_by_pid
handed_over-IsKnown taken now p ref k q h =
    if_found-IsKnown ready k (remove_by_pid ready p k) (send_to_execute taken now ref)
      (remove_by_pid-Taken ready p k q) h
      (λ x lt. send_to_execute-IsKnown taken now x ref (remove_by_pid ready p k).1 lt h)

preempt-IsKnown :
    (answered taken : Bool) (now p : ℕ) (cpu : CpuConnection) (k : Kernel)
    → IsPlaced none k
    → IsKnown k
    → IsKnown (preempt answered taken now p cpu k)
preempt-IsKnown answered taken now p cpu k q h = elim (Option-cases cpu.process) [
  | inl e ↦ rw e h
  | inr (r, e) ↦
      elim (Bool-cases (ltb (k.heap p).estimated_burst (time_left now k r) && answered)) [
        | inl f ↦ rw (e, f) (handed_over-IsKnown taken now p cpu.ref k q h)
        | inr f ↦ rw (e, f) h
      ]
]

preempt_for-IsKnown :
    (answered taken : Bool) (now : ℕ) (r : Option ℕ × Kernel) (after : Kernel)
    → IsPlaced none r.1
    → IsKnown r.1
    → preempt_for answered taken now r ≡ some after
    → IsKnown after
preempt_for-IsKnown answered taken now (none, k) after p h e =
    subst IsKnown (some-injective k after e) h
preempt_for-IsKnown answered taken now (some x, k) after p h e =
    elim (Option-cases (get_cpu_with_longues_burst now k k.available_cpus)) [
      | inl f ↦ absurd (ground (arith, e, f))
      | inr (cpu, f) ↦
          subst IsKnown
            (some-injective (preempt answered taken now x cpu k) after (rw (f, preempt_for) at e))
            (preempt-IsKnown answered taken now x cpu k p h)
    ]

pub sts_interrupt-IsKnown :
    (lib : SortSlice) (by : SortBy) (answered taken : Bool) (now : ℕ) (k after : Kernel)
    → IsPlaced none k
    → IsKnown k
    → sts_interrupt lib by answered taken now k ≡ some after
    → IsKnown after
unfolding sts_interrupt
sts_interrupt-IsKnown lib by answered taken now k after p h e =
    preempt_for-IsKnown answered taken now (search_queue lib ready by k) after
      (search_queue-Taken lib ready by k p) (unfold search_queue in h) e

pub mts_round-IsKnown :
    (lib : SortSlice) (by : SortBy) (back : Bool) (now : ℕ) (k : Kernel)
    → IsKnown k
    → IsKnown (mts_round lib by back now k)
unfolding mts_round dequeue enqueue
mts_round-IsKnown lib by back now k h =
    if_any-IsKnown (dequeue lib susp_ready by k) (bring_back back now) h (λ x. brought x back)
  where
    brought : (x : ℕ) (b : Bool) → IsKnown (bring_back b now x (dequeue lib susp_ready by k).1)
    brought x true = remove_blocked-IsKnown x (dequeue lib susp_ready by k).1 h
    brought x false = h

pub start_timers-IsKnown :
    (bs : List Blocked) (k : Kernel) → IsKnown k → IsKnown (start_timers bs k)
unfolding start_timers
start_timers-IsKnown [] k h = h
start_timers-IsKnown (b ∷ bs) k h = start_timers-IsKnown bs (start_timer k b) (
    ite_known (
      not (k.heap b.process).timer_running
      && (eq_state (state_of k b.process) blocked && not b.dump_memory)))
  where
    ite_known :
        (t : Bool)
        → IsKnown
            (if t then with_process b.process (λ q. record q { timer_running = true }) k else k)
    ite_known true = h
    ite_known false = h

pub send_to_wait-IsKnown :
    (accepted : Bool) (now : ℕ) (b : Blocked) (k : Kernel)
    → IsKnown k
    → IsKnown (send_to_wait accepted now b k)
unfolding send_to_wait remove_by_pid enqueue
send_to_wait-IsKnown accepted now b k h =
    elim (Bool-cases (eq_state (state_of k b.process) blocked)) [
      | inr e ↦ rw (e, send_to_wait) h
      | inl e ↦
          rw (e, send_to_wait)
            (if_any-IsKnown (remove_by_pid blocked b.process k) (suspend accepted now) h (λ x. h))
    ]

pub after_dump-IsKnown :
    (success : Bool) (now x : ℕ) (k : Kernel) → IsKnown k → IsKnown (after_dump success now x k)
unfolding after_dump remove_by_pid enqueue
after_dump-IsKnown success now x k h =
    if_any-IsKnown (remove_by_pid (state_of k x) x k) _ h (λ y. after success)
  where
    k' : Kernel
    k' = (remove_by_pid (state_of k x) x k).1

    after :
        (ok : Bool)
        → IsKnown (
            if ok
            then enqueue now ready x (remove_blocked_by_pid x k')
            else terminate_process (enqueue now exit x k'))
    after true = remove_blocked-IsKnown x k' h
    after false = terminate-IsKnown (enqueue now exit x k') h
