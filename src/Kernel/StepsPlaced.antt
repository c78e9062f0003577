-- ===== src/Kernel/StepsPlaced.antt =====
-- The steps of the kernel that no other file has, and the places of processes.
use tp_sisop_go_utn.Base.{
  Bool, List, Option-cases, [], arith, count, false, head?, if◌then◌else◌, inl, inr, negsuc, none,
  not, pos, refl, some, true, ℕ, ℤ, ◌&&◌, ◌<◌, ◌∷◌, ◌≡◌, ◌≢◌, ◌≤◌,
}
use tp_sisop_go_utn.Base.Outcome.{state_after}
use tp_sisop_go_utn.Kernel.Api.{Reason, handle_reason, receive_cpu, unstated, with_removed}
use tp_sisop_go_utn.Kernel.Devices.{get_io, recieve_io, register_io, serve_waiting}
use tp_sisop_go_utn.Kernel.Moves.{
  nothing, one, placed_in, remove_by_pid-Taken, search_queue-Taken, sorted_queue-count,
  with_process-IsPlaced,
}
use tp_sisop_go_utn.Kernel.Pcb.{State, blocked, eq_state, exec, new}
use tp_sisop_go_utn.Kernel.Placement.{IsPlaced}
use tp_sisop_go_utn.Kernel.Preservation.{try_inititialize-IsPlaced}
use tp_sisop_go_utn.Kernel.Queues.{SortBy, SortSlice, if_found, search_queue, sorted_queue}
use tp_sisop_go_utn.Kernel.Reports.{handle_reason-IsPlaced, handle_reason_absent}
use tp_sisop_go_utn.Kernel.Scheduler.{lts_turn, start_timer, start_timers}
use tp_sisop_go_utn.Kernel.Shared.{KernelConfig}
use tp_sisop_go_utn.Kernel.State.{Blocked, Kernel, state_of, with_process}
use tp_sisop_go_utn.Utils.Strings.{Text}

-- The first process that a search of NEW finds is there.
search_queue-found :
    (lib : SortSlice) (s : State) (by : SortBy) (k : Kernel) (x : ℕ)
    → IsPlaced none k
    → (search_queue lib s by k).0 ≡ some x
    → (x < k.next_pid) × (state_of k x ≡ s)
unfolding search_queue
search_queue-found lib s by k x h e = placed_in x s k h (
    ground (
      arith,
      count-head x (sorted_queue lib by k (k.queue s)) e,
      sorted_queue-count lib by k (k.queue s) x,
    ))
  where
    count-head : (x : ℕ) (q : List ℕ) → head? q ≡ some x → 1 ≤ count x q
    count-head x [] e = absurd (cc)
    count-head x (y ∷ ys) e = ground (arith, e)

pub lts_turn-IsPlaced :
    (lib : SortSlice) (by : SortBy) (accepted : Bool) (now : ℕ) (k : Kernel)
    → IsPlaced none k
    → IsPlaced none (lts_turn lib by accepted now k)
unfolding lts_turn
lts_turn-IsPlaced lib by accepted now k h = elim (Option-cases (search_queue lib new by k).0) [
  | inl e ↦ rw (e, if_found) sorted
  | inr (x, e) ↦
      let (lt, at_new) = search_queue-found lib new by k x h e in
      rw (e, if_found)
        (try_inititialize-IsPlaced accepted now x (search_queue lib new by k).1
          (unfold search_queue in lt) (unfold search_queue in at_new) sorted)
]
  where
    sorted : IsPlaced none (search_queue lib new by k).1
    sorted = search_queue-Taken lib new by k h

pub start_timers-IsPlaced :
    (bs : List Blocked) (k : Kernel) → IsPlaced none k → IsPlaced none (start_timers bs k)
unfolding start_timers
start_timers-IsPlaced [] k h = h
start_timers-IsPlaced (b ∷ bs) k h = start_timers-IsPlaced bs (start_timer k b) (
    started (
      not (k.heap b.process).timer_running
      && (eq_state (state_of k b.process) blocked && not b.dump_memory)))
  where
    started :
        (t : Bool)
        → IsPlaced none
            (if t then with_process b.process (λ q. record q { timer_running = true }) k else k)
    started true =
        with_process-IsPlaced none b.process (λ q. record q { timer_running = true }) k (λ q. refl)
          h
    started false = h

pub receive_cpu-IsPlaced :
    (id ip : Text) (port : ℤ × Bool) (k : Kernel)
    → IsPlaced none k
    → IsPlaced none (state_after k (receive_cpu id ip port k))
unfolding receive_cpu
receive_cpu-IsPlaced id ip (port, true) k h = record { place = h.place }
receive_cpu-IsPlaced id ip (port, false) k h = h

pub recieve_io-IsPlaced :
    (name ip port : Text) (k : Kernel)
    → IsPlaced none k
    → IsPlaced none (recieve_io name ip port k).1
unfolding recieve_io
recieve_io-IsPlaced name ip port k h =
    elim (Option-cases (serve_waiting name (register_io name ip port k).mts_queue).0) [
      | inl e ↦ rw (e, recieve_io) registered
      | inr (b, e) ↦ rw (e, recieve_io) (record { place = registered.place })
    ]
  where
    registered : IsPlaced none (register_io name ip port k)
    registered = elim (Option-cases (get_io name ip port k.available_ios)) [
      | inl e ↦ rw (e, register_io) (record { place = h.place })
      | inr (d, e) ↦ rw (e, register_io) h
    ]

-- HandleReason with any counter: a negative one panics where the process is found.
pub any_reason-IsPlaced :
    (c : KernelConfig) (now pid : ℕ) (pc : ℤ) (reason : Reason) (k : Kernel)
    → reason ≢ unstated
    → IsPlaced none k
    → IsPlaced none (state_after k (handle_reason c now pid pc reason k))
any_reason-IsPlaced c now pid (pos pc) reason k n h =
    handle_reason-IsPlaced c now pid pc reason k n h
any_reason-IsPlaced c now pid (negsuc m) reason k n h = elim (remove_by_pid-Taken exec pid k h) [
  | nothing e p ↦ rw (handle_reason_absent c now pid (negsuc m) reason k e) p
  | one x e lt at_s p ↦ unfold handle_reason in rw (e, with_removed) h
]
