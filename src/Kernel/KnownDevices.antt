-- ===== src/Kernel/KnownDevices.antt =====
-- The handlers of the devices: what CPUs and MTSQueue point to.
use tp_sisop_go_utn.Kernel.DevicesPlaced.{KnownBlocked, finish_loop-Known}
use tp_sisop_go_utn.Base.{
  List, length, Bool, Option, Option-cases, false, get_elem?, if◌then◌else◌, inl, inr, none, some,
  suc, true, zero, ℕ, ◌+◌,
}
use tp_sisop_go_utn.Base.Outcome.{or_fail, or_panic, pure, state_after}
use tp_sisop_go_utn.Kernel.Api.{finish, has_io}
use tp_sisop_go_utn.Kernel.Devices.{
  finish_loop, drop_at, drop_io, drop_waiting, end_first, end_found, end_orphans, end_served,
  end_suspended, end_waiting, first_waiting, get_io, handle_io_disconnected, handle_io_finished,
  recieve_io, register_io, serve_waiting, set_disp, take_blocked, unblock,
}
use tp_sisop_go_utn.Kernel.Known.{
  IsKnown, KnownBlocked-drop, KnownBlocked-serve, finish-IsKnown, remove_blocked-IsKnown,
}
use tp_sisop_go_utn.Kernel.Pcb.{State, blocked, susp_blocked, susp_ready}
use tp_sisop_go_utn.Kernel.Queues.{enqueue, remove_by_pid}
use tp_sisop_go_utn.Kernel.Shared.{remove_blocked_by_pid}
use tp_sisop_go_utn.Kernel.State.{Blocked, Kernel, state_of, with_queue}
use tp_sisop_go_utn.Utils.Strings.{Text}

pub recieve_io-IsKnown :
    (name ip port : Text) (k : Kernel) → IsKnown k → IsKnown (recieve_io name ip port k).1
unfolding recieve_io
recieve_io-IsKnown name ip port k h =
    elim (Option-cases (serve_waiting name (register_io name ip port k).mts_queue).0) [
      | inl e ↦ rw (e, recieve_io) registered
      | inr (b, e) ↦
          rw (e, recieve_io)
            (
              registered.0,
              KnownBlocked-serve (register_io name ip port k).next_pid name
                  (register_io name ip port k).mts_queue registered.1,
              registered.2,
              registered.3,
            )
    ]
  where
    registered : IsKnown (register_io name ip port k)
    registered = elim (Option-cases (get_io name ip port k.available_ios)) [
      | inl e ↦ rw (e, register_io) h
      | inr (d, e) ↦ rw (e, register_io) h
    ]

pub handle_io_finished-IsKnown :
    (now : ℕ) (name ip port : Text) (pid : ℕ) (k : Kernel)
    → IsKnown k
    → IsKnown (state_after k (handle_io_finished now name ip port pid k))
unfolding handle_io_finished enqueue remove_by_pid
handle_io_finished-IsKnown now name ip port pid k h =
    elim (Option-cases (get_io name ip port k.available_ios)) [
      | inl e ↦ rw (e, or_fail) h
      | inr (d, e) ↦ elim (Option-cases (finish_loop name pid 0 n n none k.mts_queue)) [
        | inl f ↦ rw (e, or_fail, f, or_panic) h
        | inr (r, f) ↦
            let known =
              (finish_loop-Known name pid k.next_pid 0 n n none k.mts_queue r h.1
                (λ y i. absurd (cc)) f).1 in
            elim (Option-cases r.0) [
              | inl g ↦ rw (e, or_fail, f, or_panic, g) (taken_out r.1 known)
              | inr (x, g) ↦ rw (e, or_fail, f, or_panic, g) (moved r.1 known x (state_of k x))
            ]
      ]
    ]
  where
    n : ℕ
    n = length k.mts_queue

    left_with : List Blocked → Kernel
    left_with mts = record k {
      available_ios = set_disp true name ip port k.available_ios;
      mts_queue = mts;
    }

    taken_out : (mts : List Blocked) → KnownBlocked k.next_pid mts → IsKnown (left_with mts)
    taken_out mts known = (h.0, known, h.2, h.3)

    moved :
        (mts : List Blocked)
        → KnownBlocked k.next_pid mts
        → (x : ℕ) (s : State) → IsKnown (unblock now x s (left_with mts))
    moved mts known x susp_blocked = taken_out mts known
    moved mts known x blocked = taken_out mts known
    moved mts known x _ = taken_out mts known

end_found-IsKnown : (now : ℕ) (o : Option ℕ) (k : Kernel) → IsKnown k → IsKnown (end_found now o k)
end_found-IsKnown now none k h = h
end_found-IsKnown now (some x) k h =
    finish-IsKnown now x (remove_blocked_by_pid x k) (remove_blocked-IsKnown x k h)

end_first-IsKnown :
    (now : ℕ) (name : Text) (o : Option ℕ) (k : Kernel)
    → IsKnown k
    → IsKnown (end_first now name o k)
end_first-IsKnown now name none k h = h
end_first-IsKnown now name (some x) k h =
    finish-IsKnown now x (record k { mts_queue = drop_waiting name k.mts_queue })
      (h.0, KnownBlocked-drop k.next_pid name k.mts_queue h.1, h.2, h.3)

end_suspended-IsKnown :
    (now index left : ℕ) (before k : Kernel)
    → IsKnown before
    → IsKnown k
    → IsKnown (state_after before (end_suspended now index left k))
unfolding end_suspended
end_suspended-IsKnown now index zero before k hs h = h
end_suspended-IsKnown now index (suc left) before k hs h =
    elim (Option-cases (get_elem? (k.queue susp_ready) index)) [
      | inl e ↦ rw (e, or_panic) hs
      | inr (x, e) ↦
          rw (e, or_panic)
            (end_suspended-IsKnown now (index + 1) left before
              (finish now x (with_queue susp_ready (drop_at index) k)) hs
              (finish-IsKnown now x (with_queue susp_ready (drop_at index) k) h))
    ]

pub handle_io_disconnected-IsKnown :
    (now : ℕ) (name ip port : Text) (pid : ℕ) (k : Kernel)
    → IsKnown k
    → IsKnown (state_after k (handle_io_disconnected now name ip port pid k))
unfolding handle_io_disconnected end_orphans end_waiting
handle_io_disconnected-IsKnown now name ip port pid k h =
    elim (Option-cases (get_io name ip port k.available_ios)) [
      | inl e ↦ rw (e, or_fail) h
      | inr (d, e) ↦ rw (e, or_fail) (rest (has_io name dropped.available_ios))
    ]
  where
    served : Kernel
    served = end_served now name pid k

    dropped : Kernel
    dropped = record served { available_ios = drop_io name ip port served.available_ios }

    served-IsKnown : IsKnown dropped
    served-IsKnown = end_found-IsKnown now (take_blocked name pid k.mts_queue).0 k h

    orphaned : Kernel
    orphaned = end_waiting now name dropped

    rest :
        (b : Bool) → IsKnown (state_after k ((if b then pure tt else end_orphans now name) dropped))
    rest true = served-IsKnown
    rest false =
        end_suspended-IsKnown now 0 (length (orphaned.queue susp_ready)) k orphaned h
          (end_first-IsKnown now name (first_waiting name dropped.mts_queue) dropped served-IsKnown)
