-- ===== src/Kernel/Disconnections.antt =====
-- A disconnected device: the processes that end with it.
use tp_sisop_go_utn.Kernel.State.{IoConnection, state_of, with_queue, Blocked, Kernel}
use tp_sisop_go_utn.Kernel.Api.{has_io, finish}
use tp_sisop_go_utn.Base.Outcome.{or_fail, pure, panic, or_panic, state_after}
use tp_sisop_go_utn.Kernel.Devices.{
  get_io, drop_waiting, end_orphans, first_waiting, drop_io, end_first, end_served, end_waiting,
  handle_io_disconnected, take_blocked, end_found, drop_at, end_suspended,
}
use tp_sisop_go_utn.Kernel.DevicesPlaced.{first_waiting-lt, take_blocked-lt, KnownBlocked}
use tp_sisop_go_utn.Kernel.Queues.{remove_pid, enqueue, remove_by_pid}
use tp_sisop_go_utn.Utils.Strings.{Text}
use tp_sisop_go_utn.Base.{
  ◌≤◌, false, Bool, length, true, arith, ◌∷◌, suc, inl, inr, refl, count, ◌<◌, List, ℕ, ◌==◌, zero,
  [], Option-cases, if◌then◌else◌, get_elem?, Option, ◌+◌, none, some, ◌≡◌,
}
use tp_sisop_go_utn.Kernel.Preservation.{
  next_pid-remove, remove_blocked-IsPlaced, terminate-IsPlaced, finish-IsPlaced,
}
use tp_sisop_go_utn.Kernel.Placement.{
  enqueue-IsPlaced, eq_state_refl, eq_state→eq, count-remove_pid, IsPlaced,
}
use tp_sisop_go_utn.Kernel.Shared.{remove_blocked_by_pid, terminate_process, remove_blocked}
use tp_sisop_go_utn.Kernel.Moves.{placed_in}
use tp_sisop_go_utn.Kernel.Pcb.{State, susp_ready, exit}

end_found-IsPlaced :
    (now : ℕ) (o : Option ℕ) (k : Kernel)
    → ((x : ℕ) → o ≡ some x → x < k.next_pid)
    → IsPlaced none k
    → IsPlaced none (end_found now o k)
end_found-IsPlaced now none k lt h = h
end_found-IsPlaced now (some x) k lt h =
    finish-IsPlaced now x (remove_blocked_by_pid x k) (lt x refl)
      (remove_blocked-IsPlaced none x k h)

pub KnownBlocked-remove :
    (n x : ℕ) (bs : List Blocked) → KnownBlocked n bs → KnownBlocked n (remove_blocked x bs)
unfolding remove_blocked
KnownBlocked-remove n x [] h = tt
KnownBlocked-remove n x (b ∷ bs) h = ground (arith, KnownBlocked-remove n x bs h.1)

end_found-KnownBlocked :
    (now : ℕ) (o : Option ℕ) (k : Kernel)
    → KnownBlocked k.next_pid k.mts_queue
    → KnownBlocked (end_found now o k).next_pid (end_found now o k).mts_queue
unfolding enqueue remove_by_pid terminate_process
end_found-KnownBlocked now none k h = h
end_found-KnownBlocked now (some x) k h =
    ground (arith, KnownBlocked-remove k.next_pid x k.mts_queue h)

-- A process that is in hand is in no queue, so that a search for it changes nothing.
remove_again-IsPlaced :
    (x : ℕ) (s : State) (k : Kernel)
    → IsPlaced (some x) k
    → IsPlaced (some x) (remove_by_pid s x k).1
unfolding remove_by_pid
remove_again-IsPlaced x s k h = record {
  place = λ p t. ground (arith, h.place p t, count-remove_pid p x (k.queue t));
}

finish_taken-IsPlaced :
    (now x : ℕ) (k : Kernel) → x < k.next_pid → IsPlaced (some x) k → IsPlaced none (finish now x k)
finish_taken-IsPlaced now x k lt h =
    let k' = (remove_by_pid (state_of k x) x k).1 in
    terminate-IsPlaced (enqueue now exit x k') (
      enqueue-IsPlaced now exit x k' (rw (next_pid-remove (state_of k x) x k) lt)
        (remove_again-IsPlaced x (state_of k x) k h))

count-drop_at :
    (a x i : ℕ) (q : List ℕ)
    → get_elem? q i ≡ some x
    → count a (drop_at i q) + (if x == a then 1 else 0) ≡ count a q
unfolding drop_at
count-drop_at a x i [] e = absurd (cc)
count-drop_at a x zero (y ∷ ys) e = ground (arith, e)
count-drop_at a x (suc i) (y ∷ ys) e = omega (arith, count-drop_at a x i ys e)

drop_at-IsPlaced :
    (x i : ℕ) (s : State) (k : Kernel)
    → get_elem? (k.queue s) i ≡ some x
    → IsPlaced none k
    → (x < k.next_pid) × IsPlaced (some x) (with_queue s (drop_at i) k)
drop_at-IsPlaced x i s k e h =
    let (lt, at_s) = placed_in x s k h (ground (arith, count-drop_at x x i (k.queue s) e)) in
    (
      lt,
      record {
        place = λ p t. ground (
          arith,
          h.place p t,
          at_s,
          count-drop_at p x i (k.queue s) e,
          eq_state→eq s t,
          eq_state_refl s,
        );
      },
    )

end_suspended-IsPlaced :
    (now index left : ℕ) (start k : Kernel)
    → IsPlaced none start
    → IsPlaced none k
    → IsPlaced none (state_after start (end_suspended now index left k))
unfolding end_suspended
end_suspended-IsPlaced now index zero start k hs h = h
end_suspended-IsPlaced now index (suc left) start k hs h =
    elim (Option-cases (get_elem? (k.queue susp_ready) index)) [
      | inl e ↦ rw (e, or_panic) hs
      | inr (x, e) ↦
          let (lt, p) = drop_at-IsPlaced x index susp_ready k e h in
          rw (e, or_panic)
            (end_suspended-IsPlaced now (index + 1) left start
              (finish now x (with_queue susp_ready (drop_at index) k)) hs
              (finish_taken-IsPlaced now x (with_queue susp_ready (drop_at index) k) lt p))
    ]

module _ (now : ℕ) (name ip port : Text) (pid : ℕ) (k : Kernel)
    (known : KnownBlocked k.next_pid k.mts_queue) (h : IsPlaced none k) where
  served : Kernel
  served = end_served now name pid k

  dropped : Kernel
  dropped = record served { available_ios = drop_io name ip port served.available_ios }

  orphaned : Kernel
  orphaned = end_waiting now name dropped

  dropped-IsPlaced : IsPlaced none dropped
  unfolding dropped served
  dropped-IsPlaced =
      let p =
        end_found-IsPlaced now (take_blocked name pid k.mts_queue).0 k
          (λ x f. take_blocked-lt name pid k.next_pid x k.mts_queue known f) h in
      record { place = p.place }

  dropped-KnownBlocked : KnownBlocked dropped.next_pid dropped.mts_queue
  unfolding dropped served
  dropped-KnownBlocked = end_found-KnownBlocked now (take_blocked name pid k.mts_queue).0 k known

  orphaned_by :
      (o : Option ℕ)
      → ((x : ℕ) → o ≡ some x → x < dropped.next_pid)
      → IsPlaced none (end_first now name o dropped)
  orphaned_by none lt = dropped-IsPlaced
  orphaned_by (some x) lt =
      finish-IsPlaced now x (record dropped { mts_queue = drop_waiting name dropped.mts_queue })
        (lt x refl) (record { place = dropped-IsPlaced.place })

  orphaned-IsPlaced : IsPlaced none orphaned
  unfolding orphaned end_waiting
  orphaned-IsPlaced =
      orphaned_by (first_waiting name dropped.mts_queue)
        (λ x f. first_waiting-lt name dropped.next_pid x dropped.mts_queue dropped-KnownBlocked f)

  -- handleIODisconnected with its goroutine, failures included, keeps every process once in the
  -- queue of its state and in no other, where nothing panics (after a panic the state before it
  -- counts), if that held before and the entries of MTSQueue are of processes that were created.
  pub handle_io_disconnected-IsPlaced :
      IsPlaced none (state_after k (handle_io_disconnected now name ip port pid k))
  unfolding handle_io_disconnected end_orphans dropped served orphaned
  handle_io_disconnected-IsPlaced = elim (Option-cases (get_io name ip port k.available_ios)) [
    | inl e ↦ rw (e, or_fail) h
    | inr (d, e) ↦ rw (e, or_fail) (rest (has_io name dropped.available_ios))
  ]
    where
      rest :
          (b : Bool)
          → IsPlaced none (state_after k ((if b then pure tt else end_orphans now name) dropped))
      rest true = dropped-IsPlaced
      rest false =
          end_suspended-IsPlaced now 0 (length (orphaned.queue susp_ready)) k orphaned h
            orphaned-IsPlaced

length-drop_at :
    (x i : ℕ) (q : List ℕ) → get_elem? q i ≡ some x → length (drop_at i q) + 1 ≡ length q
unfolding drop_at
length-drop_at x i [] e = absurd (cc)
length-drop_at x zero (y ∷ ys) e = omega arith
length-drop_at x (suc i) (y ∷ ys) e = omega (arith, length-drop_at x i ys e)

length-remove_pid-le : (p : ℕ) (q : List ℕ) → length (remove_pid p q) ≤ length q
unfolding remove_pid
length-remove_pid-le p [] = omega arith
length-remove_pid-le p (x ∷ xs) = ground (arith, length-remove_pid-le p xs)

get_elem?-lt : (q : List ℕ) (i x : ℕ) → get_elem? q i ≡ some x → i < length q
get_elem?-lt [] i x e = absurd (cc)
get_elem?-lt (y ∷ ys) zero x e = omega arith
get_elem?-lt (y ∷ ys) (suc i) x e = omega (arith, get_elem?-lt ys i x e)

length-finish-le :
    (now x : ℕ) (k : Kernel)
    → length ((finish now x k).queue susp_ready) ≤ length (k.queue susp_ready)
unfolding terminate_process enqueue remove_by_pid
length-finish-le now x k = ground (arith, length-remove_pid-le x (k.queue susp_ready))

pub end_suspended_panics :
    (now index left : ℕ) (k : Kernel)
    → length (k.queue susp_ready) ≤ index + left + left
    → end_suspended now index (suc left) k ≡ panic
unfolding end_suspended
end_suspended_panics now index zero k le =
    elim (Option-cases (get_elem? (k.queue susp_ready) index)) [
      | inl e ↦ rw (e, or_panic) refl
      | inr (x, e) ↦ absurd (omega (arith, get_elem?-lt (k.queue susp_ready) index x e))
    ]
end_suspended_panics now index (suc left) k le =
    elim (Option-cases (get_elem? (k.queue susp_ready) index)) [
      | inl e ↦ rw (e, or_panic) refl
      | inr (x, e) ↦
          let k' = with_queue susp_ready (drop_at index) k in
          rw (e, or_panic)
            (end_suspended_panics now (index + 1) left (finish now x k') (
              omega
                (arith, length-finish-le now x k', length-drop_at x index (k.queue susp_ready) e)))
    ]

from_first_panics :
    (now n : ℕ) (k : Kernel)
    → n ≡ length (k.queue susp_ready)
    → 2 ≤ n
    → end_suspended now 0 n k ≡ panic
from_first_panics now zero k e two = absurd (omega arith)
from_first_panics now (suc n) k e two = end_suspended_panics now 0 n k (omega arith)

-- When the last device of a name disconnects, no process waiting for it, and two or more processes
-- are in SUSP_READY, the goroutine of handleIODisconnected indexes SuspReadyQueue out of range and
-- panics.
pub handle_io_disconnected_panics :
    (now : ℕ) (name ip port : Text) (pid : ℕ) (d : IoConnection) (k : Kernel)
    → get_io name ip port k.available_ios ≡ some d
    → has_io name (drop_io name ip port k.available_ios) ≡ false
    → (take_blocked name pid k.mts_queue).0 ≡ none
    → first_waiting name k.mts_queue ≡ none
    → 2 ≤ length (k.queue susp_ready)
    → handle_io_disconnected now name ip port pid k ≡ panic
unfolding handle_io_disconnected end_orphans end_waiting
handle_io_disconnected_panics now name ip port pid d k here last served_none waiting_none two =
    rw (here, or_fail, served_none, last, waiting_none)
      (from_first_panics now (length (k.queue susp_ready))
        (record k { available_ios = drop_io name ip port k.available_ios }) refl two)
