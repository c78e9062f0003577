-- ===== src/Kernel/DevicesPlaced.antt =====
-- handleIOFinished of kernel/kernel.go and the places of processes.
use mathlib.Core.Option.{some-injective}
use tp_sisop_go_utn.Kernel.Devices.{
  finish_loop, shift_down, waits, get_io, set_disp, unblock, first_waiting, handle_io_finished,
  take_blocked,
}
use tp_sisop_go_utn.Base.{
  take, drop, ltb, ◌-◌, ◌+◌, ◌++◌, get_elem?, length, zero, suc, Option, Bool-cases, arith, [],
  none, some, refl, true, List, inr, inl, ℕ, ◌∷◌, ◌≡◌, Option-cases, subst, ◌<◌,
}
use tp_sisop_go_utn.Base.Outcome.{or_panic, or_fail, state_after}
use tp_sisop_go_utn.Kernel.Placement.{remove_by_pid-IsPlaced, enqueue-IsPlaced, IsPlaced}
use tp_sisop_go_utn.Kernel.Preservation.{next_pid-remove}
use tp_sisop_go_utn.Kernel.State.{state_of, Blocked, Kernel}
use tp_sisop_go_utn.Kernel.Queues.{remove_by_pid}
use tp_sisop_go_utn.Kernel.Pcb.{State, ready, blocked, susp_blocked, susp_ready}
use tp_sisop_go_utn.Utils.Strings.{Text}

-- Every process that waits was created.
abbrev pub KnownBlocked : ℕ → List Blocked → Type 0
KnownBlocked n [] = Unit {0}
KnownBlocked n (b ∷ bs) = (b.process < n) × KnownBlocked n bs

pub take_blocked-lt :
    (name : Text) (pid n x : ℕ) (bs : List Blocked)
    → KnownBlocked n bs
    → (take_blocked name pid bs).0 ≡ some x
    → x < n
unfolding take_blocked
take_blocked-lt name pid n x [] known e = absurd (cc)
take_blocked-lt name pid n x (b ∷ bs) known e =
    ground (arith, take_blocked-lt name pid n x bs known.1)

pub first_waiting-lt :
    (name : Text) (n x : ℕ) (bs : List Blocked)
    → KnownBlocked n bs
    → first_waiting name bs ≡ some x
    → x < n
unfolding first_waiting
first_waiting-lt name n x [] known e = absurd (cc)
first_waiting-lt name n x (b ∷ bs) known e = ground (arith, first_waiting-lt name n x bs known.1)

pub KnownBlocked-++ :
    (n : ℕ) (bs ds : List Blocked)
    → KnownBlocked n bs
    → KnownBlocked n ds
    → KnownBlocked n (bs ++ ds)
KnownBlocked-++ n [] ds h g = g
KnownBlocked-++ n (b ∷ bs) ds h g = (h.0, KnownBlocked-++ n bs ds h.1 g)

KnownBlocked-first : (n i : ℕ) (bs : List Blocked) → KnownBlocked n bs → KnownBlocked n (take i bs)
KnownBlocked-first n zero bs h = tt
KnownBlocked-first n (suc i) [] h = tt
KnownBlocked-first n (suc i) (b ∷ bs) h = (h.0, KnownBlocked-first n i bs h.1)

KnownBlocked-rest : (n i : ℕ) (bs : List Blocked) → KnownBlocked n bs → KnownBlocked n (drop i bs)
KnownBlocked-rest n zero bs h = h
KnownBlocked-rest n (suc i) [] h = tt
KnownBlocked-rest n (suc i) (b ∷ bs) h = KnownBlocked-rest n i bs h.1

slot-lt :
    (n i : ℕ) (b : Blocked) (bs : List Blocked)
    → KnownBlocked n bs
    → get_elem? bs i ≡ some b
    → b.process < n
slot-lt n i b [] h e = absurd (cc)
slot-lt n zero b (d ∷ bs) h e = subst (λ x. x.process < n) (some-injective d b e) h.0
slot-lt n (suc i) b (d ∷ bs) h e = slot-lt n i b bs h.1 e

KnownBlocked-shift_down :
    (n i len : ℕ) (bs : List Blocked) → KnownBlocked n bs → KnownBlocked n (shift_down i len bs)
KnownBlocked-shift_down n i len bs h =
    let moved = KnownBlocked-first n (len - (i + 1)) _ (KnownBlocked-rest n (i + 1) bs h) in
    KnownBlocked-++ n (take i bs) _ (KnownBlocked-first n i bs h)
      (KnownBlocked-++ n _ (drop (len - 1) bs) moved (KnownBlocked-rest n (len - 1) bs h))

-- What the loop of handleIOFinished returns was in the queue.
pub finish_loop-Known :
    (name : Text) (pid n i left len : ℕ) (found : Option ℕ) (slots : List Blocked)
    (r : Option ℕ × List Blocked)
    → KnownBlocked n slots
    → ((x : ℕ) → found ≡ some x → x < n)
    → finish_loop name pid i left len found slots ≡ some r
    → ((x : ℕ) → r.0 ≡ some x → x < n) × KnownBlocked n r.1
unfolding finish_loop
finish_loop-Known name pid n i zero len found slots r h f e =
    subst (λ t. ((x : ℕ) → t.0 ≡ some x → x < n) × KnownBlocked n t.1)
      (some-injective (found, take len slots) r e) (f, KnownBlocked-first n len slots h)
finish_loop-Known name pid n i (suc left) len found slots r h f e =
    elim (Option-cases (get_elem? slots i)) [
      | inl a ↦ absurd (ground (arith, e, a))
      | inr (b, a) ↦ elim (Bool-cases (waits name pid b)) [
        | inr w ↦
            finish_loop-Known name pid n (i + 1) left len found slots r h f
              (rw (a, w, finish_loop) at e)
        | inl w ↦ elim (Bool-cases (ltb i len)) [
          | inr l ↦ absurd (ground (arith, e, a, w, l))
          | inl l ↦
              finish_loop-Known name pid n (i + 1) left (len - 1) (some b.process)
                (shift_down i len slots) r (KnownBlocked-shift_down n i len slots h)
                (λ x g. subst (λ y. y < n) (some-injective b.process x g) (slot-lt n i b slots h a))
                (rw (a, w, l, finish_loop) at e)
        ]
      ]
    ]

-- A process whose IO is done moves from BLOCKED to READY, or from SUSP_BLOCKED to SUSP_READY.
unblock-IsPlaced :
    (now x : ℕ) (s : State) (k : Kernel)
    → x < k.next_pid
    → state_of k x ≡ s
    → IsPlaced none k
    → IsPlaced none (unblock now x s k)
unblock-IsPlaced now x susp_blocked k lt at_s h =
    enqueue-IsPlaced now susp_ready x (remove_by_pid susp_blocked x k).1
      (rw (next_pid-remove susp_blocked x k) lt)
      (subst (λ t. IsPlaced (some x) (remove_by_pid t x k).1) at_s
        (remove_by_pid-IsPlaced x k lt h))
unblock-IsPlaced now x blocked k lt at_s h =
    enqueue-IsPlaced now ready x (remove_by_pid blocked x k).1 (rw (next_pid-remove blocked x k) lt)
      (subst (λ t. IsPlaced (some x) (remove_by_pid t x k).1) at_s
        (remove_by_pid-IsPlaced x k lt h))
unblock-IsPlaced now x _ k lt at_s h = h

-- handleIOFinished, its failures included, keeps every process once in the queue of its state and
-- in no other, where nothing panics (after a panic the state before it counts), if that held
-- before and the entries of MTSQueue are of processes that were created.
pub handle_io_finished-IsPlaced :
    (now : ℕ) (name ip port : Text) (pid : ℕ) (k : Kernel)
    → KnownBlocked k.next_pid k.mts_queue
    → IsPlaced none k
    → IsPlaced none (state_after k (handle_io_finished now name ip port pid k))
unfolding handle_io_finished
handle_io_finished-IsPlaced now name ip port pid k known h =
    elim (Option-cases (get_io name ip port k.available_ios)) [
      | inl e ↦ rw (e, or_fail) h
      | inr (d, e) ↦ elim (Option-cases looped) [
        | inl f ↦ rw (e, or_fail, f, or_panic) h
        | inr (r, f) ↦ elim (Option-cases r.0) [
          | inl g ↦ rw (e, or_fail, f, or_panic, g) (record { place = h.place })
          | inr (x, g) ↦
              let lt =
                (finish_loop-Known name pid k.next_pid 0 n n none k.mts_queue r known
                    (λ y i. absurd (cc)) f).0
                  x g in
              rw (e, or_fail, f, or_panic, g)
                (unblock-IsPlaced now x (state_of k x)
                  (record k {
                    available_ios = set_disp true name ip port k.available_ios;
                    mts_queue = r.1;
                  })
                  lt refl (record { place = h.place }))
        ]
      ]
    ]
  where
    n : ℕ
    n = length k.mts_queue

    looped : Option (Option ℕ × List Blocked)
    looped = finish_loop name pid 0 n n none k.mts_queue
