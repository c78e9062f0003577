-- ===== src/Kernel/Placement.antt =====
-- Where the kernel keeps a process: in the queue of its state, once, and in no other. While an
-- operation moves one process, that one is in no queue.
use tp_sisop_go_utn.Kernel.Pcb.{exit, eq_state, set_state, State}
use tp_sisop_go_utn.Kernel.State.{state_of, Kernel}
use tp_sisop_go_utn.Kernel.Queues.{enqueue, find_pid, remove_by_pid, remove_pid}
use tp_sisop_go_utn.Base.{
  arith, ◌<◌, ◌==◌, not, some, ◌≡◌, count, ◌&&◌, ◌∷◌, Option, true, ◌≤◌, refl, ltb, none, false, ℕ,
  List, ◌-◌, Bool, if◌then◌else◌, [], count-append,
}

abbrev pub in_hand : Option ℕ → ℕ → Bool
in_hand none p = false
in_hand (some x) p = x == p

-- How often process `p` should be in the queue of state `s`.
abbrev pub places : Option ℕ → Kernel → ℕ → State → ℕ
places moved k p s =
    if ltb p k.next_pid && (not (in_hand moved p) && eq_state (state_of k p) s) then 1 else 0

-- Every process that was created, but the one that is moved, is in the queue of its state once.
pub record IsPlaced (moved : Option ℕ) (k : Kernel) : Type 0 where
  pub place : (p : ℕ) (s : State) → count p (k.queue s) ≡ places moved k p s

pub eq_state_refl : (s : State) → eq_state s s ≡ true
eq_state_refl exit = refl
eq_state_refl _ = refl

pub eq_state→eq : (s t : State) → eq_state s t ≡ true → s ≡ t
eq_state→eq exit exit h = refl
eq_state→eq s t h = ground arith

pub count-find_pid : (p : ℕ) (q : List ℕ) → 1 ≤ count p q → find_pid p q ≡ some p
unfolding find_pid
count-find_pid p [] h = absurd (omega arith)
count-find_pid p (x ∷ xs) h = ground (arith, count-find_pid p xs)

pub count-find_pid-none : (p : ℕ) (q : List ℕ) → count p q ≡ 0 → find_pid p q ≡ none
unfolding find_pid
count-find_pid-none p [] h = refl
count-find_pid-none p (x ∷ xs) h = ground (arith, count-find_pid-none p xs)

pub count-remove_pid :
    (a p : ℕ) (q : List ℕ) → count a (remove_pid p q) ≡ count a q - (if a == p then 1 else 0)
unfolding remove_pid
count-remove_pid a p [] = ground arith
count-remove_pid a p (x ∷ xs) = ground (arith, count-remove_pid a p xs)

-- Enqueue puts the moved process in its place.
pub enqueue-IsPlaced :
    (now : ℕ) (s : State) (x : ℕ) (k : Kernel)
    → x < k.next_pid
    → IsPlaced (some x) k
    → IsPlaced none (enqueue now s x k)
unfolding enqueue set_state
enqueue-IsPlaced now s x k lt h = record {
  place = λ p t.
      ground
        (arith, h.place p t, count-append p (k.queue t) (x ∷ []), eq_state_refl s, eq_state→eq s t);
}

-- RemoveByPID from the queue of the process's state finds it, and takes it in hand.
pub remove_by_pid-found :
    (x : ℕ) (k : Kernel)
    → x < k.next_pid
    → IsPlaced none k
    → (remove_by_pid (state_of k x) x k).0 ≡ some x
unfolding remove_by_pid
remove_by_pid-found x k lt h =
    count-find_pid x (k.queue (state_of k x))
      (ground (arith, h.place x (state_of k x), eq_state_refl (state_of k x)))

pub remove_by_pid-IsPlaced :
    (x : ℕ) (k : Kernel)
    → x < k.next_pid
    → IsPlaced none k
    → IsPlaced (some x) (remove_by_pid (state_of k x) x k).1
unfolding remove_by_pid
remove_by_pid-IsPlaced x k lt h = record {
  place = λ p t. ground (
    arith,
    h.place p t,
    count-remove_pid p x (k.queue t),
    eq_state→eq (state_of k x) t,
    eq_state_refl t,
  );
}
