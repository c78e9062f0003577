-- ===== src/Kernel/Moves.antt =====
-- How the operations of the kernel's queues move a process.
use tp_sisop_go_utn.Kernel.Queues.{
  if_found, SortBy, SortSlice, remove_pid, dequeue, find_pid, remove_by_pid, search_queue,
  sorted_queue, size, estimated_burst, no_sort,
}
use tp_sisop_go_utn.Kernel.Placement.{eq_state_refl, remove_by_pid-IsPlaced, eq_state→eq, IsPlaced}
use tp_sisop_go_utn.Kernel.State.{state_of, with_process, with_queue, Kernel, Process}
use tp_sisop_go_utn.Kernel.Pcb.{State}
use tp_sisop_go_utn.Base.{
  arith, Option-cases, refl, ◌≡◌, Option, subst, inl, ℕ, ◌≤◌, List, head?, [], ◌<◌, none, inr, ◌∷◌,
  ap, count, some, tail,
}

-- A write that keeps the state of the process moves nothing.
pub with_process-IsPlaced :
    (moved : Option ℕ) (x : ℕ) (f : Process → Process) (k : Kernel)
    → ((p : Process) → (f p).pcb.state ≡ p.pcb.state)
    → IsPlaced moved k
    → IsPlaced moved (with_process x f k)
with_process-IsPlaced none x f k same h = record {
  place = λ p s. ground (arith, h.place p s, same (k.heap p));
}
with_process-IsPlaced (some y) x f k same h = record {
  place = λ p s. ground (arith, h.place p s, same (k.heap p));
}

find_pid-count : (p r : ℕ) (q : List ℕ) → find_pid p q ≡ some r → (r ≡ p) × (1 ≤ count p q)
unfolding find_pid
find_pid-count p r [] h = ground arith
find_pid-count p r (x ∷ xs) h = ground (arith, find_pid-count p r xs)

-- What an operation that takes a process out of the queue of `s` leaves.
pub data Taken (s : State) (k : Kernel) (r : Option ℕ × Kernel) : Type 0 where
  nothing : r.0 ≡ none → IsPlaced none r.1 → Taken s k r
  one :
      (x : ℕ)
      → r.0 ≡ some x
      → x < k.next_pid
      → state_of k x ≡ s
      → IsPlaced (some x) r.1
      → Taken s k r

pub placed_in :
    (x : ℕ) (s : State) (k : Kernel)
    → IsPlaced none k
    → 1 ≤ count x (k.queue s)
    → (x < k.next_pid) × (state_of k x ≡ s)
placed_in x s k h c = ground (arith, h.place x s, eq_state→eq (state_of k x) s)

remove_pid_absent : (p : ℕ) (q : List ℕ) → find_pid p q ≡ none → remove_pid p q ≡ q
unfolding find_pid remove_pid
remove_pid_absent p [] h = refl
remove_pid_absent p (x ∷ xs) h = ground (arith, remove_pid_absent p xs)

-- RemoveByPID takes the process out if it is in that queue, and does nothing otherwise.
pub remove_by_pid-Taken :
    (s : State) (x : ℕ) (k : Kernel) → IsPlaced none k → Taken s k (remove_by_pid s x k)
unfolding remove_by_pid
remove_by_pid-Taken s x k h = elim (Option-cases (find_pid x (k.queue s))) [
  | inl e ↦ nothing e (record {
    place = λ p t. ground (arith, h.place p t, e, remove_pid_absent x (k.queue s), eq_state→eq s t);
  })
  | inr (r, e) ↦
      let (same, there) = find_pid-count x r (k.queue s) e in
      let (lt, at_s) = placed_in x s k h there in
      one x (rw same at e) lt at_s (
        subst (λ t. IsPlaced (some x) (remove_by_pid t x k).1) at_s
          (remove_by_pid-IsPlaced x k lt h))
]

pub sorted_queue-count :
    (lib : SortSlice) (sort_by : SortBy) (k : Kernel) (q : List ℕ) (a : ℕ)
    → count a (sorted_queue lib sort_by k q) ≡ count a q
unfolding sorted_queue
sorted_queue-count lib sort_by k [] a = refl
sorted_queue-count lib sort_by k (p ∷ []) a = refl
sorted_queue-count lib no_sort k (p ∷ q ∷ rest) a = refl
sorted_queue-count lib size k (p ∷ q ∷ rest) a = lib.sort_by-count _ (p ∷ q ∷ rest) a
sorted_queue-count lib estimated_burst k (p ∷ q ∷ rest) a = lib.sort_by-count _ (p ∷ q ∷ rest) a

-- Search only sorts a queue.
pub search_queue-Taken :
    (lib : SortSlice) (s : State) (sort_by : SortBy) (k : Kernel)
    → IsPlaced none k
    → IsPlaced none (search_queue lib s sort_by k).1
unfolding search_queue
search_queue-Taken lib s sort_by k h = record {
  place = λ p t. ground (arith, h.place p t, sorted_queue-count lib sort_by k (k.queue t) p);
}

-- Dequeue takes out one process of the queue, unless that is empty.
pub dequeue-Taken :
    (lib : SortSlice) (s : State) (sort_by : SortBy) (k : Kernel)
    → IsPlaced none k
    → Taken s k (dequeue lib s sort_by k)
unfolding dequeue
dequeue-Taken lib s sort_by k h = split (sorted_queue lib sort_by k (k.queue s)) refl
  where
    split :
        (q : List ℕ)
        → sorted_queue lib sort_by k (k.queue s) ≡ q
        → Taken s k (
          head? (sorted_queue lib sort_by k (k.queue s)),
          with_queue s (λ u. tail (sorted_queue lib sort_by k u)) k,
        )
    split [] e = nothing (ap head? e) (record {
      place = λ p t.
          ground (
            arith,
            h.place p t,
            e,
            sorted_queue-count lib sort_by k (k.queue s) p,
            eq_state→eq s t,
          );
    })
    split (x ∷ xs) e =
        let (lt, at_s) =
          placed_in x s k h (ground (arith, e, sorted_queue-count lib sort_by k (k.queue s) x)) in
        one x (ap head? e) lt at_s (record {
          place = λ p t. ground (
            arith,
            h.place p t,
            e,
            at_s,
            sorted_queue-count lib sort_by k (k.queue s) p,
            eq_state→eq s t,
            eq_state_refl s,
          );
        })

-- What is done with the process taken must bring it back to a place.
pub if_found-IsPlaced :
    (s : State) (k : Kernel) (r : Option ℕ × Kernel) (f : ℕ → Kernel → Kernel)
    → Taken s k r
    → ((x : ℕ)
        → r.0 ≡ some x
        → x < k.next_pid
        → state_of k x ≡ s
        → IsPlaced (some x) r.1
        → IsPlaced none (f x r.1))
    → IsPlaced none (if_found r f)
if_found-IsPlaced s k (none, k') f (nothing e h) keep = h
if_found-IsPlaced s k (none, k') f (one x e lt at_s h) keep = absurd (cc)
if_found-IsPlaced s k (some p, k') f (nothing e h) keep = absurd (cc)
if_found-IsPlaced s k (some p, k') f (one x e lt at_s h) keep =
    let same : p ≡ x = cc in rw same (keep x e lt at_s h)
