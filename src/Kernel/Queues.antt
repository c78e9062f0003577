-- ===== src/Kernel/Queues.antt =====
-- kernel/queues/queues.go. The result of a search comes with the kernel that it leaves.
use tp_sisop_go_utn.Kernel.State.{with_process, with_queue, Kernel}
use tp_sisop_go_utn.Kernel.Pcb.{State, set_state}
use tp_sisop_go_utn.Base.{
  ℤ, pos, negsuc, ◌^◌, ◌-◌, ◌+◌, Bool, length, ◌==◌, some, ◌≡◌, head?, [], List, tail, count, none,
  ◌∷◌, if◌then◌else◌, ℕ, IsSorted, Option, ◌++◌,
}

-- sort.Slice with `less` on a key. It may put entries with the same key in any order.
pub record SortSlice : Type 0 where
  pub sort_by : (ℕ → ℕ) → List ℕ → List ℕ
  pub sort_by-count : (key : ℕ → ℕ) (xs : List ℕ) (a : ℕ) → count a (sort_by key xs) ≡ count a xs
  pub sort_by-IsSorted : (key : ℕ → ℕ) (xs : List ℕ) → IsSorted key (sort_by key xs)

-- SortBy
pub data SortBy : Type 0 where
  size estimated_burst no_sort : SortBy

-- IsEmpty
unfoldable pub is_empty : State → Kernel → Bool
is_empty state k = length (k.queue state) == 0

-- Enqueue
unfoldable pub enqueue : ℕ → State → ℕ → Kernel → Kernel
unfolding set_state
enqueue now state process k =
    with_queue state (λ q. q ++ process ∷ [])
      (with_process process (λ p. record p { pcb = set_state now state p.pcb }) k)

-- The place of an int among all, which are ordered by it.
abbrev pub int_key : ℤ → ℕ
int_key (pos n) = 2 ^ 63 + n
int_key (negsuc n) = 2 ^ 63 - (n + 1)

abbrev pub sort_key : SortBy → Kernel → ℕ → ℕ
sort_key size k p = int_key (k.heap p).size
sort_key estimated_burst k p = (k.heap p).estimated_burst
sort_key no_sort k p = 0

-- The sorting that Search and Dequeue share; one entry or none is left as it is.
unfoldable pub sorted_queue : SortSlice → SortBy → Kernel → List ℕ → List ℕ
sorted_queue lib sort_by k [] = []
sorted_queue lib sort_by k (p ∷ []) = p ∷ []
sorted_queue lib no_sort k (p ∷ q ∷ rest) = p ∷ q ∷ rest
sorted_queue lib sort_by k (p ∷ q ∷ rest) = lib.sort_by (sort_key sort_by k) (p ∷ q ∷ rest)

-- Search: the queue stays sorted.
unfoldable pub search_queue : SortSlice → State → SortBy → Kernel → Option ℕ × Kernel
unfolding sorted_queue
search_queue lib state sort_by k = (
  head? (sorted_queue lib sort_by k (k.queue state)),
  with_queue state (sorted_queue lib sort_by k) k,
)

-- Dequeue
unfoldable pub dequeue : SortSlice → State → SortBy → Kernel → Option ℕ × Kernel
unfolding sorted_queue
dequeue lib state sort_by k = (
  head? (sorted_queue lib sort_by k (k.queue state)),
  with_queue state (λ q. tail (sorted_queue lib sort_by k q)) k,
)

-- The loop of FindByPID.
unfoldable pub find_pid : ℕ → List ℕ → Option ℕ
find_pid pid [] = none
find_pid pid (p ∷ ps) = if p == pid then some p else find_pid pid ps

-- FindByPID
unfoldable pub find_by_pid : State → ℕ → Kernel → Option ℕ
unfolding find_pid
find_by_pid state pid k = find_pid pid (k.queue state)

-- `append(queue[:i], queue[i+1:]...)` at the first entry with the pid.
unfoldable pub remove_pid : ℕ → List ℕ → List ℕ
remove_pid pid [] = []
remove_pid pid (p ∷ ps) = if p == pid then ps else p ∷ remove_pid pid ps

-- RemoveByPID
unfoldable pub remove_by_pid : State → ℕ → Kernel → Option ℕ × Kernel
unfolding find_pid remove_pid
remove_by_pid state pid k = (find_pid pid (k.queue state), with_queue state (remove_pid pid) k)

-- `if process == nil { return }` behind an operation that takes a process.
abbrev pub if_found : Option ℕ × Kernel → (ℕ → Kernel → Kernel) → Kernel
if_found (none, k) f = k
if_found (some p, k) f = f p k
