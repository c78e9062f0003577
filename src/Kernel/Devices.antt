-- ===== src/Kernel/Devices.antt =====
-- kernel/kernel.go: the handlers of the IO devices. A device is named by name, address and port.
use tp_sisop_go_utn.Kernel.State.{with_queue, state_of, Blocked, IoConnection, Kernel}
use tp_sisop_go_utn.Base.Outcome.{or_panic, pure, modify, or_fail, get, ◌>>=◌, ◌>>◌}
use tp_sisop_go_utn.Base.{
  take, drop, ltb, ◌-◌, suc, zero, get_elem?, ◌+◌, length, none, Bool, Option, ◌++◌, not, true,
  if◌then◌else◌, ℕ, ◌&&◌, false, ◌==◌, ◌∷◌, [], List, some,
}
use tp_sisop_go_utn.Kernel.Api.{process_not_found, io_not_found, M, has_io, finish}
use tp_sisop_go_utn.Kernel.Queues.{remove_by_pid, enqueue}
use tp_sisop_go_utn.Kernel.Shared.{remove_blocked_by_pid}
use tp_sisop_go_utn.Utils.Strings.{eq_text, Text}
use tp_sisop_go_utn.Kernel.Pcb.{State, ready, blocked, susp_blocked, susp_ready}

abbrev pub is_io : Text → Text → Text → IoConnection → Bool
is_io name ip port d = eq_text d.name name && eq_text d.ip ip && eq_text d.port port

-- getIO
unfoldable pub get_io : Text → Text → Text → List IoConnection → Option IoConnection
get_io name ip port [] = none
get_io name ip port (d ∷ ios) = if is_io name ip port d then some d else get_io name ip port ios

-- `io.Disp = …` through the pointer of getIO.
unfoldable pub set_disp : Bool → Text → Text → Text → List IoConnection → List IoConnection
set_disp disp name ip port [] = []
set_disp disp name ip port (d ∷ ios) =
    if is_io name ip port d
    then record d { disp = disp } ∷ ios
    else d ∷ set_disp disp name ip port ios

-- The first process that waits for this device and is not served yet is marked as served.
unfoldable pub serve_waiting : Text → List Blocked → Option Blocked × List Blocked
serve_waiting name [] = (none, [])
serve_waiting name (b ∷ bs) =
    let rest = serve_waiting name bs in
    if eq_text b.name name && not b.working
    then (some b, record b { working = true } ∷ bs)
    else (rest.0, b ∷ rest.1)

abbrev pub register_io : Text → Text → Text → Kernel → Kernel
register_io name ip port k = elim (get_io name ip port k.available_ios) [
  | some d ↦ k
  | none ↦ record k {
    available_ios =
        k.available_ios ++ (record { name = name; ip = ip; port = port; disp = true }) ∷ [];
  }
]

-- recieveIO, up to the point where it waits for a request: the process that it is given at once.
unfoldable pub recieve_io : Text → Text → Text → Kernel → Option Blocked × Kernel
unfolding get_io set_disp serve_waiting
recieve_io name ip port k =
    let k' = register_io name ip port k in
    let (served, mts) = serve_waiting name k'.mts_queue in
    elim served [
      | none ↦ (none, k')
      | some b ↦ (
        some b,
        record k' { available_ios = set_disp false name ip port k'.available_ios; mts_queue = mts },
      )
    ]

abbrev pub waits : Text → ℕ → Blocked → Bool
waits name pid b = eq_text b.name name && (b.process == pid)

-- `append(queue[:i], queue[i+1:]...)` in the slots behind a queue of `len` entries: the entries
-- behind `i` move down by one, and what stood in the last place stays there.
abbrev pub shift_down : ℕ → ℕ → List Blocked → List Blocked
shift_down i len slots =
    take i slots ++ (take (len - (i + 1)) (drop (i + 1) slots) ++ drop (len - 1) slots)

-- The loop of handleIOFinished, from index `i` on with `left` rounds to come: `range` goes over the
-- slots of the queue as it was, while each match takes an entry out of the queue, which has `len`
-- by then. `none` is the panic of a match behind its end. The last process that matched, and the
-- queue.
unfoldable pub finish_loop :
    Text → ℕ → ℕ → ℕ → ℕ → Option ℕ → List Blocked → Option (Option ℕ × List Blocked)
finish_loop name pid i zero len found slots = some (found, take len slots)
finish_loop name pid i (suc left) len found slots = elim (get_elem? slots i) [
  | none ↦ none
  | some b ↦
      (let removed =
          finish_loop name pid (i + 1) left (len - 1) (some b.process) (shift_down i len slots) in
        let kept = finish_loop name pid (i + 1) left len found slots in
        if waits name pid b then (if ltb i len then removed else none) else kept)
]

-- The first process that waits for this device with this pid, and the rest of the queue.
unfoldable pub take_blocked : Text → ℕ → List Blocked → Option ℕ × List Blocked
take_blocked name pid [] = (none, [])
take_blocked name pid (b ∷ bs) =
    let rest = take_blocked name pid bs in
    if waits name pid b then (some b.process, bs) else (rest.0, b ∷ rest.1)

-- Where a process goes whose IO is done.
abbrev pub unblock : ℕ → ℕ → State → Kernel → Kernel
unblock now p susp_blocked k = enqueue now susp_ready p (remove_by_pid susp_blocked p k).1
unblock now p blocked k = enqueue now ready p (remove_by_pid blocked p k).1
unblock now p _ k = k

-- handleIOFinished
unfoldable pub handle_io_finished : ℕ → Text → Text → Text → ℕ → M (Unit {0})
unfolding get_io set_disp finish_loop
handle_io_finished now name ip port pid = do
  k ← get
  _ ← or_fail (get_io name ip port k.available_ios) io_not_found
  modify (λ k. record k { available_ios = set_disp true name ip port k.available_ios })
  let n = length k.mts_queue
  r ← or_panic (finish_loop name pid 0 n n none k.mts_queue)
  modify (λ k. record k { mts_queue = r.1 })
  p ← or_fail r.0 process_not_found
  modify (λ k. unblock now p (state_of k p) k)

-- The first device of getIO leaves the list.
unfoldable pub drop_io : Text → Text → Text → List IoConnection → List IoConnection
drop_io name ip port [] = []
drop_io name ip port (d ∷ ios) = if is_io name ip port d then ios else d ∷ drop_io name ip port ios

-- The first process that waits for a device of this name.
unfoldable pub first_waiting : Text → List Blocked → Option ℕ
first_waiting name [] = none
first_waiting name (b ∷ bs) = if eq_text b.name name then some b.process else first_waiting name bs

-- The first entry of a process that waits for a device of this name leaves MTSQueue.
unfoldable pub drop_waiting : Text → List Blocked → List Blocked
drop_waiting name [] = []
drop_waiting name (b ∷ bs) = if eq_text b.name name then bs else b ∷ drop_waiting name bs

abbrev pub end_found : ℕ → Option ℕ → Kernel → Kernel
end_found now none k = k
end_found now (some p) k = finish now p (remove_blocked_by_pid p k)

-- The loop over MTSQueue in handleIODisconnected: the process that the device was serving ends.
abbrev pub end_served : ℕ → Text → ℕ → Kernel → Kernel
end_served now name pid k = end_found now (take_blocked name pid k.mts_queue).0 k

abbrev pub end_first : ℕ → Text → Option ℕ → Kernel → Kernel
end_first now name none k = k
end_first now name (some p) k =
    finish now p (record k { mts_queue = drop_waiting name k.mts_queue })

-- The first two loops of the goroutine: the first index whose process waits for the device is the
-- only one that is collected, and that process ends.
unfoldable pub end_waiting : ℕ → Text → Kernel → Kernel
unfolding first_waiting
end_waiting now name k = end_first now name (first_waiting name k.mts_queue) k

-- `append(queue[:i], queue[i+1:]...)`
unfoldable pub drop_at : ℕ → List ℕ → List ℕ
drop_at i [] = []
drop_at zero (p ∷ ps) = ps
drop_at (suc i) (p ∷ ps) = p ∷ drop_at i ps

-- The goroutine's loop over SuspReadyQueue, from `index` on, with `left` rounds to come: `range`
-- counts the queue once, before the rounds that make it shorter.
unfoldable pub end_suspended : ℕ → ℕ → ℕ → M (Unit {0})
end_suspended now index zero = pure tt
end_suspended now index (suc left) = do
  k ← get
  p ← or_panic (get_elem? (k.queue susp_ready) index)
  modify (λ k. finish now p (with_queue susp_ready (drop_at index) k))
  end_suspended now (index + 1) left

-- The goroutine of handleIODisconnected, run to its end.
unfoldable pub end_orphans : ℕ → Text → M (Unit {0})
end_orphans now name = do
  modify (end_waiting now name)
  k ← get
  end_suspended now 0 (length (k.queue susp_ready))

-- handleIODisconnected
unfoldable pub handle_io_disconnected : ℕ → Text → Text → Text → ℕ → M (Unit {0})
unfolding get_io drop_io
handle_io_disconnected now name ip port pid = do
  k ← get
  _ ← or_fail (get_io name ip port k.available_ios) io_not_found
  modify (end_served now name pid)
  modify (λ k. record k { available_ios = drop_io name ip port k.available_ios })
  k ← get
  if has_io name k.available_ios then pure tt else end_orphans now name
