-- ===== src/Kernel/Preservation.antt =====
-- The steps that handlers and schedulers share, and the places of processes.
use tp_sisop_go_utn.Kernel.Moves.{remove_by_pid-Taken, if_found-IsPlaced, with_process-IsPlaced}
use tp_sisop_go_utn.Base.{
  if◌then◌else◌, pos, [], ◌-◌, arith, ◌≡◌, length, true, false, ℤ, inl, ℕ, none, ◌<◌, some, ◌==◌,
  Option, inr, refl, subst, Bool, Bool-cases,
}
use tp_sisop_go_utn.Kernel.Api.{
  create_blocked, take_io, has_io, block, finish, wait_for, after_dump, syscall_dump_memory,
  syscall_io,
}
use tp_sisop_go_utn.Kernel.Placement.{remove_by_pid-IsPlaced, enqueue-IsPlaced, IsPlaced}
use tp_sisop_go_utn.Kernel.Queues.{enqueue, remove_by_pid}
use tp_sisop_go_utn.Kernel.Shared.{
  with_new, new_estimate, remove_blocked_by_pid, KernelConfig, create_process, free_cpu,
  terminate_process, try_inititialize_process, update_burst_estimation,
}
use tp_sisop_go_utn.Kernel.State.{state_of, Blocked, Kernel}
use tp_sisop_go_utn.Base.Outcome.{state_after}
use tp_sisop_go_utn.Utils.Strings.{Text}
use tp_sisop_go_utn.Kernel.Pcb.{State, exit, new, ready, blocked}

-- The places depend on the queues, the states and the number of processes alone.
pub free_cpu-IsPlaced :
    (moved : Option ℕ) (x : ℕ) (k : Kernel) → IsPlaced moved k → IsPlaced moved (free_cpu x k)
unfolding free_cpu
free_cpu-IsPlaced none x k h = record { place = h.place }
free_cpu-IsPlaced (some y) x k h = record { place = h.place }

pub update_burst-IsPlaced :
    (c : KernelConfig) (now x : ℕ) (moved : Option ℕ) (k : Kernel)
    → IsPlaced moved k
    → IsPlaced moved (update_burst_estimation c now x k)
unfolding update_burst_estimation
update_burst-IsPlaced c now x moved k h =
    with_process-IsPlaced moved x
      (λ q. record q {
        last_real_burst = now - q.start_time;
        estimated_burst = new_estimate c (now - q.start_time) q.estimated_burst;
      })
      k (λ p. refl) h

pub terminate-IsPlaced : (k : Kernel) → IsPlaced none k → IsPlaced none (terminate_process k)
unfolding terminate_process
terminate-IsPlaced k h = elim (Bool-cases (length (k.queue exit) == k.total_processes_created)) [
  | inl e ↦ rw (e, terminate_process) (record { place = h.place })
  | inr e ↦ rw (e, terminate_process) h
]

pub remove_blocked-IsPlaced :
    (moved : Option ℕ) (x : ℕ) (k : Kernel)
    → IsPlaced moved k
    → IsPlaced moved (remove_blocked_by_pid x k)
remove_blocked-IsPlaced none x k h = record { place = h.place }
remove_blocked-IsPlaced (some y) x k h = record { place = h.place }

pub next_pid-remove :
    (s : State) (x : ℕ) (k : Kernel) → (remove_by_pid s x k).1.next_pid ≡ k.next_pid
unfolding remove_by_pid
next_pid-remove s x k = refl

-- CreateProcess of the kernel keeps every process, the new one included, once in the queue of its
-- state and in no other.
pub create_process-IsPlaced :
    (c : KernelConfig) (now : ℕ) (path : Text) (size : ℤ) (k : Kernel)
    → IsPlaced none k
    → IsPlaced none (create_process c now path size k)
unfolding create_process
create_process-IsPlaced c now path size k h =
    enqueue-IsPlaced now new k.next_pid (with_new c now path size k) (omega arith)
      (record { place = λ p s. ground (arith, h.place p s) })

-- TryInititializeProcess of a process in NEW keeps every process once in the queue of its state
-- and in no other, whether or not the memory accepts it.
pub try_inititialize-IsPlaced :
    (accepted : Bool) (now x : ℕ) (k : Kernel)
    → x < k.next_pid
    → state_of k x ≡ new
    → IsPlaced none k
    → IsPlaced none (try_inititialize_process accepted now x k).1
unfolding try_inititialize_process remove_by_pid
try_inititialize-IsPlaced true now x k lt at_new h = enqueue-IsPlaced now ready x _ lt (
    subst (λ s. IsPlaced (some x) (remove_by_pid s x k).1) at_new (remove_by_pid-IsPlaced x k lt h))
try_inititialize-IsPlaced false now x k lt at_new h = h

-- A process ends where it is.
pub finish-IsPlaced :
    (now x : ℕ) (k : Kernel) → x < k.next_pid → IsPlaced none k → IsPlaced none (finish now x k)
finish-IsPlaced now x k lt h =
    let k' = (remove_by_pid (state_of k x) x k).1 in
    terminate-IsPlaced (enqueue now exit x k') (
      enqueue-IsPlaced now exit x k' (rw (next_pid-remove (state_of k x) x k) lt)
        (remove_by_pid-IsPlaced x k lt h))

-- A process blocks.
pub block-IsPlaced :
    (c : KernelConfig) (now x : ℕ) (k : Kernel)
    → x < k.next_pid
    → IsPlaced none k
    → IsPlaced none (block c now x k)
unfolding free_cpu update_burst_estimation
block-IsPlaced c now x k lt h =
    let k' = (remove_by_pid (state_of k x) x k).1 in
    let k'' = update_burst_estimation c now x (free_cpu x k') in
    enqueue-IsPlaced now blocked x k'' (rw (next_pid-remove (state_of k x) x k) lt) (
      update_burst-IsPlaced c now x (some x) (free_cpu x k')
        (free_cpu-IsPlaced (some x) x k' (remove_by_pid-IsPlaced x k lt h)))

wait_for-IsPlaced : (b : Blocked) (k : Kernel) → IsPlaced none k → IsPlaced none (wait_for b k)
wait_for-IsPlaced b k h = record { place = λ p s. ground (arith, h.place p s) }

-- The syscall IO: the process blocks, or ends if no device has the name.
pub syscall_io-IsPlaced :
    (c : KernelConfig) (now x : ℕ) (device : Text) (time : ℤ) (k : Kernel)
    → x < k.next_pid
    → IsPlaced none k
    → IsPlaced none (state_after k (syscall_io c now x device time k))
unfolding syscall_io
syscall_io-IsPlaced c now x device time k lt h = elim (Bool-cases (has_io device k.available_ios)) [
  | inl e ↦
      rw (e, syscall_io)
        (wait_for-IsPlaced _ _ (
          block-IsPlaced c now x (record k { available_ios = (take_io device k.available_ios).0 })
            lt (record { place = h.place })))
  | inr e ↦ rw (e, syscall_io) (finish-IsPlaced now x k lt h)
]

-- The syscall DUMP_MEMORY and the goroutine behind it.
pub syscall_dump-IsPlaced :
    (c : KernelConfig) (now x : ℕ) (k : Kernel)
    → x < k.next_pid
    → IsPlaced none k
    → IsPlaced none (state_after k (syscall_dump_memory c now x k))
unfolding syscall_dump_memory
syscall_dump-IsPlaced c now x k lt h =
    wait_for-IsPlaced (create_blocked x [] (pos 0) true) (block c now x k)
      (block-IsPlaced c now x k lt h)

-- The end of DUMP_MEMORY, successful or not, for a process that was created, keeps every process
-- once in the queue of its state and in no other.
pub after_dump-IsPlaced :
    (success : Bool) (now x : ℕ) (k : Kernel)
    → x < k.next_pid
    → IsPlaced none k
    → IsPlaced none (after_dump success now x k)
unfolding after_dump
after_dump-IsPlaced success now x k lt h =
    if_found-IsPlaced (state_of k x) k (remove_by_pid (state_of k x) x k) _
      (remove_by_pid-Taken (state_of k x) x k h) (λ y e l a p. after success)
  where
    k' : Kernel
    k' = (remove_by_pid (state_of k x) x k).1

    taken : IsPlaced (some x) k'
    taken = remove_by_pid-IsPlaced x k lt h

    inside : x < k'.next_pid
    inside = rw (next_pid-remove (state_of k x) x k) lt

    after :
        (ok : Bool)
        → IsPlaced none (
            if ok
            then enqueue now ready x (remove_blocked_by_pid x k')
            else terminate_process (enqueue now exit x k'))
    after true =
        enqueue-IsPlaced now ready x (remove_blocked_by_pid x k') inside
          (remove_blocked-IsPlaced (some x) x k' taken)
    after false =
        terminate-IsPlaced (enqueue now exit x k') (enqueue-IsPlaced now exit x k' inside taken)
