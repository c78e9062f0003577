-- ===== src/Memoria/Invariant.antt =====
-- When the variables of the memory program fit together. A process is resident from its creation
-- until it is suspended, and again when it is brought back. The program keeps no such flag: the
-- invariant is told by a function which processes are resident.
use mathlib.Core.List.{append_assoc}
use tp_sisop_go_utn.Base.{
  sym, ℕ, ◌+◌, ◌*◌, ◌/◌, ◌<◌, ◌≡◌, ◌≢◌, refl, Bool, List, [], ◌∷◌, ◌++◌, none, some, arith,
  if◌then◌else◌, length,
}
use tp_sisop_go_utn.Memoria.State.{ProcessData, Storage, find_process, update_process}
use tp_sisop_go_utn.Memoria.Frames.{Owns, count_true, bases_from}

-- The frames of the resident processes.
abbrev pub owned_frames : (ℕ → Bool) → List ProcessData → List ℕ
owned_frames resident [] = []
owned_frames resident (p ∷ ps) =
    (if resident p.pid then p.page_bases else []) ++ owned_frames resident ps

-- No entry has this pid.
abbrev pub Absent : ℕ → List ProcessData → Type 0
Absent pid [] = Unit {0}
Absent pid (p ∷ ps) = (p.pid ≢ pid) × Absent pid ps

abbrev pub DistinctPids : List ProcessData → Type 0
DistinctPids [] = Unit {0}
DistinctPids (p ∷ ps) = Absent p.pid ps × DistinctPids ps

-- `held` are the frames that an operation under way has taken for no process yet.
pub record IsSound (held : List ℕ) (resident : ℕ → Bool) (s : Storage) : Type 0 where
  pub page_pos : 0 < s.page_size
  pub numbered : s.frame_bases ≡ bases_from s.page_size 0 (length s.reservation_bits)
  pub memory_length : length s.user_memory ≡ s.memory_size
  pub frames_fit : length s.reservation_bits ≡ s.memory_size / s.page_size
  pub accounted : s.remaining + count_true s.reservation_bits * s.page_size ≡ s.memory_size
  pub owned : Owns s.page_size s.reservation_bits (held ++ owned_frames resident s.system_memory)
  pub distinct : DistinctPids s.system_memory

-- A function that sees only the pids of entries.
pub find_process-Absent :
    (pid : ℕ) (ps : List ProcessData) → Absent pid ps → find_process pid ps ≡ none
unfolding find_process
find_process-Absent pid [] h = refl
find_process-Absent pid (p ∷ ps) h = ground (arith, find_process-Absent pid ps h.1)

pub find_process-pid :
    (pid : ℕ) (ps : List ProcessData) (p : ProcessData) → find_process pid ps ≡ some p → p.pid ≡ pid
unfolding find_process
find_process-pid pid [] p h = ground arith
find_process-pid pid (q ∷ ps) p h = ground (arith, find_process-pid pid ps p)

pub Absent-update :
    (i pid : ℕ) (f : ProcessData → ProcessData) (ps : List ProcessData)
    → ((p : ProcessData) → (f p).pid ≡ p.pid)
    → Absent i ps
    → Absent i (update_process pid f ps)
unfolding update_process
Absent-update i pid f [] same h = tt
Absent-update i pid f (p ∷ ps) same h = ground (arith, same p, Absent-update i pid f ps same h.1)

pub DistinctPids-update :
    (pid : ℕ) (f : ProcessData → ProcessData) (ps : List ProcessData)
    → ((p : ProcessData) → (f p).pid ≡ p.pid)
    → DistinctPids ps
    → DistinctPids (update_process pid f ps)
unfolding update_process
DistinctPids-update pid f [] same h = tt
DistinctPids-update pid f (p ∷ ps) same h =
    ground
      (arith, same p, Absent-update p.pid pid f ps same h.0, DistinctPids-update pid f ps same h.1)

-- A change that leaves the pid and the frames alone does not change who owns what.
pub owned_frames-update :
    (resident : ℕ → Bool) (pid : ℕ) (f : ProcessData → ProcessData) (ps : List ProcessData)
    → ((p : ProcessData) → (f p).pid ≡ p.pid)
    → ((p : ProcessData) → (f p).page_bases ≡ p.page_bases)
    → owned_frames resident (update_process pid f ps) ≡ owned_frames resident ps
unfolding update_process
owned_frames-update resident pid f [] same_pid same_bases = refl
owned_frames-update resident pid f (p ∷ ps) same_pid same_bases =
    ground
      (arith, same_pid p, same_bases p, owned_frames-update resident pid f ps same_pid same_bases)

pub owned_frames-append :
    (resident : ℕ → Bool) (ps qs : List ProcessData)
    → owned_frames resident (ps ++ qs) ≡ owned_frames resident ps ++ owned_frames resident qs
owned_frames-append resident [] qs = refl
owned_frames-append resident (p ∷ ps) qs = rw (owned_frames-append resident ps qs) (
    sym (
      append_assoc (if resident p.pid then p.page_bases else []) (owned_frames resident ps)
        (owned_frames resident qs)))

pub Absent-append :
    (i : ℕ) (ps qs : List ProcessData) → Absent i ps → Absent i qs → Absent i (ps ++ qs)
Absent-append i [] qs h k = k
Absent-append i (p ∷ ps) qs h k = (h.0, Absent-append i ps qs h.1 k)

-- A new entry with a pid of its own.
pub DistinctPids-snoc :
    (ps : List ProcessData) (p : ProcessData)
    → DistinctPids ps
    → Absent p.pid ps
    → DistinctPids (ps ++ p ∷ [])
DistinctPids-snoc [] p d a = (tt, tt)
DistinctPids-snoc (q ∷ ps) p d a =
    (Absent-append q.pid ps (p ∷ []) d.0 (λ e. a.0 (sym e), tt), DistinctPids-snoc ps p d.1 a.1)
