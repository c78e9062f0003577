-- ===== src/Memoria/Allocation.antt =====
-- allocateMemory on sound variables.
use tp_sisop_go_utn.Base.{
  ceil_div-le, ceil_div_pos, ceil_div, ℕ, ◌+◌, ◌-◌, ◌*◌, ◌/◌, ◌≤◌, ◌<◌, ◌≡◌, ap, Bool, List, [],
  ◌++◌, arith, length,
}
use tp_sisop_go_utn.Base.Outcome.{done}
use tp_sisop_go_utn.Memoria.State.{Storage}
use tp_sisop_go_utn.Memoria.Frames.{count_true, reserve, reserved}
use tp_sisop_go_utn.Memoria.Scan.{reserve-Found}
use tp_sisop_go_utn.Memoria.Ownership.{Takes-Owns, count_true-le-length}
use tp_sisop_go_utn.Memoria.Malloc.{allocate_memory}
use tp_sisop_go_utn.Memoria.Invariant.{IsSound}
use mathlib.Core.List.{append_assoc}

-- The frames that are not reserved hold what is left, if the memory is a whole number of pages.
ceil_div-le-free :
    (size ps used n remaining memory : ℕ)
    → 0 < ps
    → used ≤ n
    → memory ≡ n * ps
    → remaining + used * ps ≡ memory
    → size ≤ remaining
    → ceil_div size ps + used ≤ n
ceil_div-le-free size ps used n remaining memory h le e acc fits =
    let split : n ≡ (n - used) + used = omega arith in
    let free : size ≤ (n - used) * ps = omega (arith, ap (λ (t : ℕ). t * ps) split) in
    omega (arith, ceil_div-le size ps (n - used) h free)

mul-le_mul : (a b ps : ℕ) → a ≤ b → a * ps ≤ b * ps
mul-le_mul a b ps h = grind arith

-- The variables after an allocation.
abbrev pub taken : Storage → ℕ → List Bool → Storage
taken s size bits = record s {
  remaining = s.remaining - s.page_size * ceil_div size s.page_size;
  reservation_bits = bits;
}

-- A successful allocation of `new`.
pub record Allocated (held : List ℕ) (resident : ℕ → Bool) (s : Storage) (size : ℕ) : Type 0 where
  pub new : List ℕ
  pub bits : List Bool
  pub result : allocate_memory size s ≡ done new (taken s size bits)
  pub exact : length new ≡ ceil_div size s.page_size
  pub sound : IsSound (new ++ held) resident (taken s size bits)

-- The memory is a whole number of pages.
abbrev pub WholePages : Storage → Type 0
WholePages s = s.memory_size ≡ s.memory_size / s.page_size * s.page_size

module _ (held : List ℕ) (resident : ℕ → Bool) (s : Storage) (size : ℕ)
    (v : IsSound held resident s) where
  room :
      WholePages s
      → size ≤ s.remaining
      → ceil_div size s.page_size + count_true s.reservation_bits ≤ length s.reservation_bits
  room whole fits =
      ceil_div-le-free size s.page_size (count_true s.reservation_bits) (length s.reservation_bits)
        s.remaining s.memory_size v.page_pos (count_true-le-length s.reservation_bits)
        (rw v.frames_fit whole) v.accounted fits

  bytes_fit :
      WholePages s → size ≤ s.remaining → s.page_size * ceil_div size s.page_size ≤ s.remaining
  bytes_fit whole fits = omega (
    arith,
    mul-le_mul (ceil_div size s.page_size + count_true s.reservation_bits)
        (length s.reservation_bits) s.page_size (room whole fits),
    ap (λ (t : ℕ). t * s.page_size) v.frames_fit,
    whole,
    v.accounted,
  )

  -- allocateMemory of a size above 0 that is at most what is left, with sound variables and a
  -- memory of whole pages, returns ceil(size / page size) frames, takes exactly that many pages
  -- off the remaining memory, and leaves each frame with one owner, the new ones included.
  pub allocate_memory-Allocated :
      WholePages s → 0 < size → size ≤ s.remaining → Allocated held resident s size
  unfolding allocate_memory
  allocate_memory-Allocated whole size_pos fits =
      let ps = s.page_size in
      let required = ceil_div size ps in
      let enough = room whole fits in
      let f =
        reserve-Found ps required 0 [] s.reservation_bits v.page_pos
          (ceil_div_pos size ps v.page_pos size_pos) (omega arith) in
      let bytes : ps * required ≤ s.remaining = bytes_fit whole fits in
      let scan : reserve required [] s.frame_bases s.reservation_bits ≡ reserved f.new f.left =
        rw v.numbered f.result in
      record {
        new = f.new;
        bits = f.left;
        result = ground (arith, scan);
        exact = omega (arith, f.exact);
        sound = record {
          page_pos = v.page_pos;
          numbered = rw f.takes.same_length v.numbered;
          memory_length = v.memory_length;
          frames_fit = omega (arith, v.frames_fit, f.takes.same_length);
          accounted = omega (
            arith,
            f.takes.counted,
            v.accounted,
            ap (λ (t : ℕ). t * ps) f.takes.counted,
            ap (λ (t : ℕ). t * ps) f.exact,
          );
          owned = rw append_assoc (Takes-Owns ps s.reservation_bits f.left f.new _ f.takes v.owned);
          distinct = v.distinct;
        };
      }
