-- ===== src/Memoria/Frames.antt =====
-- The frames of the user memory: the reservation bits, the scan of allocateMemory and the clearing
-- loop of deallocateMemory, against the frames that processes own.
-- A frame is named by its base, and has the index `base / page_size`.
use tp_sisop_go_utn.Base.{
  ◌≤◌, ◌&&◌, Option, none, some, ltb, ℕ, zero, suc, ◌+◌, ◌*◌, ◌/◌, ◌<◌, ◌≡◌, refl, Bool, true,
  false, List, [], ◌∷◌, ◌++◌, arith, leb, ◌==◌, if◌then◌else◌, length, get_or, set,
}

-- The pages of a run over the frames: all that were wanted, too few, or an index out of range.
pub data Reserved : Type 0 where
  reserved : List ℕ → List Bool → Reserved
  exhausted : List Bool → Reserved
  out_of_range : Reserved

-- What an earlier frame's bit is, in front of the rest of the scan.
abbrev after_bit : Bool → Reserved → Reserved
after_bit bit (reserved got bits) = reserved got (bit ∷ bits)
after_bit bit (exhausted bits) = exhausted (bit ∷ bits)
after_bit bit out_of_range = out_of_range

-- The loop over `pageBases` in allocateMemory, with `got` the part of processPageBases that is
-- filled. It stops behind the frame at which `required` are filled; the write at `got` of a slice
-- of `required` entries panics when that is full.
unfoldable pub reserve : ℕ → List ℕ → List ℕ → List Bool → Reserved
reserve required got [] bits = exhausted bits
reserve required got (b ∷ bs) [] = out_of_range
reserve required got (b ∷ bs) (true ∷ bits) =
    let rest = reserve required got bs bits in
    if length got == required then reserved got (true ∷ bits) else after_bit true rest
reserve required got (b ∷ bs) (false ∷ bits) =
    let rest = reserve required (got ++ b ∷ []) bs bits in
    if leb required (length got)
    then out_of_range
    else if length got + 1 == required
    then reserved (got ++ b ∷ []) (true ∷ bits)
    else after_bit true rest

-- The loop of deallocateMemory. `none` is a panic: an index out of range, or a division by zero.
unfoldable pub clear_bits : ℕ → List ℕ → List Bool → Option (List Bool)
clear_bits page_size [] bits = some bits
clear_bits page_size (b ∷ bs) bits =
    let rest = clear_bits page_size bs (set bits (b / page_size) false) in
    if ltb 0 page_size && ltb (b / page_size) (length bits) then rest else none

abbrev pub bit_value : Bool → ℕ
bit_value true = 1
bit_value false = 0

pub bit_value_le : (b : Bool) → bit_value b ≤ 1
bit_value_le true = omega arith
bit_value_le false = omega arith

-- The number of reserved frames.
abbrev pub count_true : List Bool → ℕ
count_true [] = 0
count_true (b ∷ bs) = bit_value b + count_true bs

-- The bases k * ps, (k + 1) * ps, … of n frames.
unfoldable pub bases_from : ℕ → ℕ → ℕ → List ℕ
bases_from ps k zero = []
bases_from ps k (suc n) = (k * ps) ∷ bases_from ps (k + 1) n

-- How often frame `i` is among these.
abbrev pub owners : ℕ → ℕ → List ℕ → ℕ
owners ps i [] = 0
owners ps i (b ∷ bs) = (if b / ps == i then 1 else 0) + owners ps i bs

-- Every base is that of a frame below `n`.
abbrev pub InRange : ℕ → ℕ → List ℕ → Type 0
InRange ps n [] = Unit {0}
InRange ps n (b ∷ bs) = (b / ps * ps ≡ b) × (b / ps < n) × InRange ps n bs

-- Each frame has one owner if its bit is set, and none if not.
pub record Owns (ps : ℕ) (bits : List Bool) (frames : List ℕ) : Type 0 where
  pub in_range : InRange ps (length bits) frames
  pub owned_once : (i : ℕ) → i < length bits → owners ps i frames ≡ bit_value (get_or bits i false)

pub owners-append :
    (ps i : ℕ) (xs ys : List ℕ) → owners ps i (xs ++ ys) ≡ owners ps i xs + owners ps i ys
owners-append ps i [] ys = omega arith
owners-append ps i (x ∷ xs) ys = omega (arith, owners-append ps i xs ys)

pub InRange-append :
    (ps n : ℕ) (xs ys : List ℕ) → InRange ps n xs → InRange ps n ys → InRange ps n (xs ++ ys)
InRange-append ps n [] ys hx hy = hy
InRange-append ps n (x ∷ xs) ys hx hy = (hx.0, hx.1, InRange-append ps n xs ys hx.2 hy)

pub InRange-append_left : (ps n : ℕ) (xs ys : List ℕ) → InRange ps n (xs ++ ys) → InRange ps n xs
InRange-append_left ps n [] ys h = tt
InRange-append_left ps n (x ∷ xs) ys h = (h.0, h.1, InRange-append_left ps n xs ys h.2)

pub InRange-append_right : (ps n : ℕ) (xs ys : List ℕ) → InRange ps n (xs ++ ys) → InRange ps n ys
InRange-append_right ps n [] ys h = h
InRange-append_right ps n (x ∷ xs) ys h = InRange-append_right ps n xs ys h.2

pub count_true-set :
    (bits : List Bool) (i : ℕ)
    → get_or bits i false ≡ true
    → count_true (set bits i false) + 1 ≡ count_true bits
count_true-set [] i h = ground arith
count_true-set (b ∷ bs) zero h = ground arith
count_true-set (b ∷ bs) (suc i) h = omega (arith, count_true-set bs i h)

pub get_or-set :
    (bits : List Bool) (i j : ℕ)
    → j < length bits
    → get_or (set bits i false) j false ≡ (if i == j then false else get_or bits j false)
get_or-set [] i j h = ground arith
get_or-set (b ∷ bs) zero zero h = refl
get_or-set (b ∷ bs) zero (suc j) h = ground arith
get_or-set (b ∷ bs) (suc i) zero h = ground arith
get_or-set (b ∷ bs) (suc i) (suc j) h = ground (arith, get_or-set bs i j)
