-- ===== src/Memoria/Ownership.antt =====
-- The owners of frames that are taken and given back.
use tp_sisop_go_utn.Memoria.Frames.{
  InRange-append_left, InRange-append_right, owners, InRange, Owns, count_true, bit_value,
  owners-append, InRange-append, clear_bits, count_true-set, get_or-set,
}
use tp_sisop_go_utn.Base.{
  some, ℕ, ◌+◌, ◌/◌, ◌≤◌, ◌<◌, ◌≡◌, refl, sym, ◌∙◌, Bool, true, false, List, [], ◌∷◌, ◌++◌, arith,
  length, get_or, set, length-set,
}
use tp_sisop_go_utn.Memoria.Scan.{Takes}

-- The frames that a scan takes had no owner before.
pub Takes-Owns :
    (ps : ℕ) (bits left : List Bool) (new frames : List ℕ)
    → Takes ps 0 bits new left
    → Owns ps bits frames
    → Owns ps left (new ++ frames)
Takes-Owns ps bits left new frames t o = record {
  in_range =
      InRange-append ps (length left) new frames
        (let e : 0 + length bits ≡ length left = omega (arith, t.same_length) in rw e at t.valid)
        (rw t.same_length o.in_range);
  owned_once = λ i h. once i (omega (arith, t.same_length));
}
  where
    once : (i : ℕ) → i < length bits → owners ps i (new ++ frames) ≡ bit_value (get_or left i false)
    once i h =
        let e : 0 + i ≡ i = omega arith in
        let taken : owners ps i new + bit_value (get_or bits i false)
            ≡ bit_value (get_or left i false) =
          rw e at (t.taken i h) in
        omega (arith, owners-append ps i new frames, o.owned_once i h)

-- The bit of an owned frame is set.
bit_of_owned :
    (ps b : ℕ) (bits : List Bool) (frames : List ℕ)
    → Owns ps bits (b ∷ frames)
    → get_or bits (b / ps) false ≡ true
bit_of_owned ps b bits frames o = ground (arith, o.owned_once (b / ps) o.in_range.1)

clear-Owns :
    (ps b : ℕ) (bits : List Bool) (frames : List ℕ)
    → Owns ps bits (b ∷ frames)
    → Owns ps (set bits (b / ps) false) frames
clear-Owns ps b bits frames o = record {
  in_range = rw (length-set bits (b / ps) false) o.in_range.2;
  owned_once = λ i h. once i (rw (length-set bits (b / ps) false) at h);
}
  where
    once :
        (i : ℕ)
        → i < length bits
        → owners ps i frames ≡ bit_value (get_or (set bits (b / ps) false) i false)
    once i h = ground (arith, get_or-set bits (b / ps) i h, o.owned_once i h)

-- What clearing the bits of owned frames leaves.
pub record Cleared (ps : ℕ) (bits : List Bool) (bs frames : List ℕ) : Type 0 where
  pub left : List Bool
  pub result : clear_bits ps bs bits ≡ some left
  pub owns : Owns ps left frames
  pub counted : count_true left + length bs ≡ count_true bits
  pub same_length : length left ≡ length bits

pub clear_bits-Cleared :
    (ps : ℕ) (bs : List ℕ) (bits : List Bool) (frames : List ℕ)
    → 0 < ps
    → Owns ps bits (bs ++ frames)
    → Cleared ps bits bs frames
unfolding clear_bits
clear_bits-Cleared ps [] bits frames ps_pos o = record {
  left = bits;
  result = refl;
  owns = o;
  counted = omega arith;
  same_length = refl;
}
clear_bits-Cleared ps (b ∷ bs) bits frames ps_pos o =
    let c =
      clear_bits-Cleared ps bs (set bits (b / ps) false) frames ps_pos
        (clear-Owns ps b bits (bs ++ frames) o) in
    record {
      left = c.left;
      result = ground (arith, c.result, o.in_range.1);
      owns = c.owns;
      counted = omega (
        arith,
        c.counted,
        count_true-set bits (b / ps) (bit_of_owned ps b bits (bs ++ frames) o),
      );
      same_length = omega (arith, c.same_length, length-set bits (b / ps) false);
    }

-- Whose frames they are counts, not their order.
pub Owns-same :
    (ps : ℕ) (bits : List Bool) (xs ys : List ℕ)
    → ((i : ℕ) → owners ps i xs ≡ owners ps i ys)
    → InRange ps (length bits) ys
    → Owns ps bits xs
    → Owns ps bits ys
Owns-same ps bits xs ys same valid o = record {
  in_range = valid;
  owned_once = λ i h. sym (same i) ∙ o.owned_once i h;
}

pub count_true-le-length : (bits : List Bool) → count_true bits ≤ length bits
count_true-le-length [] = omega arith
count_true-le-length (true ∷ bits) = omega (arith, count_true-le-length bits)
count_true-le-length (false ∷ bits) = omega (arith, count_true-le-length bits)

-- Two runs of frames change places.
pub Owns-append_comm :
    (ps : ℕ) (bits : List Bool) (xs ys : List ℕ) → Owns ps bits (xs ++ ys) → Owns ps bits (ys ++ xs)
Owns-append_comm ps bits xs ys o =
    Owns-same ps bits (xs ++ ys) (ys ++ xs)
      (λ i. omega (arith, owners-append ps i xs ys, owners-append ps i ys xs))
      (InRange-append ps (length bits) ys xs
        (InRange-append_right ps (length bits) xs ys o.in_range)
        (InRange-append_left ps (length bits) xs ys o.in_range))
      o
