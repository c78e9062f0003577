-- ===== src/Memoria/Scan.antt =====
-- What the scan of allocateMemory takes, as its loop invariant.
use tp_sisop_go_utn.Base.{
  ℕ, zero, suc, ◌+◌, ◌*◌, ◌/◌, ◌≤◌, ◌<◌, ◌≡◌, refl, ap, Bool, true, false, List, [], ◌∷◌, ◌++◌,
  arith, length, length-append, get_or,
}
use tp_sisop_go_utn.Memoria.Frames.{
  reserved, reserve, bases_from, owners, InRange, count_true, bit_value,
}
use mathlib.Core.List.{append_assoc}
use native.Mathlib.Decide.{ℕ_discrete}

-- From frame `k` on, whose bits are `bits`, the frames `new` were taken and the bits are now `left`.
pub record Takes (ps k : ℕ) (bits : List Bool) (new : List ℕ) (left : List Bool) : Type 0 where
  pub same_length : length left ≡ length bits
  pub counted : count_true left ≡ count_true bits + length new
  pub valid : InRange ps (k + length bits) new
  pub below : (i : ℕ) → i < k → owners ps i new ≡ 0
  pub taken :
      (j : ℕ)
      → j < length bits
      → owners ps (k + j) new + bit_value (get_or bits j false) ≡ bit_value (get_or left j false)

mul-div : (k ps : ℕ) → 0 < ps → k * ps / ps ≡ k
mul-div k ps h = grind arith

InRange-mono : (ps m n : ℕ) (xs : List ℕ) → m ≤ n → InRange ps m xs → InRange ps n xs
InRange-mono ps m n [] h v = tt
InRange-mono ps m n (x ∷ xs) h v = (v.0, omega arith, InRange-mono ps m n xs h v.2)

module _ (ps k : ℕ) (bits : List Bool) (new : List ℕ) (left : List Bool)
    (t : Takes ps (k + 1) bits new left) where
  taken-true :
      (j : ℕ)
      → j < suc (length bits)
      → owners ps (k + j) new + bit_value (get_or (true ∷ bits) j false)
        ≡ bit_value (get_or (true ∷ left) j false)
  taken-true zero h = omega (arith, t.below (k + 0) (omega arith))
  taken-true (suc j) h =
      let e : k + 1 + j ≡ k + suc j = omega arith in rw e at (t.taken j (omega arith))

  -- A reserved frame is passed over.
  Takes-true : Takes ps k (true ∷ bits) new (true ∷ left)
  Takes-true = record {
    same_length = omega (arith, t.same_length);
    counted = omega (arith, t.counted);
    valid = InRange-mono ps (k + 1 + length bits) (k + suc (length bits)) new (omega arith) t.valid;
    below = λ i lt. t.below i (omega arith);
    taken = taken-true;
  }

  module _ (ps_pos : 0 < ps) where
    taken-false :
        (j : ℕ)
        → j < suc (length bits)
        → owners ps (k + j) ((k * ps) ∷ new) + bit_value (get_or (false ∷ bits) j false)
          ≡ bit_value (get_or (true ∷ left) j false)
    taken-false zero h = ground (arith, mul-div k ps ps_pos, t.below (k + 0))
    taken-false (suc j) h =
        let e : k + 1 + j ≡ k + suc j = omega arith in
        let ih : owners ps (k + suc j) new + bit_value (get_or bits j false)
            ≡ bit_value (get_or left j false) =
          rw e at (t.taken j (omega arith)) in
        ground (arith, mul-div k ps ps_pos)

    below-false : (i : ℕ) → i < k → owners ps i ((k * ps) ∷ new) ≡ 0
    below-false i lt = ground (arith, mul-div k ps ps_pos, t.below i (omega arith))

    -- A free one is taken.
    Takes-false : Takes ps k (false ∷ bits) ((k * ps) ∷ new) (true ∷ left)
    Takes-false = record {
      same_length = omega (arith, t.same_length);
      counted = omega (arith, t.counted);
      valid = (
        ap (λ q. q * ps) (mul-div k ps ps_pos),
        omega (arith, mul-div k ps ps_pos),
        InRange-mono ps (k + 1 + length bits) (k + suc (length bits)) new (omega arith) t.valid,
      );
      below = below-false;
      taken = taken-false;
    }

-- Nothing is taken of frames that are not looked at.
Takes-refl : (ps k : ℕ) (bits : List Bool) → Takes ps k bits [] bits
Takes-refl ps k bits = record {
  same_length = refl;
  counted = omega arith;
  valid = tt;
  below = λ i lt. refl;
  taken = λ j lt. omega arith;
}

-- The scan of the frames from `k` on finds what it looks for, if it is there.
pub record Found (ps k required : ℕ) (got : List ℕ) (bits : List Bool) : Type 0 where
  pub new : List ℕ
  pub left : List Bool
  pub result :
      reserve required got (bases_from ps k (length bits)) bits ≡ reserved (got ++ new) left
  pub exact : length got + length new ≡ required
  pub takes : Takes ps k bits new left

pub reserve-Found :
    (ps required k : ℕ) (got : List ℕ) (bits : List Bool)
    → 0 < ps
    → length got < required
    → required + count_true bits ≤ length got + length bits
    → Found ps k required got bits
unfolding reserve bases_from
reserve-Found ps required k got [] ps_pos short enough = absurd (omega arith)
reserve-Found ps required k got (true ∷ bits) ps_pos short enough =
    let f = reserve-Found ps required (k + 1) got bits ps_pos short (omega arith) in
    record {
      new = f.new;
      left = true ∷ f.left;
      result = ground (arith, f.result);
      exact = f.exact;
      takes = Takes-true ps k bits f.new f.left f.takes;
    }
reserve-Found ps required k got (false ∷ bits) ps_pos short enough =
    elim (ℕ_discrete (length got + 1) required) [
      | yes last ↦ record {
        new = (k * ps) ∷ [];
        left = true ∷ bits;
        result = ground arith;
        exact = last;
        takes = Takes-false ps k bits [] bits (Takes-refl ps (k + 1) bits) ps_pos;
      }
      | no more ↦
          let f =
            reserve-Found ps required (k + 1) (got ++ (k * ps) ∷ []) bits ps_pos
              (omega (arith, length-append got ((k * ps) ∷ [])))
              (omega (arith, length-append got ((k * ps) ∷ []))) in
          record {
            new = (k * ps) ∷ f.new;
            left = true ∷ f.left;
            result = ground (arith, f.result, append_assoc got ((k * ps) ∷ []) f.new);
            exact = omega (arith, f.exact, length-append got ((k * ps) ∷ []));
            takes = Takes-false ps k bits f.new f.left f.takes ps_pos;
          }
    ]
