-- ===== src/Base/Rounding.antt =====
-- Division that rounds up.
use Prim.Native.Nat.{ℕ, ◌+◌, ◌-◌, ◌*◌, ◌/◌, ◌≤◌, ◌<◌}
use native.Mathlib.Nat.{div-lt_iff_lt-mul, le-div_iff_mul-le, lt-mul-div-succ}
use native.Mathlib.Omega.{arith}

-- int(math.Ceil(float64(a) / float64(b))), which is exact below 2^53.
abbrev pub ceil_div : ℕ → ℕ → ℕ
ceil_div a b = (a + (b - 1)) / b

pub ceil_div-le : (size ps m : ℕ) → 0 < ps → size ≤ m * ps → ceil_div size ps ≤ m
ceil_div-le size ps m h le =
    let q : ceil_div size ps < m + 1 =
      (div-lt_iff_lt-mul {k = ps} {x = size + (ps - 1)} {y = m + 1} h).1 (omega arith) in
    omega arith

pub ceil_div_pos : (size ps : ℕ) → 0 < ps → 0 < size → 0 < ceil_div size ps
ceil_div_pos size ps h p =
    (le-div_iff_mul-le {k = ps} {x = 1} {y = size + (ps - 1)} h).1 (omega arith)

pub le-ceil_div : (size ps : ℕ) → 0 < ps → size ≤ ceil_div size ps * ps
le-ceil_div size ps h = omega (arith, lt-mul-div-succ (size + (ps - 1)) h)
