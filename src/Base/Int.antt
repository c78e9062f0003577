-- ===== src/Base/Int.antt =====
-- Go's `int` values that can be negative. Sizes and counters that cannot be are plain ℕ.
use Prim.Native.Nat.{ℕ, ◌+◌, ◌-◌, ◌%◌, ◌^◌}
use mathlib.Core.Bool.{Bool, true, false}
use mathlib.Core.Option.{Option, none, some}
use tp_sisop_go_utn.Base.Tests.{ltb, leb, if◌then◌else◌}

-- `negsuc n` is -(n + 1).
pub data ℤ : Type 0 where
  pos : ℕ → ℤ
  negsuc : ℕ → ℤ

-- The number, where it is not negative.
abbrev pub to_nat? : ℤ → Option ℕ
to_nat? (pos n) = some n
to_nat? (negsuc n) = none

-- x ≥ n, for a length or a bound n.
abbrev pub at_least : ℕ → ℤ → Bool
at_least n (pos x) = leb n x
at_least n (negsuc x) = false

abbrev pub is_negative : ℤ → Bool
is_negative (pos x) = false
is_negative (negsuc x) = true

-- b + d, for a base b.
abbrev pub offset : ℕ → ℤ → ℤ
offset b (pos d) = pos (b + d)
offset b (negsuc d) = if ltb d b then pos (b - d - 1) else negsuc (d - b)

-- `uint(i)` of an int, which is 64 bits wide.
abbrev pub to_uint : ℤ → ℕ
to_uint (pos n) = n % 2 ^ 64
to_uint (negsuc n) = 2 ^ 64 - (n + 1)
