-- ===== src/Utils/Strconv.antt =====
-- strconv.Itoa and strconv.Atoi, and fmt.Sprint of a number that is not negative.
use tp_sisop_go_utn.Base.{
  negsuc, pos, arith, ◌^◌, suc, refl, ◌≡◌, ◌++◌, some, ℕ, true, ltb, ◌/◌, if◌then◌else◌, [], ◌≢◌,
  ◌<◌, none, Option, ◌*◌, ◌&&◌, ◌%◌, zero, ◌≤◌, ℤ, ◌-◌, leb, false, ◌+◌, ◌==◌, ◌∷◌, Bool,
}
use tp_sisop_go_utn.Utils.Strings.{Text}
use native.Mathlib.Decide.{dec_lt}

abbrev is_digit : ℕ → Bool
is_digit c = leb 48 c && leb c 57

-- The digits of a number, with fuel above it.
unfoldable pub itoa_fuel : ℕ → ℕ → Text
itoa_fuel zero n = []
itoa_fuel (suc f) n =
    let front = itoa_fuel f (n / 10) in
    if ltb n 10 then (48 + n) ∷ [] else front ++ (48 + n % 10) ∷ []

unfoldable pub itoa : ℕ → Text
unfolding itoa_fuel
itoa n = itoa_fuel (suc n) n

unfoldable pub parse_digits : ℕ → Text → Option ℕ
parse_digits acc [] = some acc
parse_digits acc (c ∷ cs) =
    let rest = parse_digits (acc * 10 + (c - 48)) cs in if is_digit c then rest else none

-- The value that Atoi returns, and whether its error is nil. Without digits it is 0, and past the
-- range of `int` the nearest value in it.
abbrev pub in_range : Bool → Option ℕ → ℤ × Bool
in_range negative none = (pos 0, false)
in_range false (some n) = if ltb n (2 ^ 63) then (pos n, true) else (pos (2 ^ 63 - 1), false)
in_range true (some zero) = (pos 0, true)
in_range true (some (suc n)) =
    if ltb n (2 ^ 63) then (negsuc n, true) else (negsuc (2 ^ 63 - 1), false)

abbrev unsigned : Text → Option ℕ
unsigned [] = none
unsigned (c ∷ cs) = parse_digits 0 (c ∷ cs)

unfoldable pub atoi : Text → ℤ × Bool
unfolding parse_digits
atoi [] = (pos 0, false)
atoi (c ∷ cs) =
    if c == 45
    then in_range true (unsigned cs)
    else if c == 43
    then in_range false (unsigned cs)
    else in_range false (unsigned (c ∷ cs))

-- A digit.
abbrev pub IsDigits : Text → Type 0
IsDigits [] = Unit {0}
IsDigits (c ∷ cs) = (48 ≤ c) × (c ≤ 57) × IsDigits cs

IsDigits-append : (s t : Text) → IsDigits s → IsDigits t → IsDigits (s ++ t)
IsDigits-append [] t h k = k
IsDigits-append (c ∷ s) t h k = (h.0, h.1, IsDigits-append s t h.2 k)

itoa_fuel-IsDigits : (f n : ℕ) → IsDigits (itoa_fuel f n)
unfolding itoa_fuel
itoa_fuel-IsDigits zero n = tt
itoa_fuel-IsDigits (suc f) n = ground (
  arith,
  IsDigits-append (itoa_fuel f (n / 10)) ((48 + n % 10) ∷ []) (itoa_fuel-IsDigits f (n / 10))
      (omega arith),
)

-- What Itoa prints has digits only.
pub itoa-IsDigits : (n : ℕ) → IsDigits (itoa n)
unfolding itoa
itoa-IsDigits n = itoa_fuel-IsDigits (suc n) n

parse_digits-snoc :
    (acc n c : ℕ) (s : Text)
    → parse_digits acc s ≡ some n
    → 48 ≤ c
    → c ≤ 57
    → parse_digits acc (s ++ c ∷ []) ≡ some (n * 10 + (c - 48))
unfolding parse_digits
parse_digits-snoc acc n c [] h lo hi = ground arith
parse_digits-snoc acc n c (d ∷ s) h lo hi =
    ground (arith, parse_digits-snoc (acc * 10 + (d - 48)) n c s)

parse_digits-itoa_fuel : (f n : ℕ) → n < f → parse_digits 0 (itoa_fuel f n) ≡ some n
unfolding itoa_fuel parse_digits
parse_digits-itoa_fuel zero n h = absurd (omega arith)
parse_digits-itoa_fuel (suc f) n h = elim (dec_lt n 10) [
  | yes small ↦ ground arith
  | no big ↦ ground (
    arith,
    parse_digits-snoc 0 (n / 10) (48 + n % 10) (itoa_fuel f (n / 10))
        (parse_digits-itoa_fuel f (n / 10) (omega arith)),
  )
]

itoa-ne-nil : (n : ℕ) → itoa n ≢ []
unfolding itoa itoa_fuel
itoa-ne-nil n = ground (arith, snoc-ne-nil (itoa_fuel n (n / 10)) (48 + n % 10))
  where
    snoc-ne-nil : (s : Text) (c : ℕ) → s ++ c ∷ [] ≢ []
    snoc-ne-nil [] c = λ e. cc
    snoc-ne-nil (x ∷ s) c = λ e. cc

atoi_digits :
    (s : Text) (n : ℕ)
    → s ≢ []
    → IsDigits s
    → parse_digits 0 s ≡ some n
    → atoi s ≡ in_range false (some n)
unfolding atoi
atoi_digits [] n h d p = absurd (h refl)
atoi_digits (c ∷ s) n h d p = ground arith

pub atoi-itoa_any : (n : ℕ) → atoi (itoa n) ≡ in_range false (some n)
atoi-itoa_any n =
    atoi_digits (itoa n) n (itoa-ne-nil n) (itoa-IsDigits n)
      (unfold itoa in parse_digits-itoa_fuel (suc n) n (omega arith))

-- A number in the range of `int` is read as it was printed.
pub atoi-itoa : (n : ℕ) → n < 2 ^ 63 → atoi (itoa n) ≡ (pos n, true)
atoi-itoa n h = ground (arith, atoi-itoa_any n)

-- The number in the range of `int` that is nearest to one that is not negative.
abbrev pub as_int : ℕ → ℕ
as_int n = if ltb n (2 ^ 63) then n else 2 ^ 63 - 1

-- What Atoi makes of a printed number, its error dropped.
pub atoi-itoa-as_int : (n : ℕ) → (atoi (itoa n)).0 ≡ pos (as_int n)
atoi-itoa-as_int n = ground (arith, atoi-itoa_any n)

pub as_int-lt : (n : ℕ) → as_int n < 2 ^ 63
as_int-lt n = ground arith

pub as_int_of_lt : (n : ℕ) → n < 2 ^ 63 → as_int n ≡ n
as_int_of_lt n h = ground arith
