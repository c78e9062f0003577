-- ===== src/Cpu/Odometer.antt =====
-- The entries of a logical address as a number: `sum` counts up, and starts over behind the last
-- page that the tables reach.
use tp_sisop_go_utn.Cpu.Address.{
  PaginationConfig, from_int_to_logical_addres, sum, sum_times, sum_carry,
}
use native.Mathlib.Nat.{mod-add-mod, mod_self, add-zero, mod-eq_of_lt, pow-zero, pow-suc}
use tp_sisop_go_utn.Base.{
  length-replicate, ◌∙◌, sym, replicate, ◌/◌, ◌++◌, zero, some, ◌%◌, refl, ap, ◌==◌, inl, false,
  inr, Bool-cases, arith, suc, Bool, ℕ, ◌∷◌, [], ◌≡◌, ◌*◌, ◌<◌, List, true, ◌^◌, ◌≤◌, if◌then◌else◌,
  ◌+◌, length,
}
use native.Mathlib.Decide.{ℕ_discrete}

-- The number of the page, with the outermost entry first.
abbrev pub page_number : ℕ → List ℕ → ℕ
page_number entries [] = 0
page_number entries (d ∷ ds) = d * entries ^ length ds + page_number entries ds

abbrev pub AllBelow : ℕ → List ℕ → Type 0
AllBelow n [] = Unit {0}
AllBelow n (d ∷ ds) = (d < n) × AllBelow n ds

mul-le-mul : (a b c : ℕ) → a ≤ b → a * c ≤ b * c
mul-le-mul a b c h = grind arith

pub page_number-lt :
    (entries : ℕ) (ds : List ℕ) → AllBelow entries ds → page_number entries ds < entries ^ length ds
page_number-lt entries [] h = omega (arith, pow-zero entries)
page_number-lt entries (d ∷ ds) h = omega (
  arith,
  page_number-lt entries ds h.1,
  mul-le-mul (suc d) entries (entries ^ length ds) h.0,
  pow-suc entries (length ds),
)

-- What one run of the loop does to the number.
pub record Counts (entries : ℕ) (ds : List ℕ) (r : List ℕ × Bool) : Type 0 where
  pub same_length : length r.0 ≡ length ds
  pub below : AllBelow entries r.0
  pub number :
      page_number entries ds + 1
      ≡ page_number entries r.0 + (if r.1 then entries ^ length ds else 0)
  pub wrapped : r.1 ≡ true → page_number entries r.0 ≡ 0

module _ (entries d : ℕ) (ds : List ℕ) (r : List ℕ × Bool) (lt : d < entries)
    (c : Counts entries ds r) where
  -- One entry more, in front of a run that ended in `r`.
  abbrev step : List ℕ × Bool
  step =
      if r.1
      then (if d + 1 == entries then (0 ∷ r.0, true) else ((d + 1) ∷ r.0, false))
      else (d ∷ r.0, false)

  d_suc : (d + 1) * entries ^ length ds ≡ d * entries ^ length ds + entries ^ length ds
  d_suc = omega arith

  step_number :
      page_number entries (d ∷ ds) + 1
      ≡ page_number entries step.0 + (if step.1 then entries ^ length (d ∷ ds) else 0)
  step_number = elim (Bool-cases r.1) [
    | inl up ↦ elim (ℕ_discrete (d + 1) entries) [
      | yes full ↦ ground (
        arith,
        c.number,
        c.same_length,
        pow-suc entries (length ds),
        ap (λ (t : ℕ). t * entries ^ length ds) full,
      )
      | no more ↦ ground (arith, c.number, c.same_length, d_suc)
    ]
    | inr stay ↦ ground (arith, c.number, c.same_length)
  ]

  step-Counts : Counts entries (d ∷ ds) step
  step-Counts = record {
    same_length = ground (arith, c.same_length);
    below = ground (arith, c.below);
    number = step_number;
    wrapped = λ e. ground (arith, c.wrapped);
  }

sum_carry-Counts :
    (entries : ℕ) (ds : List ℕ) → AllBelow entries ds → Counts entries ds (sum_carry entries ds)
unfolding sum_carry
sum_carry-Counts entries [] h = record {
  same_length = refl;
  below = tt;
  number = omega (arith, pow-zero entries);
  wrapped = λ e. refl;
}
sum_carry-Counts entries (d ∷ ds) h =
    step-Counts entries d ds (sum_carry entries ds) h.0 (sum_carry-Counts entries ds h.1)

-- One step of the count, around the end.
pub record Next (entries : ℕ) (ds next : List ℕ) (n : ℕ) : Type 0 where
  pub same_length : length next ≡ length ds
  pub below : AllBelow entries next
  pub number : page_number entries next ≡ n % entries ^ length ds

pub sum-Next :
    (entries : ℕ) (v : List ℕ)
    → 0 < length v
    → AllBelow entries v
    → (next : List ℕ) × (sum entries v ≡ some next)
      × Next entries v next (page_number entries v + 1)
unfolding sum
sum-Next entries [] l h = absurd (omega arith)
sum-Next entries (d ∷ ds) l h =
    let r = sum_carry entries (d ∷ ds) in
    let c = sum_carry-Counts entries (d ∷ ds) h in
    let m = entries ^ length (d ∷ ds) in
    let small : page_number entries r.0 < m =
      rw c.same_length at (page_number-lt entries r.0 c.below) in
    let inside : page_number entries r.0 % m ≡ page_number entries r.0 = mod-eq_of_lt small in
    (
      r.0,
      refl,
      record {
        same_length = c.same_length;
        below = c.below;
        number = elim (Bool-cases r.1) [
          | inl around ↦ ground (arith, c.number, c.wrapped, mod_self m)
          | inr stay ↦ ground (arith, c.number, inside)
        ];
      },
    )

pub sum_times-Next :
    (entries n : ℕ) (v : List ℕ)
    → 0 < length v
    → AllBelow entries v
    → (next : List ℕ) × (sum_times entries n v ≡ some next)
      × Next entries v next (page_number entries v + n)
unfolding sum_times
sum_times-Next entries zero v l h =
    let inside : page_number entries v % entries ^ length v ≡ page_number entries v =
      mod-eq_of_lt (page_number-lt entries v h) in
    (v, refl, record { same_length = refl; below = h; number = rw add-zero (sym inside) })
sum_times-Next entries (suc n) v l h =
    let (w, once, a) = sum-Next entries v l h in
    let (next, rest, b) = sum_times-Next entries n w (omega (arith, a.same_length)) a.below in
    let m = entries ^ length v in
    let same : entries ^ length w ≡ m = ap (λ k. entries ^ k) a.same_length in
    (
      next,
      ground (arith, once, rest),
      record {
        same_length = b.same_length ∙ a.same_length;
        below = b.below;
        number = ground (
          arith,
          b.number,
          a.number,
          same,
          mod-add-mod (page_number entries v + 1) m n,
          regroup (page_number entries v) n,
        );
      },
    )
  where
    regroup : (x y : ℕ) → x + 1 + y ≡ x + suc y
    regroup x y = omega arith

AllBelow-replicate : (entries n : ℕ) → 0 < entries → AllBelow entries (replicate n 0)
AllBelow-replicate entries zero h = tt
AllBelow-replicate entries (suc n) h = (h, AllBelow-replicate entries n h)

page_number-replicate : (entries n : ℕ) → page_number entries (replicate n 0) ≡ 0
page_number-replicate entries zero = refl
page_number-replicate entries (suc n) = omega (arith, page_number-replicate entries n)

-- What FromIntToLogicalAddres answers.
pub record LogicAddress (conf : PaginationConfig) (direccion : ℕ) : Type 0 where
  pub niveles : List ℕ
  pub result :
      from_int_to_logical_addres conf direccion ≡ some (niveles ++ direccion % conf.page_size ∷ [])
  pub depth : length niveles ≡ conf.levels
  pub below : AllBelow conf.entries_per_page niveles
  pub number :
      page_number conf.entries_per_page niveles
      ≡ direccion / conf.page_size % conf.entries_per_page ^ conf.levels

-- FromIntToLogicalAddres, with page size, entries and levels above 0, returns one entry for each
-- level, each below the number of entries, and the offset in the page behind them; the entries
-- spell the page number in base entries, modulo entries ^ levels.
pub from_int-LogicAddress :
    (conf : PaginationConfig) (direccion : ℕ)
    → 0 < conf.page_size
    → 0 < conf.entries_per_page
    → 0 < conf.levels
    → LogicAddress conf direccion
unfolding from_int_to_logical_addres
from_int-LogicAddress conf direccion ps_pos e_pos l_pos =
    let e = conf.entries_per_page in
    let zeros = replicate conf.levels 0 in
    let len : length zeros ≡ conf.levels = length-replicate conf.levels 0 in
    let (niveles, counted, n) =
      sum_times-Next e (direccion / conf.page_size) zeros (omega (arith, len))
        (AllBelow-replicate e conf.levels e_pos) in
    record {
      niveles = niveles;
      result = ground (arith, counted);
      depth = n.same_length ∙ len;
      below = n.below;
      number = ground (arith, n.number, page_number-replicate e conf.levels, ap (λ k. e ^ k) len);
    }
