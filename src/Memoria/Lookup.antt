-- ===== src/Memoria/Lookup.antt =====
-- Lookups behind a write through the pointer of GetDataByPID.
use tp_sisop_go_utn.Base.{
  option_map, arith, ℕ, take, ◌∷◌, ◌==◌, set, ◌≡◌, drop, ◌<◌, ◌≤◌, suc, if◌then◌else◌, zero, List,
  true, ◌⊎◌, ◌*◌, [], refl, ap, ◌+◌, ◌/◌,
}
use tp_sisop_go_utn.Memoria.State.{update_process, find_process, ProcessData}
use tp_sisop_go_utn.Memoria.Frames.{InRange, owners}
use tp_sisop_go_utn.Memoria.Access.{contains}

module _ (pid : ℕ) (f : ProcessData → ProcessData)
    (same : (p : ProcessData) → (f p).pid ≡ p.pid) where
  -- The entry of the pid is changed, and no other.
  pub find_process-update :
      (i : ℕ) (ps : List ProcessData)
      → find_process i (update_process pid f ps)
        ≡ (if i == pid then option_map f (find_process i ps) else find_process i ps)
  unfolding find_process update_process
  find_process-update i [] = ground arith
  find_process-update i (p ∷ ps) = ground (arith, same p, find_process-update i ps)

-- contains finds what is there as often as it is counted.
pub contains-owners : (pg b : ℕ) (bs : List ℕ) → contains bs b ≡ true → 1 ≤ owners pg (b / pg) bs
unfolding contains
contains-owners pg b [] h = ground arith
contains-owners pg b (x ∷ xs) h = ground (arith, contains-owners pg b xs)

pub InRange-contains :
    (pg n b : ℕ) (bs : List ℕ)
    → contains bs b ≡ true
    → InRange pg n bs
    → (b / pg * pg ≡ b) × (b / pg < n)
unfolding contains
InRange-contains pg n b [] h r = ground arith
InRange-contains pg n b (x ∷ xs) h r = ground (arith, InRange-contains pg n b xs)

module _ {ℓ} {A : Type ℓ} where
  take-set_outside : (xs : List A) (n i : ℕ) (v : A) → n ≤ i → take n (set xs i v) ≡ take n xs
  take-set_outside [] n i v h = refl
  take-set_outside (x ∷ xs) zero i v h = refl
  take-set_outside (x ∷ xs) (suc n) zero v h = absurd (omega arith)
  take-set_outside (x ∷ xs) (suc n) (suc i) v h =
      ap (λ l. x ∷ l) (take-set_outside xs n i v (omega arith))

  -- A write outside a range does not show in it.
  pub take-drop-set_outside :
      (xs : List A) (base n i : ℕ) (v : A)
      → (i < base) ⊎ (base + n ≤ i)
      → take n (drop base (set xs i v)) ≡ take n (drop base xs)
  take-drop-set_outside xs zero n i v h = take-set_outside xs n i v (ground arith)
  take-drop-set_outside [] (suc base) n i v h = refl
  take-drop-set_outside (x ∷ xs) (suc base) n zero v h = refl
  take-drop-set_outside (x ∷ xs) (suc base) n (suc i) v h =
      take-drop-set_outside xs base n i v (ground arith)
