-- ===== src/Cpu/Buffers.antt =====
-- The byte slices of cpu/memory: what Go's slice expressions and `copy` do.
use tp_sisop_go_utn.Base.{
  if◌then◌else◌, [], ◌-◌, replicate, zero, ℕ, Option, ◌∷◌, none, drop, ltb, length, ◌&&◌, List,
  some, suc, take, ◌++◌, leb,
}

-- copy(page[delta:], value) for a delta within the page: what goes beyond the page is left out.
unfoldable pub overlay : ℕ → List ℕ → List ℕ → List ℕ
overlay delta value [] = []
overlay zero [] (p ∷ ps) = p ∷ ps
overlay zero (v ∷ vs) (p ∷ ps) = v ∷ overlay zero vs ps
overlay (suc delta) vs (p ∷ ps) = p ∷ overlay delta vs ps

-- copy(page[delta:], value), which panics where the page is shorter than delta.
abbrev pub copy_at : ℕ → List ℕ → List ℕ → Option (List ℕ)
copy_at delta value page = if leb delta (length page) then some (overlay delta value page) else none

-- page[from:to] of a slice with this capacity. Between the length and the capacity there are zeros.
abbrev pub slice : ℕ → ℕ → ℕ → List ℕ → Option (List ℕ)
slice capacity from to page =
    if leb from to && leb to capacity
    then some (take (to - from) (drop from (page ++ replicate (capacity - length page) 0)))
    else none

abbrev pub smaller : ℕ → ℕ → ℕ
smaller a b = if ltb a b then a else b
