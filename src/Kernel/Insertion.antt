-- ===== src/Kernel/Insertion.antt =====
-- An order that sort.Slice may give: by insertion.
use tp_sisop_go_utn.Base.{
  Bool-cases, IsSorted, List, [], arith, count, if◌then◌else◌, inl, inr, ltb, refl, tests, ℕ, ◌∷◌,
  ◌≡◌, ◌≤◌,
}
use tp_sisop_go_utn.Kernel.Queues.{SortSlice}

abbrev pub insert : (ℕ → ℕ) → ℕ → List ℕ → List ℕ
insert key a [] = a ∷ []
insert key a (x ∷ xs) = if ltb (key x) (key a) then x ∷ insert key a xs else a ∷ x ∷ xs

abbrev pub insertion_sort : (ℕ → ℕ) → List ℕ → List ℕ
insertion_sort key [] = []
insertion_sort key (x ∷ xs) = insert key x (insertion_sort key xs)

count-insert : (key : ℕ → ℕ) (a n : ℕ) (xs : List ℕ) → count n (insert key a xs) ≡ count n (a ∷ xs)
count-insert key a n [] = refl
count-insert key a n (x ∷ xs) = ground (arith, count-insert key a n xs)

pub count-insertion_sort :
    (key : ℕ → ℕ) (xs : List ℕ) (n : ℕ) → count n (insertion_sort key xs) ≡ count n xs
count-insertion_sort key [] n = refl
count-insertion_sort key (x ∷ xs) n =
    omega (arith, count-insert key x n (insertion_sort key xs), count-insertion_sort key xs n)

-- One entry in front of what is sorted.
insert-head :
    (key : ℕ → ℕ) (x a : ℕ) (xs : List ℕ)
    → key x ≤ key a
    → IsSorted key (x ∷ xs)
    → IsSorted key (insert key a xs)
    → IsSorted key (x ∷ insert key a xs)
insert-head key x a [] le h k = (le, tt)
insert-head key x a (y ∷ ys) le h k = ground (arith, k)

insert-IsSorted :
    (key : ℕ → ℕ) (a : ℕ) (xs : List ℕ) → IsSorted key xs → IsSorted key (insert key a xs)
insert-IsSorted key a [] h = tt
insert-IsSorted key a (x ∷ xs) h = elim (Bool-cases (ltb (key x) (key a))) [
  | inl e ↦ rw e (
      insert-head key x a xs (omega (tests, e)) h
        (insert-IsSorted key a xs (tail-IsSorted key x xs h)))
  | inr e ↦ rw e (ground (arith, e), h)
]
  where
    tail-IsSorted : (key : ℕ → ℕ) (x : ℕ) (xs : List ℕ) → IsSorted key (x ∷ xs) → IsSorted key xs
    tail-IsSorted key x [] h = tt
    tail-IsSorted key x (y ∷ ys) h = h.1

pub insertion_sort-IsSorted : (key : ℕ → ℕ) (xs : List ℕ) → IsSorted key (insertion_sort key xs)
insertion_sort-IsSorted key [] = tt
insertion_sort-IsSorted key (x ∷ xs) =
    insert-IsSorted key x (insertion_sort key xs) (insertion_sort-IsSorted key xs)

abbrev pub by_insertion : SortSlice
by_insertion = record {
  sort_by = insertion_sort;
  sort_by-count = count-insertion_sort;
  sort_by-IsSorted = insertion_sort-IsSorted;
}
