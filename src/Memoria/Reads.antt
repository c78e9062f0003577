-- ===== src/Memoria/Reads.antt =====
-- Requests that only read: LogicAddressToFrame, GetPage and Memory_Dump of
-- memoria/storage/storage.go, as what they return and what they leave alone.
use tp_sisop_go_utn.Memoria.PageRuns.{page_at}
use tp_sisop_go_utn.Memoria.Touched.{Touched, Touched-metrics, Touched-refl, Touched-trans}
use tp_sisop_go_utn.Memoria.Address.{count_access, logic_address_to_frame, walk_tables}
use tp_sisop_go_utn.Memoria.Access.{contains}
use tp_sisop_go_utn.Memoria.State.{
  address_of_other_depth, no_such_process, out_of_bounds_process, Error, find_process,
  get_data_by_pid, ProcessData, Storage,
}
use tp_sisop_go_utn.Base.Outcome.{
  done, fail, fail_if, or_fail, or_panic, Outcome, panic, ◌>>=◌, ◌>>◌,
}
use tp_sisop_go_utn.Base.{
  ◌*◌, ◌+◌, ◌==◌, ◌^◌, ◌≡◌, ◌∙◌, ◌∷◌, [], arith, Bool-cases, false, get_elem?, if◌then◌else◌, inl,
  inr, leb, length, List, negsuc, none, Option, option_map, pos, refl, some, true, ℕ, ℤ, ◌⊎◌, subst,
  suc, zero, not,
}

-- The bases of a stored process.
abbrev pub bases_of : ℕ → Storage → Option (List ℕ)
bases_of pid s = option_map (λ p. p.page_bases) (find_process pid s.system_memory)

-- The page number that the entries spell, if each is one of a table's.
pub walked : ℕ → ℕ → List ℤ → Option ℕ
walked entries index [] = some index
walked entries index (negsuc n ∷ address) = none
walked entries index (pos n ∷ address) =
    let rest = walked entries (index + n * entries ^ length address) address in
    if leb entries n then none else rest

-- A change of metrics, and of nothing else.
pub record Still (pid : ℕ) (s t : Storage) : Type 0 where
  pub touched : Touched pid s t
  pub same_memory : t.user_memory ≡ s.user_memory

pub Still-refl : (pid : ℕ) (s : Storage) → Still pid s s
Still-refl pid s = record { touched = Touched-refl pid s; same_memory = refl }

Still-trans : (pid : ℕ) (s t u : Storage) → Still pid s t → Still pid t u → Still pid s u
Still-trans pid s t u a b = record {
  touched = Touched-trans pid a.touched b.touched;
  same_memory = b.same_memory ∙ a.same_memory;
}

-- An outcome with a value, or a refusal, that changes nothing but metrics.
abbrev pub Reads : {A : Type 0} → ℕ → Storage → Option A → Outcome Error Storage A → Type 0
Reads pid s v (done a t) = Still pid s t × (some a ≡ v)
Reads pid s v (fail e t) = Still pid s t × (none ≡ v)
Reads pid s v panic = ⊥

Reads-after :
    {A : Type 0} (pid : ℕ) (s t : Storage) (v : Option A) (o : Outcome Error Storage A)
    → Still pid s t
    → Reads pid t v o
    → Reads pid s v o
Reads-after pid s t v (done a u) h r = (Still-trans pid s t u h r.0, r.1)
Reads-after pid s t v (fail e u) h r = (Still-trans pid s t u h r.0, r.1)
Reads-after pid s t v panic h r = r

Still-count : (pid : ℕ) (s : Storage) → Still pid s (count_access pid s)
Still-count pid s = record { touched = Touched-metrics pid _ s; same_memory = refl }

walk_tables-Reads :
    (pid index : ℕ) (address : List ℤ) (s : Storage)
    → Reads pid s (walked s.entries_per_page index address) (walk_tables pid index address s)
unfolding walk_tables walked
walk_tables-Reads pid index [] s = (Still-refl pid s, refl)
walk_tables-Reads pid index (negsuc n ∷ address) s = (Still-refl pid s, refl)
walk_tables-Reads pid index (pos n ∷ address) s = elim (Bool-cases (leb s.entries_per_page n)) [
  | inl beyond ↦ rw beyond (Still-refl pid s, refl)
  | inr inside ↦ rw inside (
      Reads-after pid s (count_access pid s) _ _ (Still-count pid s) (
        walk_tables-Reads pid (index + n * s.entries_per_page ^ length address) address
          (count_access pid s)))
]

-- An index is beyond a list, or has an element.
at_index :
    (xs : List ℕ) (i : ℕ)
    → ((leb (length xs) i ≡ true) × (get_elem? xs i ≡ none))
      ⊎ ((leb (length xs) i ≡ false) × ((x : ℕ) × (get_elem? xs i ≡ some x)))
at_index [] i = inl (ground arith, refl)
at_index (x ∷ xs) zero = inr (ground arith, (x, refl))
at_index (x ∷ xs) (suc i) = elim (at_index xs i) [
  | inl (beyond, none_there) ↦ inl (ground (arith, beyond), none_there)
  | inr (inside, found) ↦ inr (ground (arith, inside), found)
]

-- The base that an address is mapped to.
abbrev pub entry_at : List ℕ → Option ℕ → Option ℕ
entry_at bases none = none
entry_at bases (some i) = get_elem? bases i

abbrev pub framed : ℕ → ℕ → List ℤ → Option (List ℕ) → Option ℕ
framed levels entries address none = none
framed levels entries address (some bases) =
    if length address == levels then entry_at bases (walked entries 0 address) else none

-- The bytes of a page that the process has.
abbrev pub paged : ℕ → List ℕ → ℕ → Option (List ℕ) → Option (List ℕ)
paged page_size memory base none = none
paged page_size memory base (some bases) =
    if contains bases base then some (page_at page_size memory base) else none

abbrev pick : List ℕ → ℕ → Storage → Outcome Error Storage ℕ
pick bases i = fail_if (leb (length bases) i) out_of_bounds_process >> or_panic (get_elem? bases i)

pick-Reads :
    (pid : ℕ) (s t : Storage) (bases : List ℕ) (i : ℕ)
    → Still pid s t
    → Reads pid s (get_elem? bases i) (pick bases i t)
pick-Reads pid s t bases i h = elim (at_index bases i) [
  | inl (beyond, none_there) ↦ rw (beyond, none_there) (h, refl)
  | inr (inside, (x, found)) ↦ rw (inside, found) (h, refl)
]

after_walk :
    (pid : ℕ) (s : Storage) (bases : List ℕ) (v : Option ℕ) (o : Outcome Error Storage ℕ)
    → Reads pid s v o
    → Reads pid s
        (entry_at bases v)
        (elim o [ done i t ↦ pick bases i t | fail e t ↦ fail e t | panic ↦ panic ])
after_walk pid s bases v (done i t) h =
    subst (λ w. Reads pid s (entry_at bases w) (pick bases i t)) h.1
      (pick-Reads pid s t bases i h.0)
after_walk pid s bases v (fail e t) h =
    subst (λ w. Reads pid s (entry_at bases w) (fail e t)) h.1 (h.0, refl)
after_walk pid s bases v panic h = h

-- LogicAddressToFrame for what GetDataByPID has found.
abbrev translate : ℕ → List ℤ → Storage → Option ProcessData → Outcome Error Storage ℕ
translate pid address s o =
    (fail_if (not (length address == s.levels)) address_of_other_depth
        >> (or_fail o no_such_process >>= λ p.
            walk_tables pid 0 address >>= λ i. pick p.page_bases i))
      s

pub logic_address_to_frame-Reads :
    (pid : ℕ) (address : List ℤ) (s : Storage)
    → Reads pid s
        (framed s.levels s.entries_per_page address (bases_of pid s))
        (logic_address_to_frame pid address s)
unfolding logic_address_to_frame get_data_by_pid
logic_address_to_frame-Reads pid address s = elim (Bool-cases (length address == s.levels)) [
  | inl deep ↦ stored (find_process pid s.system_memory) deep
  | inr other ↦ refuses (find_process pid s.system_memory) other
]
  where
    stored :
        (o : Option ProcessData)
        → (length address == s.levels) ≡ true
        → Reads pid s
            (framed s.levels s.entries_per_page address (option_map (λ p. p.page_bases) o))
            (translate pid address s o)
    stored none deep = rw deep (Still-refl pid s, refl)
    stored (some p) deep = rw deep (
        after_walk pid s p.page_bases (walked s.entries_per_page 0 address)
          (walk_tables pid 0 address s) (walk_tables-Reads pid 0 address s))

    refuses :
        (o : Option ProcessData)
        → (length address == s.levels) ≡ false
        → Reads pid s
            (framed s.levels s.entries_per_page address (option_map (λ p. p.page_bases) o))
            (translate pid address s o)
    refuses none other = rw other (Still-refl pid s, refl)
    refuses (some p) other = rw other (Still-refl pid s, refl)
