-- ===== src/Memoria/Isolation.antt =====
-- One process's writes and another's pages.
use tp_sisop_go_utn.Base.{
  ltb, ltb→lt, Option-cases, set, refl, sym, subst, Bool-cases, length-set, pos, arith, inr, ◌≢◌,
  get_or, ℕ, inl, false, length, ◌+◌, ◌<◌, ◌⊎◌, some, ◌≡◌, ◌*◌, ◌≤◌, ◌/◌, Bool, suc, [], true,
}
use tp_sisop_go_utn.Memoria.Lookup.{
  take-drop-set_outside, find_process-update, contains-owners, InRange-contains,
}
use tp_sisop_go_utn.Memoria.State.{
  with_metrics, find_process, ProcessData, get_data_by_pid, Storage,
}
use tp_sisop_go_utn.Memoria.Access.{add_write, contains, get_page, write_to_memory}
use tp_sisop_go_utn.Memoria.Deallocation.{without, owners-without, InRange-process}
use tp_sisop_go_utn.Memoria.Frames.{bit_value_le, owners}
use tp_sisop_go_utn.Base.Outcome.{value_of, done}
use tp_sisop_go_utn.Memoria.Invariant.{IsSound}
use native.Mathlib.Decide.{dec_lt}

-- Two frames with different indices do not overlap.
pub frames_apart :
    (pg a b d : ℕ)
    → a / pg * pg ≡ a
    → b / pg * pg ≡ b
    → a / pg ≢ b / pg
    → d < pg
    → (a + d < b) ⊎ (b + pg ≤ a + d)
frames_apart pg a b d ea eb n h = elim (dec_lt (a / pg) (b / pg)) [
  | yes lt ↦ inl (omega (arith, mul_le (suc (a / pg)) (b / pg) pg lt, ea, eb, suc_mul (a / pg) pg))
  | no ge ↦
      inr (
        omega (arith, mul_le (suc (b / pg)) (a / pg) pg (omega arith), ea, eb, suc_mul (b / pg) pg))
]
  where
    mul_le : (x y z : ℕ) → x ≤ y → x * z ≤ y * z
    mul_le x y z le = grind arith

    suc_mul : (x z : ℕ) → suc x * z ≡ x * z + z
    suc_mul x z = omega arith

module _ (resident : ℕ → Bool) (s : Storage) (v : IsSound [] resident s) (a b base_a base_b : ℕ)
    (pa pb : ProcessData) (other : a ≢ b) (a_here : resident a ≡ true) (b_here : resident b ≡ true)
    (a_found : find_process a s.system_memory ≡ some pa)
    (b_found : find_process b s.system_memory ≡ some pb)
    (a_has : contains pa.page_bases base_a ≡ true)
    (b_has : contains pb.page_bases base_b ≡ true) where
  -- Resident processes have no frame in common.
  frames_differ : base_a / s.page_size ≢ base_b / s.page_size
  frames_differ e =
      let i = base_b / s.page_size in
      let ra = InRange-contains s.page_size (length s.reservation_bits) base_a pa.page_bases a_has (
        InRange-process resident a pa a_here s.page_size _ s.system_memory a_found
          v.owned.in_range) in
      let one = v.owned.owned_once i (rw e at (ra.1)) in
      let ca : 1 ≤ owners s.page_size i pa.page_bases =
        rw e at (contains-owners s.page_size base_a pa.page_bases a_has) in
      omega (
        arith,
        one,
        ca,
        contains-owners s.page_size base_b pb.page_bases b_has,
        bit_value_le (get_or s.reservation_bits i false),
        owners-without resident a pa a_here s.page_size i s.system_memory v.distinct a_found,
        owners-without (without a resident) b pb (ground arith) s.page_size i s.system_memory
            v.distinct b_found,
      )

  pub apart :
      (d : ℕ) → d < s.page_size → (base_a + d < base_b) ⊎ (base_b + s.page_size ≤ base_a + d)
  apart d h =
      frames_apart s.page_size base_a base_b d
        (InRange-contains s.page_size (length s.reservation_bits) base_a pa.page_bases a_has (
          InRange-process resident a pa a_here s.page_size _ s.system_memory a_found
            v.owned.in_range)).0
        (InRange-contains s.page_size (length s.reservation_bits) base_b pb.page_bases b_has (
          InRange-process resident b pb b_here s.page_size _ s.system_memory b_found
            v.owned.in_range)).0
        frames_differ h

-- The variables after a write.
abbrev written : Storage → ℕ → ℕ → ℕ → Storage
written s pid i value = add_write pid (record s { user_memory = set s.user_memory i value })

record Writes (pid base d value : ℕ) (s t : Storage) : Type 0 where
  p : ProcessData
  found : find_process pid s.system_memory ≡ some p
  has : contains p.page_bases base ≡ true
  inside : base + d < length s.user_memory
  after : t ≡ written s pid (base + d) value

-- What a write that succeeds has found.
write_to_memory-Writes :
    (pid base d value : ℕ) (s t : Storage)
    → write_to_memory pid base (pos d) value s ≡ done tt t
    → Writes pid base d value s t
unfolding write_to_memory get_data_by_pid
write_to_memory-Writes pid base d value s t w =
    elim (Option-cases (find_process pid s.system_memory)) [
      | inl none_found ↦ ground arith
      | inr (p, found) ↦ elim (Bool-cases (contains p.page_bases base)) [
        | inl has ↦ elim (Bool-cases (ltb (base + d) (length s.user_memory))) [
          | inl fits ↦ record {
            p = p;
            found = found;
            has = has;
            inside = ltb→lt _ _ fits;
            after = ground (arith, found, has, fits, w);
          }
          | inr beyond ↦ ground arith
        ]
        | inr lacks ↦ ground arith
      ]
    ]

-- A page whose bytes stay the same is read as before.
get_page_same :
    (a b base_b i value : ℕ) (s : Storage)
    → a ≢ b
    → ((pb : ProcessData)
        → find_process b s.system_memory ≡ some pb
        → contains pb.page_bases base_b ≡ true
        → (i < base_b) ⊎ (base_b + s.page_size ≤ i))
    → value_of (get_page b base_b (written s a i value)) ≡ value_of (get_page b base_b s)
unfolding get_page get_data_by_pid
get_page_same a b base_b i value s other far =
    let same =
      find_process-update a (with_metrics (λ m. record m { writes = m.writes + 1 })) (λ p. refl) b
        s.system_memory in
    elim (Option-cases (find_process b s.system_memory)) [
      | inl none_found ↦ ground (arith, same)
      | inr (pb, found) ↦ elim (Bool-cases (contains pb.page_bases base_b)) [
        | inl has ↦ ground (
          arith,
          same,
          take-drop-set_outside s.user_memory base_b s.page_size i value (far pb found has),
          length-set s.user_memory i value,
        )
        | inr lacks ↦ ground (arith, same)
      ]
    ]

-- A write inside a page of one resident process (an offset below the page size, the write
-- succeeding) changes nothing of what GetPage returns to another resident process, bytes and
-- refusals alike, if the variables are sound before.
pub write_to_memory_isolated :
    (resident : ℕ → Bool) (s t : Storage) (a b base_a base_b d value : ℕ)
    → IsSound [] resident s
    → a ≢ b
    → resident a ≡ true
    → resident b ≡ true
    → d < s.page_size
    → write_to_memory a base_a (pos d) value s ≡ done tt t
    → value_of (get_page b base_b t) ≡ value_of (get_page b base_b s)
write_to_memory_isolated resident s t a b base_a base_b d value v other a_here b_here small w =
    let write = write_to_memory-Writes a base_a d value s t w in
    subst (λ u. value_of (get_page b base_b u) ≡ value_of (get_page b base_b s)) (sym write.after)
      (get_page_same a b base_b (base_a + d) value s other (λ pb found has.
        apart resident s v a b base_a base_b write.p pb other a_here b_here write.found found
          write.has has d small))
