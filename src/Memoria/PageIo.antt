-- ===== src/Memoria/PageIo.antt =====
-- Reading back what was written: WriteToMemory with GetFromMemory, and WritePage with GetPage.
use tp_sisop_go_utn.Memoria.Access.{
  get_from_memory, contains, add_write, get_page, write_bytes, write_page, write_to_memory,
}
use tp_sisop_go_utn.Base.{
  ◌≢◌, ◌-◌, get_elem?-set_self, pos, arith, suc, drop, sym, ap, length-set, length, ◌<◌, ◌≡◌, zero,
  true, refl, ◌≤◌, set, some, ◌∷◌, take, ◌+◌, ℕ, ◌∙◌, List, [],
}
use tp_sisop_go_utn.Base.Outcome.{ok, ◌>>=◌, value_of, done}
use tp_sisop_go_utn.Memoria.Lookup.{find_process-update}
use tp_sisop_go_utn.Memoria.State.{
  find_process, with_metrics, ProcessData, get_data_by_pid, Storage,
}
use tp_sisop_go_utn.Memoria.Touched.{Touched, Touched-refl, Touched-trans}
use native.Mathlib.Nat.{add_assoc}

-- The bytes `vs` stored one behind the other.
abbrev pub write_at : List ℕ → ℕ → List ℕ → List ℕ
write_at mem i [] = mem
write_at mem i (v ∷ vs) = write_at (set mem i v) (i + 1) vs

write_at-cons :
    (x : ℕ) (mem : List ℕ) (i : ℕ) (vs : List ℕ)
    → write_at (x ∷ mem) (suc i) vs ≡ x ∷ write_at mem i vs
write_at-cons x mem i [] = refl
write_at-cons x mem i (v ∷ vs) =
    let e : suc i + 1 ≡ suc (i + 1) = omega arith in rw e (write_at-cons x (set mem i v) (i + 1) vs)

pub length-write_at : (mem : List ℕ) (i : ℕ) (vs : List ℕ) → length (write_at mem i vs) ≡ length mem
length-write_at mem i [] = refl
length-write_at mem i (v ∷ vs) = length-write_at (set mem i v) (i + 1) vs ∙ length-set mem i v

pub take-drop-write_at :
    (mem : List ℕ) (i : ℕ) (vs : List ℕ)
    → i + length vs ≤ length mem
    → take (length vs) (drop i (write_at mem i vs)) ≡ vs
take-drop-write_at mem i [] h = refl
take-drop-write_at [] i (v ∷ vs) h = absurd (omega arith)
take-drop-write_at (x ∷ mem) zero (v ∷ vs) h =
    let e : 0 + 1 ≡ suc 0 = omega arith in
    rw (e, write_at-cons v mem 0 vs) (ap (λ l. v ∷ l) (take-drop-write_at mem 0 vs (omega arith)))
take-drop-write_at (x ∷ mem) (suc i) (v ∷ vs) h =
    rw (write_at-cons x mem i (v ∷ vs)) (take-drop-write_at mem i (v ∷ vs) (omega arith))

-- The process may touch this page.
pub record MayTouch (pid base : ℕ) (s : Storage) : Type 0 where
  pub p : ProcessData
  pub found : find_process pid s.system_memory ≡ some p
  pub has : contains p.page_bases base ≡ true

-- What the loop of WritePage leaves.
pub record Stored (pid base delta : ℕ) (vs : List ℕ) (s : Storage) : Type 0 where
  pub after : Storage
  pub result : write_bytes pid base delta vs s ≡ done tt after
  pub memory : after.user_memory ≡ write_at s.user_memory (base + delta) vs
  pub may : MayTouch pid base after
  pub same_pages : after.pagination ≡ s.pagination
  pub same_size : after.memory_size ≡ s.memory_size
  pub touched : Touched pid s after

one_write :
    (pid base delta v : ℕ) (s : Storage)
    → MayTouch pid base s
    → base + delta < length s.user_memory
    → write_to_memory pid base (pos delta) v s
      ≡ done tt (add_write pid (record s { user_memory = set s.user_memory (base + delta) v }))
unfolding write_to_memory get_data_by_pid
one_write pid base delta v s m h = ground (arith, m.found, m.has)

MayTouch-after :
    (pid base : ℕ) (mem : List ℕ) (s : Storage)
    → MayTouch pid base s
    → MayTouch pid base (add_write pid (record s { user_memory = mem }))
MayTouch-after pid base mem s m = record {
  p = with_metrics (λ k. record k { writes = k.writes + 1 }) m.p;
  found = ground (
    arith,
    m.found,
    find_process-update pid (with_metrics (λ k. record k { writes = k.writes + 1 })) (λ p. refl) pid
        s.system_memory,
  );
  has = m.has;
}

Touched-write :
    (pid : ℕ) (mem : List ℕ) (s : Storage)
    → length mem ≡ length s.user_memory
    → Touched pid s (add_write pid (record s { user_memory = mem }))
Touched-write pid mem s same = record {
  change = with_metrics (λ k. record k { writes = k.writes + 1 });
  keeps_pid = λ p. refl;
  keeps_bases = λ p. refl;
  entries = refl;
  same_pages = refl;
  same_size = refl;
  same_remaining = refl;
  same_frames = refl;
  same_bits = refl;
  same_swap = refl;
  same_length = same;
}

pub write_bytes-Stored :
    (pid base delta : ℕ) (vs : List ℕ) (s : Storage)
    → MayTouch pid base s
    → base + delta + length vs ≤ length s.user_memory
    → Stored pid base delta vs s
unfolding write_bytes
write_bytes-Stored pid base delta [] s m h = record {
  after = s;
  result = refl;
  memory = refl;
  may = m;
  same_pages = refl;
  same_size = refl;
  touched = Touched-refl pid s;
}
write_bytes-Stored pid base delta (v ∷ vs) s m h =
    let mem = set s.user_memory (base + delta) v in
    let t = add_write pid (record s { user_memory = mem }) in
    let rest =
      write_bytes-Stored pid base (delta + 1) vs t (MayTouch-after pid base mem s m)
        (omega (arith, length-set s.user_memory (base + delta) v)) in
    record {
      after = rest.after;
      result = ground (arith, one_write pid base delta v s m, rest.result);
      memory = rest.memory ∙ ap (λ k. write_at mem k vs) (sym (add_assoc base delta 1));
      may = rest.may;
      same_pages = rest.same_pages;
      same_size = rest.same_size;
      touched =
          Touched-trans pid (Touched-write pid mem s (length-set s.user_memory (base + delta) v))
            rest.touched;
    }

-- A page that WritePage writes whole is what GetPage returns next, for a stored process that has
-- the page, where the page lies inside the memory and the value is as long as a page.
pub get_page-write_page :
    (pid base : ℕ) (p : ProcessData) (value : List ℕ) (s : Storage)
    → get_data_by_pid pid s ≡ some p
    → contains p.page_bases base ≡ true
    → base + s.page_size ≤ length s.user_memory
    → length value ≡ s.page_size
    → value_of ((write_page pid base value >>= λ _. get_page pid base) s) ≡ ok value
unfolding write_page get_page get_data_by_pid
get_page-write_page pid base p value s found has fits len =
    let m : MayTouch pid base s = record { p = p; found = found; has = has } in
    let w = write_bytes-Stored pid base 0 value s m (omega (arith, len)) in
    ground (
      arith,
      found,
      has,
      w.result,
      w.may.found,
      w.may.has,
      w.memory,
      w.same_pages,
      len,
      take-drop-write_at s.user_memory (base + 0) value (omega (arith, len)),
      length-write_at s.user_memory (base + 0) value,
      (let e : base + 0 ≡ base = omega arith in e),
    )

-- A byte that WriteToMemory stores at an offset inside a page of a stored process is what
-- GetFromMemory returns next, where the page lies inside a memory of the configured size.
get_from_memory-write_to_memory :
    (pid base d value : ℕ) (p : ProcessData) (s : Storage)
    → get_data_by_pid pid s ≡ some p
    → contains p.page_bases base ≡ true
    → base + s.page_size ≤ length s.user_memory
    → length s.user_memory ≡ s.memory_size
    → d < s.page_size
    → value_of
        ((write_to_memory pid base (pos d) value >>= λ _. get_from_memory pid base (pos d)) s)
      ≡ ok value
unfolding get_from_memory get_data_by_pid
get_from_memory-write_to_memory pid base d value p s found has fits size small =
    let m : MayTouch pid base s = record { p = p; found = found; has = has } in
    let m' = MayTouch-after pid base (set s.user_memory (base + d) value) s m in
    ground (
      arith,
      one_write pid base d value s m,
      m'.found,
      m'.has,
      get_elem?-set_self s.user_memory (base + d) value,
    )

-- WriteToMemory does not hold the offset against the page size: through a page of one stored
-- process, an offset to a later page of another one is accepted, and the other process reads the
-- byte. The later page lies inside a memory of the configured size, and pages are not empty.
pub write_to_memory_escapes :
    (a b base_a base_b value : ℕ) (pa pb : ProcessData) (s : Storage)
    → get_data_by_pid a s ≡ some pa
    → contains pa.page_bases base_a ≡ true
    → get_data_by_pid b s ≡ some pb
    → contains pb.page_bases base_b ≡ true
    → a ≢ b
    → base_a ≤ base_b
    → 0 < s.page_size
    → base_b + s.page_size ≤ length s.user_memory
    → length s.user_memory ≡ s.memory_size
    → value_of (
        (write_to_memory a base_a (pos (base_b - base_a)) value >>= λ _.
        get_from_memory b base_b (pos 0))
          s)
      ≡ ok value
unfolding get_from_memory get_data_by_pid
write_to_memory_escapes a b base_a base_b value pa pb s found_a has_a found_b has_b other le ps_pos
      fits size =
    let m : MayTouch a base_a s = record { p = pa; found = found_a; has = has_a } in
    let e : base_a + (base_b - base_a) ≡ base_b + 0 = omega arith in
    ground (
      arith,
      one_write a base_a (base_b - base_a) value s m,
      e,
      found_b,
      has_b,
      find_process-update a (with_metrics (λ k. record k { writes = k.writes + 1 })) (λ p. refl) b
          s.system_memory,
      get_elem?-set_self s.user_memory (base_b + 0) value,
    )
