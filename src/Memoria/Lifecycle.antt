-- ===== src/Memoria/Lifecycle.antt =====
-- CreateProcess of memoria/storage/storage.go on sound variables.
use tp_sisop_go_utn.Base.{
  pos, ceil_div, ◌≤◌, sym, ◌<◌, ◌++◌, ℕ, inr, ◌⊎◌, ltb, length, Bool-cases, inl, Option-cases, Bool,
  ◌≢◌, arith, List, ◌∷◌, [], refl, ◌≡◌,
}
use tp_sisop_go_utn.Memoria.Allocation.{taken, allocate_memory-Allocated, WholePages}
use tp_sisop_go_utn.Memoria.Process.{new_process, create_process, parse_line, parse_code}
use tp_sisop_go_utn.Memoria.State.{
  not_enough_user_memory, unknown_opcode, too_many_arguments, Error, ProcessData, Storage,
}
use tp_sisop_go_utn.Memoria.Malloc.{}
use native.Mathlib.Decide.{dec_lt}
use native.Mathlib.Nat.{div-eq_of_lt}
use tp_sisop_go_utn.Memoria.Deallocation.{owned_frames-with-Absent, with_}
use tp_sisop_go_utn.Memoria.Invariant.{
  owned_frames-append, owned_frames, DistinctPids-snoc, Absent, IsSound,
}
use tp_sisop_go_utn.Memoria.Ownership.{Owns-append_comm}
use mathlib.Core.List.{append-nil}
use tp_sisop_go_utn.Utils.Codeutils.{op_code_from_string, Instruction}
use tp_sisop_go_utn.Base.Outcome.{fail, done}
use tp_sisop_go_utn.Utils.Strings.{split, Text}

split-ne-nil : (sep : ℕ) (s : Text) → split sep s ≢ []
unfolding split
split-ne-nil sep [] = λ e. cc
split-ne-nil sep (c ∷ s) = ground (arith, split-ne-nil sep s)

parse_line-cases :
    (parts : List Text) (s : Storage)
    → parts ≢ []
    → ((i : Instruction) × (parse_line parts s ≡ done i s))
      ⊎ ((e : Error) × (parse_line parts s ≡ fail e s))
parse_line-cases [] s h = absurd (h refl)
parse_line-cases (name ∷ args) s h = elim (Bool-cases (ltb 2 (length args))) [
  | inl many ↦ inr (too_many_arguments, ground arith)
  | inr few ↦ elim (Option-cases (op_code_from_string name)) [
    | inl e ↦ inr (unknown_opcode, ground arith)
    | inr (o, e) ↦ inl (record { opcode = o; args = args }, ground arith)
  ]
]

-- Reading the code leaves the variables alone, and gives the instructions or an error.
pub parse_code-cases :
    (lines : List Text) (s : Storage)
    → ((code : List Instruction) × (parse_code lines s ≡ done code s))
      ⊎ ((e : Error) × (parse_code lines s ≡ fail e s))
unfolding parse_code
parse_code-cases [] s = inl ([], refl)
parse_code-cases (line ∷ lines) s =
    elim (parse_line-cases (split 32 line) s (split-ne-nil 32 line)) [
      | inr (e, p) ↦ inr (e, ground arith)
      | inl (i, p) ↦ elim (parse_code-cases lines s) [
        | inr (e, q) ↦ inr (e, ground arith)
        | inl (code, q) ↦ inl (i ∷ code, ground arith)
      ]
    ]

adopted_frames :
    (resident : ℕ → Bool) (ps : List ProcessData) (p : ProcessData)
    → Absent p.pid ps
    → owned_frames (with_ p.pid resident) (ps ++ p ∷ []) ≡ owned_frames resident ps ++ p.page_bases
adopted_frames resident ps p absent = ground (
  arith,
  owned_frames-append (with_ p.pid resident) ps (p ∷ []),
  owned_frames-with-Absent resident p.pid ps absent,
  append-nil p.page_bases,
)

-- The frames held become those of a new process.
adopt :
    (held : List ℕ) (resident : ℕ → Bool) (s : Storage) (p : ProcessData)
    → IsSound held resident s
    → Absent p.pid s.system_memory
    → p.page_bases ≡ held
    → IsSound [] (with_ p.pid resident) (record s { system_memory = s.system_memory ++ p ∷ [] })
adopt held resident s p v absent same = record {
  page_pos = v.page_pos;
  numbered = v.numbered;
  memory_length = v.memory_length;
  frames_fit = v.frames_fit;
  accounted = v.accounted;
  owned =
      rw (adopted_frames resident s.system_memory p absent, same)
        (Owns-append_comm s.page_size s.reservation_bits held
          (owned_frames resident s.system_memory) v.owned);
  distinct = DistinctPids-snoc s.system_memory p v.distinct absent;
}

ceil_div_zero : (ps : ℕ) → 0 < ps → ceil_div 0 ps ≡ 0
ceil_div_zero ps h = div-eq_of_lt (omega arith)

-- How CreateProcess ends.
pub data Creation (resident : ℕ → Bool) (s : Storage) (newpid : ℕ) (file : List Text) (size : ℕ)
    : Type 0 where
  too_large :
      s.remaining < size
      → create_process newpid file (pos size) s ≡ fail not_enough_user_memory s
      → Creation resident s newpid file size
  bad_code :
      (e : Error)
      → size ≤ s.remaining
      → parse_code file s ≡ fail e s
      → create_process newpid file (pos size) s ≡ fail e s
      → Creation resident s newpid file size
  created :
      (code : List Instruction) (bases : List ℕ) (t : Storage)
      → size ≤ s.remaining
      → parse_code file s ≡ done code s
      → length bases ≡ ceil_div size s.page_size
      → t.system_memory ≡ s.system_memory ++ new_process newpid code bases ∷ []
      → t.user_memory ≡ s.user_memory
      → IsSound [] (with_ newpid resident) t
      → create_process newpid file (pos size) s ≡ done tt t
      → Creation resident s newpid file size

module _ (resident : ℕ → Bool) (s : Storage) (newpid : ℕ) (file : List Text) (size : ℕ)
    (v : IsSound [] resident s) (whole : WholePages s)
    (absent : Absent newpid s.system_memory) where
  created_empty :
      (code : List Instruction)
      → parse_code file s ≡ done code s
      → size ≡ 0
      → Creation resident s newpid file size
  unfolding create_process
  created_empty code parsed zero_size =
      created code []
        (record s { system_memory = s.system_memory ++ new_process newpid code [] ∷ [] })
        (omega arith) parsed (rw zero_size (sym (ceil_div_zero s.page_size v.page_pos))) refl refl
        (adopt [] resident s (new_process newpid code []) v absent refl) (ground arith)

  created_some :
      (code : List Instruction)
      → parse_code file s ≡ done code s
      → 0 < size
      → size ≤ s.remaining
      → Creation resident s newpid file size
  unfolding create_process
  created_some code parsed size_pos fits =
      let a = allocate_memory-Allocated [] resident s size v whole size_pos fits in
      let p = new_process newpid code a.new in
      created code a.new
        (record (taken s size a.bits) { system_memory = s.system_memory ++ p ∷ [] }) fits parsed
        a.exact refl refl
        (adopt a.new resident (taken s size a.bits) p (rw append-nil at a.sound) absent refl)
        (ground (arith, a.result))

  -- CreateProcess of a pid that is not in use and a size that is not below 0, with sound
  -- variables and a memory of whole pages, never panics. It fails and changes nothing where the
  -- size is more than what is left, or where a line does not parse; otherwise the entry is stored
  -- behind the others with ceil(size / page size) frames, the user memory is the same, and the
  -- variables are sound with the new process resident.
  pub create_process-cases : Creation resident s newpid file size
  unfolding create_process
  create_process-cases = elim (dec_lt s.remaining size) [
    | yes big ↦ too_large big (ground arith)
    | no fits ↦ elim (parse_code-cases file s) [
      | inr (e, parsed) ↦ bad_code e (omega arith) parsed (ground arith)
      | inl (code, parsed) ↦ elim (dec_lt 0 size) [
        | yes some_size ↦ created_some code parsed some_size (omega arith)
        | no empty ↦ created_empty code parsed (omega arith)
      ]
    ]
  ]
