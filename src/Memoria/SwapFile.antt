-- ===== src/Memoria/SwapFile.antt =====
-- The text of the swap file (memoria/storage/storage.go) as a list of blocks: what formatSwapData
-- writes is what getFromSwap finds and removeFromSwap takes out.
use tp_sisop_go_utn.Memoria.Swap.{copy_others, find_block, read_string, show_bytes}
use tp_sisop_go_utn.Base.{
  ◌≤◌, ◌⊎◌, sym, refl, ◌∙◌, ap, ◌%◌, ◌<◌, none, Option, ◌≢◌, length-append, arith, ◌≡◌,
  if◌then◌else◌, some, length, [], suc, ℕ, ◌+◌, List, zero, ◌∷◌, ◌==◌, ◌++◌, ◌^◌, to_uint, map,
  Bool-cases, inl, inr,
}
use tp_sisop_go_utn.Utils.Strings.{join, Lacks, Text}
use tp_sisop_go_utn.Utils.Strconv.{atoi, atoi-itoa, IsDigits, itoa, itoa-IsDigits}
use tp_sisop_go_utn.Memoria.State.{end_of_file, Storage}
use tp_sisop_go_utn.Base.Outcome.{done, fail, ◌>>=◌}
use mathlib.Core.List.{append_assoc}

-- A block of the file: a pid and its pages.
abbrev pub SwapBlock : Type 0
SwapBlock = ℕ × List (List ℕ)

abbrev pub lines_text : List (List ℕ) → Text
lines_text [] = []
lines_text (page ∷ pages) = show_bytes page ++ 10 ∷ lines_text pages

abbrev pub body_text : List (List ℕ) → Text
body_text pages = itoa (length pages) ++ 10 ∷ lines_text pages

abbrev pub file_text : List SwapBlock → Text
file_text [] = []
file_text ((pid, pages) ∷ blocks) =
    itoa pid ++ 124 ∷ (body_text pages ++ 126 ∷ 10 ∷ file_text blocks)

-- The first block of a pid, and the file without it.
abbrev pub swapped : ℕ → List SwapBlock → Option (List (List ℕ))
swapped pid [] = none
swapped pid ((i, pages) ∷ blocks) = if i == pid then some pages else swapped pid blocks

abbrev pub unswapped : ℕ → List SwapBlock → List SwapBlock
unswapped pid [] = []
unswapped pid ((i, pages) ∷ blocks) = if i == pid then blocks else (i, pages) ∷ unswapped pid blocks

-- The pids fit into an int.
abbrev pub IntPids : List SwapBlock → Type 0
IntPids [] = Unit {0}
IntPids ((pid, pages) ∷ blocks) = (pid < 2 ^ 63) × IntPids blocks

pub file_text-append :
    (blocks : List SwapBlock) (pid : ℕ) (pages : List (List ℕ))
    → file_text blocks ++ (itoa pid ++ 124 ∷ (body_text pages ++ 126 ∷ 10 ∷ []))
      ≡ file_text (blocks ++ (pid, pages) ∷ [])
file_text-append [] pid pages = refl
file_text-append ((i, old) ∷ blocks) pid pages =
    append_assoc (itoa i) (124 ∷ (body_text old ++ 126 ∷ 10 ∷ file_text blocks)) _
    ∙ ap (λ (t : Text). itoa i ++ 124 ∷ t)
        (append_assoc (body_text old) (126 ∷ 10 ∷ file_text blocks) _
          ∙ ap (λ (t : Text). body_text old ++ 126 ∷ 10 ∷ t) (file_text-append blocks pid pages))

-- What no part of a block has.
Lacks-append : (sep : ℕ) (s t : Text) → Lacks sep s → Lacks sep t → Lacks sep (s ++ t)
Lacks-append sep [] t h k = k
Lacks-append sep (c ∷ s) t h k = (h.0, Lacks-append sep s t h.1 k)

Lacks-digits : (sep : ℕ) (s : Text) → (sep < 48) ⊎ (57 < sep) → IsDigits s → Lacks sep s
Lacks-digits sep [] out h = tt
Lacks-digits sep (c ∷ s) out h = (omega arith, Lacks-digits sep s out h.2)

pub Lacks-itoa : (sep n : ℕ) → (sep < 48) ⊎ (57 < sep) → Lacks sep (itoa n)
Lacks-itoa sep n out = Lacks-digits sep (itoa n) out (itoa-IsDigits n)

Lacks-numbers :
    (sep : ℕ) (page : List ℕ)
    → sep ≢ 32
    → (sep < 48) ⊎ (57 < sep)
    → Lacks sep (join 32 (map itoa page))
unfolding join
Lacks-numbers sep [] other out = tt
Lacks-numbers sep (x ∷ []) other out = Lacks-itoa sep x out
Lacks-numbers sep (x ∷ y ∷ page) other out =
    Lacks-append sep (itoa x) _ (Lacks-itoa sep x out)
      (λ e. other (sym e), Lacks-numbers sep (y ∷ page) other out)

-- A line has no byte but digits, spaces and brackets.
pub Lacks-show_bytes :
    (sep : ℕ) (page : List ℕ) → (sep < 32) ⊎ (93 < sep) → Lacks sep (show_bytes page)
unfolding show_bytes
Lacks-show_bytes sep page out = (
  omega arith,
  Lacks-append sep (join 32 (map itoa page)) (93 ∷ [])
      (Lacks-numbers sep page (omega arith) (omega arith)) (omega arith, tt),
)

Lacks-lines_text : (pages : List (List ℕ)) → Lacks 126 (lines_text pages)
Lacks-lines_text [] = tt
Lacks-lines_text (page ∷ pages) =
    Lacks-append 126 (show_bytes page) _ (Lacks-show_bytes 126 page (omega arith))
      (omega arith, Lacks-lines_text pages)

Lacks-body_text : (pages : List (List ℕ)) → Lacks 126 (body_text pages)
Lacks-body_text pages =
    Lacks-append 126 (itoa (length pages)) _ (Lacks-itoa 126 (length pages) (omega arith))
      (omega arith, Lacks-lines_text pages)

read_string-append :
    (delim : ℕ) (s t : Text) → Lacks delim s → read_string delim (s ++ delim ∷ t) ≡ some (s, t)
unfolding read_string
read_string-append delim [] t h = ground arith
read_string-append delim (c ∷ s) t h = ground (arith, read_string-append delim s t h.1)

read_uint : (n : ℕ) → n < 2 ^ 63 → to_uint (atoi (itoa n)).0 ≡ n
read_uint n h = let e : n % 2 ^ 64 ≡ n = omega arith in rw (atoi-itoa n h) e

-- The header of a block, and its body.
read_header : (pid : ℕ) (t : Text) → read_string 124 (itoa pid ++ 124 ∷ t) ≡ some (itoa pid, t)
read_header pid t = read_string-append 124 (itoa pid) t (Lacks-itoa 124 pid (omega arith))

read_body :
    (pages : List (List ℕ)) (t : Text)
    → read_string 126 (body_text pages ++ 126 ∷ t) ≡ some (body_text pages, t)
read_body pages t = read_string-append 126 (body_text pages) t (Lacks-body_text pages)

-- The blocks behind the first one take three bytes less.
file_text-shorter :
    (pid : ℕ) (pages : List (List ℕ)) (blocks : List SwapBlock)
    → length (file_text blocks) + 3 ≤ length (file_text ((pid, pages) ∷ blocks))
file_text-shorter pid pages blocks = omega (
  arith,
  length-append (itoa pid) (124 ∷ (body_text pages ++ 126 ∷ 10 ∷ file_text blocks)),
  length-append (body_text pages) (126 ∷ 10 ∷ file_text blocks),
)

-- getFromSwap finds the first block of the pid.
pub find_block-file_text :
    (fuel pid : ℕ) (blocks : List SwapBlock) (pages : List (List ℕ)) (s : Storage)
    → length (file_text blocks) < fuel
    → IntPids blocks
    → swapped pid blocks ≡ some pages
    → find_block fuel pid (file_text blocks) s ≡ done (body_text pages ++ 126 ∷ []) s
unfolding find_block
find_block-file_text zero pid blocks pages s enough small found = absurd (omega arith)
find_block-file_text (suc fuel) pid [] pages s enough small found = absurd (cc)
find_block-file_text (suc fuel) pid ((i, old) ∷ blocks) pages s enough small found =
    let tail_ = 10 ∷ file_text blocks in
    let header = read_header i (body_text old ++ 126 ∷ tail_) in
    elim (Bool-cases (i == pid)) [
      | inl here ↦
          rw
            (
              header,
              ◌>>=◌,
              atoi-itoa i small.0,
              ◌>>=◌,
              read_body old tail_,
              read_uint i small.0,
              here,
            )
            (ground (arith, here, found))
      | inr other ↦
          rw
            (
              header,
              ◌>>=◌,
              atoi-itoa i small.0,
              ◌>>=◌,
              read_body old tail_,
              read_uint i small.0,
              other,
            )
            (find_block-file_text fuel pid blocks pages s
              (omega (arith, file_text-shorter i old blocks)) small.1
              (ground (arith, other, found)))
    ]

-- A pid without a block is not found.
pub find_block-none :
    (fuel pid : ℕ) (blocks : List SwapBlock) (s : Storage)
    → length (file_text blocks) < fuel
    → IntPids blocks
    → swapped pid blocks ≡ none
    → find_block fuel pid (file_text blocks) s ≡ fail end_of_file s
unfolding find_block
find_block-none zero pid blocks s enough small absent = absurd (omega arith)
find_block-none (suc fuel) pid [] s enough small absent = refl
find_block-none (suc fuel) pid ((i, old) ∷ blocks) s enough small absent =
    let tail_ = 10 ∷ file_text blocks in
    let header = read_header i (body_text old ++ 126 ∷ tail_) in
    elim (Bool-cases (i == pid)) [
      | inl here ↦ absurd (ground (arith, here, absent))
      | inr other ↦
          rw
            (
              header,
              ◌>>=◌,
              atoi-itoa i small.0,
              ◌>>=◌,
              read_body old tail_,
              read_uint i small.0,
              other,
            )
            (find_block-none fuel pid blocks s (omega (arith, file_text-shorter i old blocks))
              small.1 (ground (arith, other, absent)))
    ]

-- removeFromSwap copies all blocks but the first of the pid.
pub copy_others-file_text :
    (fuel pid : ℕ) (blocks : List SwapBlock) (pages : List (List ℕ)) (s : Storage)
    → length (file_text blocks) < fuel
    → IntPids blocks
    → swapped pid blocks ≡ some pages
    → copy_others fuel pid (file_text blocks) s ≡ done (file_text (unswapped pid blocks)) s
unfolding copy_others
copy_others-file_text zero pid blocks pages s enough small found = absurd (omega arith)
copy_others-file_text (suc fuel) pid [] pages s enough small found = absurd (cc)
copy_others-file_text (suc fuel) pid ((i, old) ∷ blocks) pages s enough small found =
    let tail_ = 10 ∷ file_text blocks in
    let header = read_header i (body_text old ++ 126 ∷ tail_) in
    elim (Bool-cases (i == pid)) [
      | inl here ↦
          rw
            (
              header,
              ◌>>=◌,
              atoi-itoa i small.0,
              ◌>>=◌,
              read_body old tail_,
              read_uint i small.0,
              here,
            )
            refl
      | inr other ↦
          let rest =
            copy_others-file_text fuel pid blocks pages s
              (omega (arith, file_text-shorter i old blocks)) small.1
              (ground (arith, other, found)) in
          rw
            (
              header,
              ◌>>=◌,
              atoi-itoa i small.0,
              ◌>>=◌,
              read_body old tail_,
              read_uint i small.0,
              other,
            )
            (rw (rest, ◌>>=◌) refl)
    ]
