-- ===== src/Memoria/SwapPages.antt =====
-- The lines of a block of the swap file (memoria/storage/storage.go): the loop of UnSuspendProcess
-- reads the numbers that formatSwapData printed.
use tp_sisop_go_utn.Memoria.Swap.{
  all_but_last, fill_bytes, first_chunk, inside_brackets, middle_chunks, show_bytes, to_byte,
}
use tp_sisop_go_utn.Memoria.SwapFile.{body_text, Lacks-itoa, Lacks-show_bytes, lines_text}
use tp_sisop_go_utn.Base.{
  refl, ◌∙◌, set, take, ap, ◌%◌, ◌<◌, length-append, arith, ◌≡◌, some, length, [], suc, ℕ, ◌+◌, ◌-◌,
  List, zero, ◌∷◌, ◌++◌, map, sym, ℤ, Bool, lt→ltb, length-set,
}
use tp_sisop_go_utn.Utils.Strings.{join, split, split-append, split_last, Text}
use tp_sisop_go_utn.Utils.Strconv.{atoi, atoi-itoa, itoa}
use mathlib.Core.List.{append_assoc, append-nil}

-- The values of Go's bytes.
abbrev pub AllBytes : List ℕ → Type 0
AllBytes [] = Unit {0}
AllBytes (b ∷ bs) = (b < 256) × AllBytes bs

split-lines_text :
    (pages : List (List ℕ))
    → split 10 (lines_text pages ++ 126 ∷ []) ≡ map show_bytes pages ++ (126 ∷ []) ∷ []
split-lines_text [] = split_last 10 (126 ∷ []) (omega arith, tt)
split-lines_text (page ∷ pages) =
    ap (split 10) (append_assoc (show_bytes page) (10 ∷ lines_text pages) (126 ∷ []))
    ∙ split-append 10 (show_bytes page) (lines_text pages ++ 126 ∷ [])
        (Lacks-show_bytes 10 page (omega arith))
    ∙ ap (λ (l : List Text). show_bytes page ∷ l) (split-lines_text pages)

-- The chunks of a block: the number of pages, a line for each page, and the separator.
pub split-body_text :
    (pages : List (List ℕ))
    → split 10 (body_text pages ++ 126 ∷ [])
      ≡ itoa (length pages) ∷ (map show_bytes pages ++ (126 ∷ []) ∷ [])
split-body_text pages =
    ap (split 10) (append_assoc (itoa (length pages)) (10 ∷ lines_text pages) (126 ∷ []))
    ∙ split-append 10 (itoa (length pages)) (lines_text pages ++ 126 ∷ [])
        (Lacks-itoa 10 (length pages) (omega arith))
    ∙ ap (λ (l : List Text). itoa (length pages) ∷ l) (split-lines_text pages)

all_but_last-snoc : (l : List Text) (last : Text) → all_but_last (l ++ last ∷ []) ≡ l
all_but_last-snoc [] last = refl
all_but_last-snoc (x ∷ []) last = refl
all_but_last-snoc (x ∷ y ∷ l) last = ap (λ (k : List Text). x ∷ k) (all_but_last-snoc (y ∷ l) last)

middle_chunks-snoc :
    (first : Text) (l : List Text) (last : Text) → middle_chunks (first ∷ (l ++ last ∷ [])) ≡ some l
middle_chunks-snoc first [] last = refl
middle_chunks-snoc first (x ∷ l) last = ap some (all_but_last-snoc (x ∷ l) last)

pub middle_chunks-body_text :
    (pages : List (List ℕ))
    → middle_chunks (split 10 (body_text pages ++ 126 ∷ [])) ≡ some (map show_bytes pages)
middle_chunks-body_text pages =
    ap middle_chunks (split-body_text pages)
    ∙ middle_chunks-snoc (itoa (length pages)) (map show_bytes pages) (126 ∷ [])

pub first_chunk-body_text :
    (pages : List (List ℕ))
    → first_chunk (split 10 (body_text pages ++ 126 ∷ [])) ≡ itoa (length pages)
first_chunk-body_text pages = ap first_chunk (split-body_text pages)

-- The brackets come off again.
take-length_append : (s : Text) (t : Text) → take (length s) (s ++ t) ≡ s
take-length_append [] t = refl
take-length_append (c ∷ s) t = ap (λ (l : Text). c ∷ l) (take-length_append s t)

pub inside_brackets-show_bytes :
    (page : List ℕ) → inside_brackets (show_bytes page) ≡ some (join 32 (map itoa page))
unfolding show_bytes
inside_brackets-show_bytes page =
    let text = join 32 (map itoa page) in
    let len : length (text ++ 93 ∷ []) ≡ length text + 1 = length-append text (93 ∷ []) in
    let cut : suc (length (text ++ 93 ∷ [])) - 2 ≡ length text = omega (arith, len) in
    ground (arith, len, cut, take-length_append text (93 ∷ []))

split-join :
    (x : ℕ) (page : List ℕ) → split 32 (join 32 (map itoa (x ∷ page))) ≡ map itoa (x ∷ page)
unfolding join
split-join x [] = split_last 32 (itoa x) (Lacks-itoa 32 x (omega arith))
split-join x (y ∷ page) =
    split-append 32 (itoa x) (join 32 (map itoa (y ∷ page))) (Lacks-itoa 32 x (omega arith))
    ∙ ap (λ (l : List Text). itoa x ∷ l) (split-join y page)

take-set_next :
    (i : ℕ) (bytes : List ℕ) (b : ℕ)
    → i < length bytes
    → take (i + 1) (set bytes i b) ≡ take i bytes ++ b ∷ []
take-set_next i [] b h = absurd (omega arith)
take-set_next zero (x ∷ bytes) b h = refl
take-set_next (suc i) (x ∷ bytes) b h =
    let e : suc i + 1 ≡ suc (i + 1) = omega arith in
    rw e (ap (λ (l : List ℕ). x ∷ l) (take-set_next i bytes b (omega arith)))

take-all : (i : ℕ) (bytes : List ℕ) → i ≡ length bytes → take i bytes ++ [] ≡ bytes
take-all i bytes len = append-nil (take i bytes) ∙ whole i bytes len
  where
    whole : (i : ℕ) (bytes : List ℕ) → i ≡ length bytes → take i bytes ≡ bytes
    whole zero [] h = refl
    whole (suc i) [] h = refl
    whole zero (x ∷ bytes) h = absurd (omega arith)
    whole (suc i) (x ∷ bytes) h = ap (λ (l : List ℕ). x ∷ l) (whole i bytes (omega arith))

-- The numbers from `i` on fill the slice up.
fill_bytes-map :
    (i : ℕ) (page bytes : List ℕ)
    → i + length page ≡ length bytes
    → AllBytes page
    → fill_bytes i (map itoa page) bytes ≡ some (take i bytes ++ page)
unfolding fill_bytes
fill_bytes-map i [] bytes len small = ap some (sym (take-all i bytes (omega arith)))
fill_bytes-map i (b ∷ page) bytes len small =
    let value : to_byte (atoi (itoa b)).0 ≡ b =
      ap (λ (v : ℤ × Bool). to_byte v.0) (atoi-itoa b (omega (arith, small.0)))
      ∙ (let e : b % 256 ≡ b = omega (arith, small.0) in e) in
    rw (value, lt→ltb i (length bytes) (omega arith))
      (fill_bytes-map (i + 1) page (set bytes i b) (omega (arith, length-set bytes i b)) small.1
        ∙ ap (λ (l : List ℕ). some (l ++ page)) (take-set_next i bytes b (omega arith))
        ∙ ap some (append_assoc (take i bytes) (b ∷ []) page))

-- The slice takes the page, whatever it held.
pub fill_bytes-page :
    (x : ℕ) (page bytes : List ℕ)
    → length (x ∷ page) ≡ length bytes
    → AllBytes (x ∷ page)
    → fill_bytes 0 (split 32 (join 32 (map itoa (x ∷ page)))) bytes ≡ some (x ∷ page)
fill_bytes-page x page bytes len small =
    ap (λ (l : List Text). fill_bytes 0 l bytes) (split-join x page)
    ∙ fill_bytes-map 0 (x ∷ page) bytes (omega arith) small
