-- ===== src/Memoria/Swap.antt =====
-- memoria/storage/storage.go, "SWAP": the swap file, SuspendProcess and UnSuspendProcess. The text
-- of the file is the variable `swap`, and a reader of it is the text that it has not read yet.
use tp_sisop_go_utn.Base.Outcome.{
  crash, done, fail, panic, ◌>>=◌, ◌>>◌, pure, get, modify, fail_if, or_fail, or_panic, throw,
}
use tp_sisop_go_utn.Memoria.State.{
  end_of_file, Error, get_data_by_pid, M, no_such_process, no_swap_file, no_temp_file, not_a_number,
  not_in_swap, ProcessData, with_metrics, with_process,
}
use tp_sisop_go_utn.Memoria.Malloc.{allocate_memory, deallocate_memory}
use tp_sisop_go_utn.Memoria.Access.{get_page, write_page}
use tp_sisop_go_utn.Utils.Strings.{join, split, Text}
use tp_sisop_go_utn.Utils.Strconv.{atoi, itoa}
use tp_sisop_go_utn.Base.{
  [], replicate, tail, none, drop, set, take, ◌%◌, ltb, some, length, zero, ◌+◌, ◌==◌, ◌*◌, ◌-◌,
  ◌++◌, if◌then◌else◌, negsuc, not, leb, suc, to_uint, pos, ◌∷◌, Bool, List, ℕ, ℤ, Option, map,
}

-- What the file system allows: to open the swap file for appending (it is created where there is
-- none), to create a temporary file beside it, and to rename that. What is opened can be read and
-- written.
pub record Files : Type 0 where
  pub appends : Bool
  pub creates_temp : Bool
  pub renames : Bool

-- A call whose error is not looked at.
abbrev pub attempt : {A : Type 0} → M A → M (Option A)
attempt m s = elim (m s) [ done a t ↦ done (some a) t | fail e t ↦ done none t | panic ↦ panic ]

-- fmt.Sprint of a []byte: the numbers in brackets.
unfoldable pub show_bytes : List ℕ → Text
show_bytes page = 91 ∷ (join 32 (map itoa page) ++ 93 ∷ [])

abbrev pub add_line : List ℕ → Option Text → Option Text
add_line page none = none
add_line page (some text) = some (show_bytes page ++ 10 ∷ text)

-- The loop of formatSwapData: one line for each page. A page that GetPage refuses ends it.
unfoldable pub format_pages : ℕ → List ℕ → M (Option Text)
format_pages pid [] = pure (some [])
format_pages pid (base ∷ bases) = do
  bytes ← attempt (get_page pid base)
  elim bytes [
    | none ↦ pure none
    | some page ↦ (do rest ← format_pages pid bases; pure (add_line page rest))
  ]

abbrev pub block_text : ℕ → ℕ → Option Text → Text
block_text pid n none = []
block_text pid n (some lines) = itoa pid ++ 124 ∷ ((itoa n ++ 10 ∷ lines) ++ 126 ∷ 10 ∷ [])

-- formatSwapData
unfoldable pub format_swap_data : ProcessData → M Text
unfolding format_pages
format_swap_data data_ = do
  lines ← format_pages data_.pid data_.page_bases
  pure (block_text data_.pid (length data_.page_bases) lines)

abbrev pub text_of : Option Text → Text
text_of none = []
text_of (some text) = text

-- addToSwap
unfoldable pub add_to_swap : Files → ProcessData → M (Unit {0})
unfolding format_swap_data
add_to_swap files data_ = do
  fail_if (not files.appends) no_swap_file
  msg ← format_swap_data data_
  modify (λ s. record s { swap = some (text_of s.swap ++ msg) })

abbrev pub after_byte : ℕ → Option (Text × Text) → Option (Text × Text)
after_byte c none = none
after_byte c (some (read, rest)) = some (c ∷ read, rest)

-- ReadString: what stands before the delimiter, which is left out here, and the rest; `none` is
-- io.EOF.
unfoldable pub read_string : ℕ → Text → Option (Text × Text)
read_string delim [] = none
read_string delim (c ∷ r) = if c == delim then some ([], r) else after_byte c (read_string delim r)

abbrev pub number_or_fail : ℤ × Bool → M ℤ
number_or_fail (n, ok) = do fail_if (not ok) not_a_number; pure n

-- numberFromReader
unfoldable pub number_from_reader : ℕ → Text → M (ℤ × Text)
unfolding read_string
number_from_reader delim r = do
  (value, rest) ← or_fail (read_string delim r) end_of_file
  n ← number_or_fail (atoi value)
  pure (n, rest)

-- reader.Discard(1)
abbrev pub discard : Text → Option Text
discard [] = none
discard (c ∷ r) = some r

-- The loop of getFromSwap. A round reads two bytes at least, so that fuel above the length of the
-- text does not run out.
unfoldable pub find_block : ℕ → ℕ → Text → M Text
unfolding number_from_reader
find_block zero pid r = throw end_of_file
find_block (suc fuel) pid r = do
  (h_pid, after_pid) ← number_from_reader 124 r
  (block, rest) ← or_fail (read_string 126 after_pid) end_of_file
  (if to_uint h_pid == pid
      then pure (block ++ 126 ∷ [])
      else do next ← or_fail (discard rest) end_of_file; find_block fuel pid next)

-- getFromSwap
unfoldable pub get_from_swap : ℕ → M Text
unfolding find_block
get_from_swap pid = do
  s ← get
  text ← or_fail s.swap no_swap_file
  find_block (suc (length text)) pid text

-- The loop of removeFromSwap: what the temporary file gets. The error of Discard is not looked at.
unfoldable pub copy_others : ℕ → ℕ → Text → M Text
unfolding read_string
copy_others zero pid r = throw end_of_file
copy_others (suc fuel) pid r = do
  (h_s_pid, after_pid) ← or_fail (read_string 124 r) end_of_file
  h_pid ← number_or_fail (atoi h_s_pid)
  (s_block, rest) ← or_fail (read_string 126 after_pid) end_of_file
  (if to_uint h_pid == pid then pure (tail rest) else do
    others ← copy_others fuel pid (tail rest)
    pure (h_s_pid ++ 124 ∷ (s_block ++ 126 ∷ 10 ∷ others)))

-- removeFromSwap
unfoldable pub remove_from_swap : Files → ℕ → M (Unit {0})
unfolding copy_others
remove_from_swap files pid = do
  s ← get
  text ← or_fail s.swap no_swap_file
  fail_if (not files.creates_temp) no_temp_file
  others ← copy_others (suc (length text)) pid text
  modify (λ t. record t { swap = if files.renames then some others else t.swap })

-- SuspendProcess. The process keeps its list of bases.
abbrev pub swap_out : Files → ProcessData → ℕ → M (Unit {0})
swap_out files p pid = do
  add_to_swap files p
  deallocate_memory pid
  modify (with_process pid (with_metrics (λ m. record m { suspensions = m.suspensions + 1 })))

unfoldable pub suspend_process : Files → ℕ → M (Unit {0})
unfolding add_to_swap
suspend_process files pid = do
  s ← get
  p ← or_fail (get_data_by_pid pid s) no_such_process
  if length p.page_bases == 0 then pure tt else swap_out files p pid

-- byte(i) of an int.
abbrev pub to_byte : ℤ → ℕ
to_byte (pos n) = n % 256
to_byte (negsuc n) = 255 - n % 256

-- The loop over the numbers of a page, into a slice of a page's length.
unfoldable pub fill_bytes : ℕ → List Text → List ℕ → Option (List ℕ)
fill_bytes i [] bytes = some bytes
fill_bytes i (char ∷ chars) bytes =
    let rest = fill_bytes (i + 1) chars (set bytes i (to_byte (atoi char).0)) in
    if ltb i (length bytes) then rest else none

-- page_str[1:len(page_str)-1]
abbrev pub inside_brackets : Text → Option Text
inside_brackets text =
    if leb 2 (length text) then some (take (length text - 2) (drop 1 text)) else none

-- The loop over the new bases. All pages go through one slice, and WritePage's error is dropped.
unfoldable pub restore_pages : ℕ → List ℕ → List Text → List ℕ → M (Unit {0})
unfolding fill_bytes
restore_pages pid [] chunks bytes = pure tt
restore_pages pid (base ∷ bases) [] bytes = crash
restore_pages pid (base ∷ bases) (page_str ∷ chunks) bytes = do
  numbers ← or_panic (inside_brackets page_str)
  page ← or_panic (fill_bytes 0 (split 32 numbers) bytes)
  _ ← attempt (write_page pid base page)
  restore_pages pid bases chunks page

-- An error io.EOF becomes another one.
abbrev pub unless_eof : Error → Error
unless_eof end_of_file = not_in_swap
unless_eof e = e

abbrev pub in_swap : M Text → M Text
in_swap m s = elim (m s) [
  | done text t ↦ done text t
  | fail e t ↦ fail (unless_eof e) t
  | panic ↦ panic
]

-- allocateMemory of so many pages; the slice of a negative length panics.
abbrev pub allocate_pages : ℤ → M (List ℕ)
allocate_pages (negsuc n) = crash
allocate_pages (pos n) = do s ← get; allocate_memory (s.page_size * n)

-- chunks[0], and chunks[1:len(chunks)-1].
abbrev pub first_chunk : List Text → Text
first_chunk [] = []
first_chunk (chunk ∷ chunks) = chunk

abbrev pub all_but_last : List Text → List Text
all_but_last [] = []
all_but_last (chunk ∷ []) = []
all_but_last (chunk ∷ next ∷ chunks) = chunk ∷ all_but_last (next ∷ chunks)

abbrev pub middle_chunks : List Text → Option (List Text)
middle_chunks [] = none
middle_chunks (chunk ∷ []) = none
middle_chunks (chunk ∷ next ∷ chunks) = some (all_but_last (next ∷ chunks))

-- UnSuspendProcess
abbrev pub swap_in : Files → ℕ → M (Unit {0})
swap_in files pid = do
  swap_block ← in_swap (get_from_swap pid)
  bases ← allocate_pages (atoi (first_chunk (split 10 swap_block))).0
  remove_from_swap files pid
  modify (with_process pid (λ p. record p { page_bases = bases }))
  pages ← or_panic (middle_chunks (split 10 swap_block))
  s ← get
  restore_pages pid bases pages (replicate s.page_size 0)
  modify (with_process pid (with_metrics (λ m. record m { unsuspensions = m.unsuspensions + 1 })))

unfoldable pub unsuspend_process : Files → ℕ → M (Unit {0})
unfolding get_from_swap remove_from_swap restore_pages
unsuspend_process files pid = do
  s ← get
  p ← or_fail (get_data_by_pid pid s) no_such_process
  if length p.page_bases == 0 then pure tt else swap_in files pid
