-- ===== src/Memoria/Dump.antt =====
-- memoria/storage/storage.go, "MEMORY DUMP", with the printing of a process: the text of a dump.
use tp_sisop_go_utn.Base.Outcome.{
  ok, value_of, Result, ◌>>=◌, ◌>>◌, get, pure, or_fail, fail_if, or_panic,
}
use tp_sisop_go_utn.Memoria.State.{
  Error, get_data_by_pid, M, Storage, no_such_process, page_base_not_valid, dump_not_created,
}
use tp_sisop_go_utn.Utils.Codeutils.{codes}
use tp_sisop_go_utn.Memoria.Access.{contains}
use tp_sisop_go_utn.Utils.Strconv.{itoa}
use tp_sisop_go_utn.Utils.Strings.{Text}
use tp_sisop_go_utn.Base.{
  ◌-◌, leb, length, Bool, ◌+◌, List, [], replicate, not, ◌==◌, if◌then◌else◌, ◌%◌, drop, ltb, none,
  ◌∷◌, ℕ, some, ◌++◌, take, ◌/◌,
}

-- pageToByteArray
unfoldable pub page_to_byte_array : ℕ → M (List ℕ)
unfolding contains
page_to_byte_array page_base = do
  s ← get
  fail_if (not (contains s.frame_bases page_base)) page_base_not_valid
  or_panic (
      if leb (page_base + s.page_size) (length s.user_memory)
      then some (take s.page_size (drop page_base s.user_memory))
      else none)

-- `string(val)` of a byte: the UTF-8 of that code point; and the sign for a zero byte.
abbrev byte_text : ℕ → Text
byte_text val =
    if val == 0
    then 203 ∷ 189 ∷ []
    else if ltb val 128
    then val ∷ []
    else (192 + val / 64) ∷ (128 + val % 64) ∷ []

abbrev bytes_text : List ℕ → Text
bytes_text [] = []
bytes_text (val ∷ vals) = byte_text val ++ bytes_text vals

abbrev page_text : Result Error (List ℕ) → Text
page_text (ok page) = codes "[" ++ (bytes_text page ++ codes "]\n")
page_text _ = codes "Error reading page. page base not valid"

-- pageToString, which only reads. A page that ends beyond the memory is a panic, as above.
unfoldable pub page_to_string : ℕ → Storage → Text
unfolding page_to_byte_array
page_to_string page_base s = page_text (value_of (page_to_byte_array page_base s))

-- strings.Repeat(" ", max(0, width-len(text))) + text
abbrev padded : ℕ → Text → Text
padded width text = replicate (width - length text) b' ' ++ text

-- The loop of Memory_Dump over the pages of the process.
unfoldable pub dump_pages : ℕ → List ℕ → Storage → Text
unfolding page_to_string itoa
dump_pages i [] s = []
dump_pages i (base ∷ bases) s =
    codes "| "
    ++ (padded 5 (itoa i)
        ++ (codes " | "
            ++ (padded 6 (itoa base)
                ++ (codes " | " ++ (page_to_string base s ++ dump_pages (i + 1) bases s)))))

-- Memory_Dump: the rows of the pages that the file gets. `created` says whether it can be created.
unfoldable pub memory_dump : Bool → ℕ → M Text
unfolding dump_pages
memory_dump created pid = do
  s ← get
  p ← or_fail (get_data_by_pid pid s) no_such_process
  fail_if (not created) dump_not_created
  pure (dump_pages 0 p.page_bases s)
