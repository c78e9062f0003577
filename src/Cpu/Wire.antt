-- ===== src/Cpu/Wire.antt =====
-- The requests of cpu/memory/memoryConection.go as the texts that are sent, and what the handlers of
-- memoria/memoria.go read in them. A parameter that is sent stands in the query as it is.
use tp_sisop_go_utn.Memoria.Handlers.{
  full_page_req_handler, memory_dump_req_handler, process_frame_req_handler,
}
use tp_sisop_go_utn.Memoria.Requests.{
  at_base, Body, handler_func, no_body, num_from_query, plain, query_get, Request, respond,
  SimpleResponse, write_page_int,
}
use tp_sisop_go_utn.Memoria.Address.{logic_address_to_frame, string_to_logic_address}
use tp_sisop_go_utn.Memoria.Access.{get_page, has_page, write_page}
use tp_sisop_go_utn.Memoria.Dump.{memory_dump}
use tp_sisop_go_utn.Memoria.State.{Error, find_process, get_data_by_pid, M, ProcessData, Storage}
use tp_sisop_go_utn.Cpu.Memory.{refused, Reply, unreachable}
use tp_sisop_go_utn.Cpu.Serving.{reply_of}
use tp_sisop_go_utn.Utils.Strconv.{
  as_int, as_int-lt, atoi, atoi-itoa-as_int, atoi-itoa_any, IsDigits, itoa, itoa-IsDigits,
}
use tp_sisop_go_utn.Utils.Strings.{eq_text, join, Lacks, split, split-append, split_last, Text}
use tp_sisop_go_utn.Utils.Codeutils.{codes}
use tp_sisop_go_utn.Base.Outcome.{done, fail, Outcome, panic, ◌>>=◌}
use tp_sisop_go_utn.Base.{
  Bool-cases, inl, inr, ltb, ◌==◌, ◌≡◌, ◌^◌, ◌∙◌, ◌∷◌, [], ap, arith, Bool, false, if◌then◌else◌,
  List, map, negsuc, none, Option, pos, refl, some, to_uint, true, ℕ, ℤ,
}

-- fromLogicAddrToString
unfoldable pub from_logic_addr_to_string : List ℕ → Text
unfolding itoa join
from_logic_addr_to_string logic_addr = join 124 (map itoa logic_addr)

-- The requests of findFrameInMemory, GetPageInMemory, SavePageInMemory and MandarDumpMemory.
unfoldable pub frame_request : ℕ → List ℕ → Request
frame_request pid page = record {
  method = codes "GET";
  params = (codes "pid", itoa pid) ∷ (codes "address", from_logic_addr_to_string page) ∷ [];
  body = [];
}

unfoldable pub page_request : Text → ℕ → ℕ → List ℕ → Request
page_request method pid base body = record {
  method = method;
  params = (codes "pid", itoa pid) ∷ (codes "base", itoa base) ∷ [];
  body = body;
}

unfoldable pub dump_request : ℕ → Request
dump_request pid = record {
  method = codes "POST";
  params = (codes "pid", itoa pid) ∷ [];
  body = [];
}

-- What the CPU reads in the body of a response: strconv.Atoi for a frame, the bytes of a page.
abbrev pub as_frame : ℤ × Bool → Option ℕ
as_frame (pos n, true) = some n
as_frame (pos n, false) = none
as_frame (negsuc n, b) = none

abbrev pub frame_in : Body → Option ℕ
frame_in (plain text) = as_frame (atoi text)
frame_in _ = none

abbrev pub page_in : Body → Option (List ℕ)
page_in (plain bytes) = some bytes
page_in _ = none

abbrev pub nothing_in : Body → Option (Unit {0})
nothing_in _ = some tt

-- What the CPU makes of a response: its status is asked first. net/http closes the connection where
-- a handler panics.
abbrev pub reply_to :
    {A : Type 0} → (Body → Option A) → Outcome Error Storage SimpleResponse → Reply A
reply_to decode (done r t) = if r.status == 200 then reply_of (decode r.body) else refused
reply_to decode (fail e t) = refused
reply_to decode panic = unreachable

-- The entries of an address, as the memory program reads them.
abbrev pub received_entries : List ℕ → List ℤ
received_entries page = string_to_logic_address (from_logic_addr_to_string page)

pid_back : (pid : ℕ) → to_uint (atoi (itoa pid)).0 ≡ as_int pid
pid_back pid = rw (atoi-itoa-as_int pid) (ground (arith, as_int-lt pid))

-- What the endpoints do with the requests of the CPU.
pub frame_requested :
    (pid : ℕ) (page : List ℕ)
    → handler_func process_frame_req_handler (frame_request pid page)
      ≡ respond 400
          (λ base. plain (itoa base))
          (logic_address_to_frame (as_int pid) (received_entries page))
unfolding handler_func process_frame_req_handler frame_request num_from_query query_get eq_text
frame_requested pid page =
    ap
      (λ p.
        respond 400 (λ base. plain (itoa base)) (logic_address_to_frame p (received_entries page)))
      (pid_back pid)

abbrev pub checked_page : ℕ → ℕ → M (List ℕ)
checked_page pid base = do _ ← has_page pid base; get_page pid base

pub page_requested :
    (pid base : ℕ)
    → handler_func full_page_req_handler (page_request (codes "GET") pid base [])
      ≡ respond 400 plain (checked_page (as_int pid) (as_int base))
unfolding handler_func full_page_req_handler page_request num_from_query query_get eq_text
page_requested pid base =
    ap (λ p. respond 400 plain (at_base p (atoi (itoa base)).0 (λ b. checked_page p b)))
      (pid_back pid)
    ∙ ap (λ b. respond 400 plain (at_base (as_int pid) b (λ b. checked_page (as_int pid) b)))
        (atoi-itoa-as_int base)

pub save_requested :
    (pid base : ℕ) (page : List ℕ)
    → handler_func full_page_req_handler (page_request (codes "POST") pid base page)
      ≡ respond 400 no_body (write_page (as_int pid) (as_int base) page)
unfolding handler_func full_page_req_handler page_request num_from_query query_get eq_text
save_requested pid base page =
    ap (λ p. respond 400 no_body (write_page_int p (atoi (itoa base)).0 page)) (pid_back pid)
    ∙ ap (λ b. respond 400 no_body (write_page_int (as_int pid) b page)) (atoi-itoa-as_int base)

pub dump_requested :
    (created : Bool) (pid : ℕ)
    → handler_func (memory_dump_req_handler created) (dump_request pid)
      ≡ respond 502 no_body (memory_dump created (as_int pid))
unfolding handler_func memory_dump_req_handler dump_request num_from_query query_get eq_text
dump_requested created pid = ap (λ p. respond 502 no_body (memory_dump created p)) (pid_back pid)

-- GetPage asks HasPage itself.
pub get_page_checked : (pid base : ℕ) (s : Storage) → checked_page pid base s ≡ get_page pid base s
unfolding get_page has_page get_data_by_pid
get_page_checked pid base s = by_process (find_process pid s.system_memory) refl
  where
    by_process :
        (o : Option ProcessData)
        → find_process pid s.system_memory ≡ o
        → checked_page pid base s ≡ get_page pid base s
    by_process none e = ground (arith, e)
    by_process (some p) e = ground (arith, e)

IsDigits-Lacks : (s : Text) → IsDigits s → Lacks 124 s
IsDigits-Lacks [] h = tt
IsDigits-Lacks (c ∷ s) h = ((λ e. absurd (omega (arith, h.0, h.1, e))), IsDigits-Lacks s h.2)

-- The entries that arrive: an address without entries is the empty text, which is read as one entry
-- 0.
abbrev pub as_entries : List ℕ → List ℤ
as_entries [] = pos 0 ∷ []
as_entries (d ∷ ds) = pos (as_int d) ∷ map (λ e. pos (as_int e)) ds

received_entries-nil : received_entries [] ≡ pos 0 ∷ []
unfolding from_logic_addr_to_string string_to_logic_address split atoi
received_entries-nil = refl

pub received_entries-as_entries : (page : List ℕ) → received_entries page ≡ as_entries page
unfolding from_logic_addr_to_string string_to_logic_address
received_entries-as_entries [] = received_entries-nil
received_entries-as_entries (d ∷ []) =
    rw (split_last 124 (itoa d) (IsDigits-Lacks (itoa d) (itoa-IsDigits d)), atoi-itoa-as_int d)
      refl
received_entries-as_entries (d ∷ e ∷ ds) =
    rw
      (
        split-append 124 (itoa d) (from_logic_addr_to_string (e ∷ ds))
            (IsDigits-Lacks (itoa d) (itoa-IsDigits d)),
        atoi-itoa-as_int d,
        received_entries-as_entries (e ∷ ds),
      )
      refl

-- A frame is refused where Atoi reports that it is no int.
abbrev pub as_answer : ℕ → Option ℕ
as_answer base = if ltb base (2 ^ 63) then some base else none

pub as_frame-itoa : (base : ℕ) → as_frame (atoi (itoa base)) ≡ as_answer base
as_frame-itoa base = elim (Bool-cases (ltb base (2 ^ 63))) [
  | inl small ↦ rw (atoi-itoa_any base, small) refl
  | inr large ↦ rw (atoi-itoa_any base, large) refl
]
