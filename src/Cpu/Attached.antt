-- ===== src/Cpu/Attached.antt =====
-- The memory program that the CPU asks (cpu/memory/memoryConection.go), as the storage of
-- memoria/storage/storage.go behind the endpoints of memoria/memoria.go: a status 200 where the
-- operation returns, another one where it fails, and a connection that breaks where it panics.
use tp_sisop_go_utn.Memoria.Writes.{Moves, write_page-Moves, write_page-over}
use tp_sisop_go_utn.Memoria.Reads.{
  bases_of, framed, logic_address_to_frame-Reads, paged, Reads, Still,
}
use tp_sisop_go_utn.Memoria.PageReads.{
  bases_of-Touched, get_page-Reads, Inside, Inside-Touched, memory_dump-Reads,
}
use tp_sisop_go_utn.Memoria.Touched.{Touched}
use tp_sisop_go_utn.Memoria.Access.{write_page}
use tp_sisop_go_utn.Memoria.Address.{logic_address_to_frame}
use tp_sisop_go_utn.Memoria.Dump.{memory_dump}
use tp_sisop_go_utn.Memoria.State.{Error, M, Storage}
use tp_sisop_go_utn.Cpu.Memory.{MemoryProgram, Reply, unreachable}
use tp_sisop_go_utn.Cpu.Serving.{reply_of, Serves}
use tp_sisop_go_utn.Cpu.Wire.{
  as_answer, as_entries, as_frame, as_frame-itoa, checked_page, dump_request, dump_requested,
  frame_in, frame_request, frame_requested, get_page_checked, nothing_in, page_in, page_request,
  page_requested, received_entries, received_entries-as_entries, reply_to, save_requested,
}
use tp_sisop_go_utn.Memoria.Handlers.{
  full_page_req_handler, memory_dump_req_handler, process_frame_req_handler,
}
use tp_sisop_go_utn.Memoria.Requests.{Body, handler_func, no_body, plain, respond, SimpleResponse}
use tp_sisop_go_utn.Utils.Strconv.{as_int, atoi, itoa}
use tp_sisop_go_utn.Utils.Codeutils.{codes}
use tp_sisop_go_utn.Utils.Strings.{Text}
use tp_sisop_go_utn.Base.Outcome.{done, fail, Outcome, panic}
use tp_sisop_go_utn.Base.{
  ◌==◌, ◌≡◌, ◌≢◌, ◌∙◌, [], ap, Bool, Bool-cases, false, inl, inr, List, none, Option, refl, some, ℕ,
}
use mathlib.Core.Path.{fun_ext}

-- The variables of the memory program, where every page lies inside the memory.
abbrev pub Attached : Type 0
Attached = (s : Storage) × Inside s

-- What a request leaves, which never panics.
abbrev left_behind :
    {A : Type 0} (R : Storage → Type 0) (o : Outcome Error Storage A)
    → Moves R o
    → (t : Storage) × R t
left_behind R (done a t) h = (t, h)
left_behind R (fail e t) h = (t, h)
left_behind R panic h = absurd h

left_behind-done :
    {A : Type 0} (R : Storage → Type 0) (o : Outcome Error Storage A) (h : Moves R o) (a : A)
    (t : Storage)
    → o ≡ done a t
    → (left_behind R o h).0 ≡ t
left_behind-done R (done b u) h a t e = cc e
left_behind-done R (fail x u) h a t e = absurd (cc)
left_behind-done R panic h a t e = absurd h

Moves-Reads :
    {A : Type 0} (pid : ℕ) (s : Storage) (v : Option A) (o : Outcome Error Storage A)
    → Reads pid s v o
    → Moves (Still pid s) o
Moves-Reads pid s v (done a t) h = h.0
Moves-Reads pid s v (fail e t) h = h.0
Moves-Reads pid s v panic h = h

-- A handler leaves what the operation that it calls leaves.
Moves-respond :
    {A : Type 0} (R : Storage → Type 0) (status : ℕ) (good : A → Body) (s : Storage)
    (o : Outcome Error Storage A)
    → Moves R o
    → Moves R (respond status good (λ _. o) s)
Moves-respond R status good s (done a t) h = h
Moves-respond R status good s (fail e t) h = h
Moves-respond R status good s panic h = h

-- What the CPU reads in an answer, if there is one.
abbrev decoded : {A B : Type 0} → (A → Option B) → Option A → Option B
decoded f none = none
decoded f (some a) = f a

reply-Reads :
    {A B : Type 0} (pid status : ℕ) (good : A → Body) (decode : Body → Option B) (s : Storage)
    (v : Option A) (o : Outcome Error Storage A)
    → (status == 200) ≡ false
    → Reads pid s v o
    → reply_to decode (respond status good (λ _. o) s) ≡ reply_of (decoded (λ a. decode (good a)) v)
reply-Reads pid status good decode s v (done a t) bad h =
    ap (λ v. reply_of (decoded (λ a. decode (good a)) v)) h.1
reply-Reads pid status good decode s v (fail e t) bad h =
    rw bad (ap (λ v. reply_of (decoded (λ a. decode (good a)) v)) h.1)
reply-Reads pid status good decode s v panic bad h = absurd h

-- A request that only reads, and one that writes.
abbrev asked :
    {A : Type 0} (decode : Body → Option A) (pid : ℕ) (o : Outcome Error Storage SimpleResponse)
    (w : Attached)
    → Moves (Still pid w.0) o
    → Reply A × Attached
asked decode pid o w moves =
    let (t, h) = left_behind (Still pid w.0) o moves in
    (reply_to decode o, (t, Inside-Touched pid w.0 t h.touched w.1))

abbrev told :
    {A : Type 0} (decode : Body → Option A) (pid : ℕ) (o : Outcome Error Storage SimpleResponse)
    (w : Attached)
    → Moves (Touched pid w.0) o
    → Reply A × Attached
told decode pid o w moves =
    let (t, h) = left_behind (Touched pid w.0) o moves in
    (reply_to decode o, (t, Inside-Touched pid w.0 t h w.1))

-- What the endpoints answer to the requests of the CPU.
abbrev frame_answer : ℕ → List ℕ → M SimpleResponse
frame_answer pid page = handler_func process_frame_req_handler (frame_request pid page)

abbrev page_answer : ℕ → ℕ → M SimpleResponse
page_answer pid base = handler_func full_page_req_handler (page_request (codes "GET") pid base [])

abbrev save_answer : ℕ → ℕ → List ℕ → M SimpleResponse
save_answer pid base page =
    handler_func full_page_req_handler (page_request (codes "POST") pid base page)

abbrev dump_answer : Bool → ℕ → M SimpleResponse
dump_answer created pid = handler_func (memory_dump_req_handler created) (dump_request pid)

pub frame-Moves :
    (pid : ℕ) (page : List ℕ) (s : Storage) → Moves (Still (as_int pid) s) (frame_answer pid page s)
frame-Moves pid page s = rw (frame_requested pid page) (
    Moves-respond (Still (as_int pid) s) 400 (λ base. plain (itoa base)) s
      (logic_address_to_frame (as_int pid) (received_entries page) s)
      (Moves-Reads (as_int pid) s _ _
        (logic_address_to_frame-Reads (as_int pid) (received_entries page) s)))

checked-Reads :
    (pid base : ℕ) (s : Storage)
    → Inside s
    → Reads pid s (paged s.page_size s.user_memory base (bases_of pid s)) (checked_page pid base s)
checked-Reads pid base s inside =
    rw (get_page_checked pid base s) (get_page-Reads pid base s inside)

pub page-Moves :
    (pid base : ℕ) (s : Storage) → Inside s → Moves (Still (as_int pid) s) (page_answer pid base s)
page-Moves pid base s inside = rw (page_requested pid base) (
    Moves-respond (Still (as_int pid) s) 400 plain s (checked_page (as_int pid) (as_int base) s)
      (Moves-Reads (as_int pid) s _ _ (checked-Reads (as_int pid) (as_int base) s inside)))

pub save-Moves :
    (pid base : ℕ) (page : List ℕ) (s : Storage)
    → Inside s
    → Moves (Touched (as_int pid) s) (save_answer pid base page s)
save-Moves pid base page s inside = rw (save_requested pid base page) (
    Moves-respond {A = Unit {0}} (Touched (as_int pid) s) 400 no_body s
      (write_page (as_int pid) (as_int base) page s)
      (write_page-Moves (as_int pid) (as_int base) page s inside))

pub dump-Moves :
    (created : Bool) (pid : ℕ) (s : Storage)
    → Moves (Still (as_int pid) s) (dump_answer created pid s)
dump-Moves created pid s =
    let (text, h) = memory_dump-Reads created (as_int pid) s in
    rw (dump_requested created pid) (
      Moves-respond {A = Text} (Still (as_int pid) s) 502 no_body s
        (memory_dump created (as_int pid) s) (Moves-Reads (as_int pid) s text _ h))

-- The endpoints "frame", "full_page" and "memory_dump": the request's text, HandlerFunc with the
-- endpoint's handler, and what the CPU reads in the response. Whether a dump's file can be created,
-- and the capacity of what io.ReadAll returns, are arguments.
unfoldable pub storage_program : Bool → (ℕ → ℕ) → MemoryProgram Attached
storage_program created capacity = record {
  frame = λ pid page w.
      asked frame_in (as_int pid) (frame_answer pid page w.0) w (frame-Moves pid page w.0);
  full_page = λ pid base w.
      asked page_in (as_int pid) (page_answer pid base w.0) w (page-Moves pid base w.0 w.1);
  save_page = λ pid base page w.
      told nothing_in (as_int pid) (save_answer pid base page w.0) w
        (save-Moves pid base page w.0 w.1);
  memory_dump = λ pid w.
      asked nothing_in (as_int pid) (dump_answer created pid w.0) w (dump-Moves created pid w.0);
  read_all_capacity = capacity;
}

-- The table of frames, and of pages.
abbrev pub frame_of : Attached → ℕ → List ℕ → Option ℕ
frame_of w pid page =
    decoded as_answer
      (framed w.0.levels w.0.entries_per_page (as_entries page) (bases_of (as_int pid) w.0))

abbrev pub page_of : Attached → ℕ → ℕ → Option (List ℕ)
page_of w pid base = paged w.0.page_size w.0.user_memory (as_int base) (bases_of (as_int pid) w.0)

same_table : (pid : ℕ) (w u : Attached) → Touched pid w.0 u.0 → frame_of u ≡ frame_of w
same_table pid w u a =
    fun_ext
      (λ i. fun_ext (λ page. rw (a.same_pages, bases_of-Touched pid w.0 u.0 a (as_int i)) refl))

same_contents : (pid : ℕ) (w u : Attached) → Still pid w.0 u.0 → page_of u ≡ page_of w
same_contents pid w u h = fun_ext (λ i. fun_ext (λ base.
    rw (h.touched.same_pages, h.same_memory, bases_of-Touched pid w.0 u.0 h.touched (as_int i))
      refl))

-- After a request that only reads, both tables are as before.
asked_keeps :
    {A : Type 0} (decode : Body → Option A) (pid : ℕ) (o : Outcome Error Storage SimpleResponse)
    (w : Attached) (moves : Moves (Still pid w.0) o)
    → (frame_of (asked decode pid o w moves).1 ≡ frame_of w)
      × (page_of (asked decode pid o w moves).1 ≡ page_of w)
asked_keeps decode pid o w moves =
    let h = (left_behind (Still pid w.0) o moves).1 in
    let u = (asked decode pid o w moves).1 in
    (same_table pid w u h.touched, same_contents pid w u h)

reaches :
    {A : Type 0} (decode : Body → Option A) (R : Storage → Type 0)
    (o : Outcome Error Storage SimpleResponse)
    → Moves R o
    → reply_to decode o ≢ unreachable
reaches decode R (done r t) h = elim (Bool-cases (r.status == 200)) [
  | inl good ↦ rw good (reply_of-reaches (decode r.body))
  | inr bad ↦ rw bad (λ e. absurd (cc e))
]
  where
    reply_of-reaches : {A : Type 0} (v : Option A) → reply_of v ≢ unreachable
    reply_of-reaches none e = absurd (cc e)
    reply_of-reaches (some a) e = absurd (cc e)
reaches decode R (fail x t) h = λ e. absurd (cc e)
reaches decode R panic h = absurd h

saves :
    (pid base : ℕ) (new : List ℕ) (s t : Storage)
    → write_page (as_int pid) (as_int base) new s ≡ done tt t
    → save_answer pid base new s ≡ done (record { status = 200; body = plain [] }) t
saves pid base new s t e =
    rw (save_requested pid base new) (ap (λ o. respond 400 no_body (λ _. o) s) e)

-- A frame, as it is sent and read.
framely :
    (levels entries : ℕ) (page : List ℕ) (bases : Option (List ℕ))
    → reply_of (
        decoded
          (λ base. as_frame (atoi (itoa base)))
          (framed levels entries (received_entries page) bases))
      ≡ reply_of (decoded as_answer (framed levels entries (as_entries page) bases))
framely levels entries page bases = rw (received_entries-as_entries page) (
    ap (λ (f : ℕ → Option ℕ). reply_of (decoded f (framed levels entries (as_entries page) bases)))
      (fun_ext as_frame-itoa))

plainly : (v : Option (List ℕ)) → reply_of (decoded some v) ≡ reply_of v
plainly none = refl
plainly (some a) = refl

-- The memory program is what the CPU relies on. Its requests, as the texts that the CPU sends, go
-- through the handlers of the endpoints, and the CPU reads the bodies of their responses. Requests
-- for frames are answered from one table, which is the walk through the page tables with the
-- entries that the CPU has, and requests for pages from another, which is the bytes of the user
-- memory; reading requests change neither table, a page that is saved over one of the same length
-- is the page from then on, and the frames stay. In the tables, numbers from 2^63 on are asked for
-- as 2^63 - 1, a frame from 2^63 on is not answered, and an address without entries is that of one
-- entry 0. The memory program is asked with variables in which every page of a stored process lies
-- inside the memory, which every request keeps.
pub storage_program-Serves :
    (created : Bool) (capacity : ℕ → ℕ) → Serves (storage_program created capacity) frame_of page_of
unfolding storage_program
storage_program-Serves created capacity = record {
  frame_reply = λ pid page w. rw (frame_requested pid page) (
      reply-Reads (as_int pid) 400 (λ base. plain (itoa base)) frame_in w.0 _ _ refl
        (logic_address_to_frame-Reads (as_int pid) (received_entries page) w.0)
      ∙ framely w.0.levels w.0.entries_per_page page (bases_of (as_int pid) w.0));
  frame_keeps = λ pid page w. asked_keeps frame_in (as_int pid) _ w (frame-Moves pid page w.0);
  page_reply = λ pid base w. rw (page_requested pid base) (
      reply-Reads (as_int pid) 400 plain page_in w.0 _ _ refl
        (checked-Reads (as_int pid) (as_int base) w.0 w.1)
      ∙ plainly _);
  page_keeps = λ pid base w. asked_keeps page_in (as_int pid) _ w (page-Moves pid base w.0 w.1);
  dump_reply = λ pid w.
      reaches nothing_in (Still (as_int pid) w.0) (dump_answer created pid w.0)
        (dump-Moves created pid w.0);
  dump_keeps = λ pid w. asked_keeps nothing_in (as_int pid) _ w (dump-Moves created pid w.0);
  save_reply = λ pid base old new w had len.
      let stored = write_page-over (as_int pid) (as_int base) new w.0 w.1 old had len in
      ap (reply_to nothing_in) (saves pid base new w.0 stored.after stored.result);
  save_keeps = λ pid base new w.
      let moves = save-Moves pid base new w.0 w.1 in
      same_table (as_int pid) w
        (told nothing_in (as_int pid) (save_answer pid base new w.0) w moves).1
        (left_behind (Touched (as_int pid) w.0) (save_answer pid base new w.0) moves).1;
  save_stores = λ pid base old new w had len.
      let stored = write_page-over (as_int pid) (as_int base) new w.0 w.1 old had len in
      let after =
        left_behind-done (Touched (as_int pid) w.0) (save_answer pid base new w.0)
          (save-Moves pid base new w.0 w.1) (record { status = 200; body = plain [] }) stored.after
          (saves pid base new w.0 stored.after stored.result) in
      ap (λ (t : Storage). paged t.page_size t.user_memory (as_int base) (bases_of (as_int pid) t))
        after
      ∙ stored.reads;
}
