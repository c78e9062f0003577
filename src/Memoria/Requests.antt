-- ===== src/Memoria/Requests.antt =====
-- memoria/memoria.go: the requests that the memory program answers. A request is its method, the
-- parameters of its query and its body; the handlers wait for the configured delays, which are left
-- out, and write logs.
use tp_sisop_go_utn.Base.{
  negsuc, pos, ℤ, length, List, [], not, ◌==◌, if◌then◌else◌, none, ◌∷◌, ℕ, to_uint, some, Option,
}
use tp_sisop_go_utn.Memoria.Access.{write_page}
use tp_sisop_go_utn.Memoria.State.{
  PaginationConfig, get_data_by_pid, Error, M, no_such_process, page_not_assigned,
  wrong_page_length,
}
use tp_sisop_go_utn.Utils.Strings.{eq_text, Text}
use tp_sisop_go_utn.Utils.Codeutils.{Instruction, codes}
use tp_sisop_go_utn.Utils.Strconv.{atoi}
use tp_sisop_go_utn.Base.Outcome.{
  ◌>>=◌, ◌>>◌, ◌>>◌, done, fail, panic, get, pure, or_fail, fail_if, throw,
}

pub record Request : Type 0 where
  pub method : Text
  pub params : List (Text × Text)
  pub body : List ℕ

-- What a response carries: bytes, the text of an error, or what encoding/json makes of a value.
pub data Body : Type 0 where
  plain : List ℕ → Body
  error_text : Error → Body
  instruction_json : Instruction → Body
  config_json : PaginationConfig → Body
  method_not_allowed : Text → Body
  missing_param : Text → Body

-- SimpleResponse
pub record SimpleResponse : Type 0 where
  pub status : ℕ
  pub body : Body

-- MethodRequestInfo
pub record MethodRequestInfo : Type 0 where
  pub req_params : List Text
  pub callback : Request → M SimpleResponse

-- GenericRequest, a map from methods.
abbrev pub GenericRequest : Type 0
GenericRequest = List (Text × MethodRequestInfo)

unfoldable pub method_info : Text → GenericRequest → Option MethodRequestInfo
method_info method [] = none
method_info method ((m, info) ∷ rest) =
    if eq_text m method then some info else method_info method rest

-- url.Values.Get: the first value, or nothing.
unfoldable pub query_get : Text → List (Text × Text) → Option Text
query_get key [] = none
query_get key ((k, v) ∷ rest) = if eq_text k key then some v else query_get key rest

abbrev pub or_empty : Option Text → Text
or_empty none = []
or_empty (some v) = v

-- The loop over ReqParams: the first that is missing.
unfoldable pub first_missing : List Text → List (Text × Text) → Option Text
unfolding query_get
first_missing [] params = none
first_missing (query ∷ queries) params = elim (query_get query params) [
  | none ↦ some query
  | some v ↦ first_missing queries params
]

abbrev pub checked : MethodRequestInfo → Request → Option Text → M SimpleResponse
checked info r (some query) = pure (record { status = 400; body = missing_param query })
checked info r none = info.callback r

abbrev pub or_any : Option MethodRequestInfo → GenericRequest → Option MethodRequestInfo
or_any (some info) request = some info
or_any none request = method_info (codes "ANY") request

abbrev pub answer : Option MethodRequestInfo → Request → M SimpleResponse
answer none r = pure (record { status = 405; body = method_not_allowed r.method })
answer (some info) r = checked info r (first_missing info.req_params r.params)

-- HandlerFunc
unfoldable pub handler_func : GenericRequest → Request → M SimpleResponse
unfolding method_info first_missing
handler_func request r = answer (or_any (method_info r.method request) request) r

-- numFromQuery; Atoi's error is dropped.
unfoldable pub num_from_query : Request → Text → ℤ
unfolding query_get
num_from_query r key = (atoi (or_empty (query_get key r.params))).0

abbrev pub pid_of : Request → ℕ
pid_of r = to_uint (num_from_query r (codes "pid"))

-- `if err != nil { return SimpleResponse{status, err.Error()} }`, or 200 with a body.
abbrev pub respond : {A : Type 0} → ℕ → (A → Body) → M A → M SimpleResponse
respond bad_status good m s = elim (m s) [
  | done a t ↦ done (record { status = 200; body = good a }) t
  | fail e t ↦ done (record { status = bad_status; body = error_text e }) t
  | panic ↦ panic
]

abbrev pub no_body : {A : Type 0} → A → Body
no_body a = plain []

-- bufio.ScanLines: the lines, without their ends, and without an empty one at the end.
abbrev pub without_cr : Text → Text
without_cr [] = []
without_cr (c ∷ []) = if c == 13 then [] else c ∷ []
without_cr (c ∷ d ∷ rest) = c ∷ without_cr (d ∷ rest)

abbrev pub scanned : List Text → List Text
scanned [] = []
scanned (last ∷ []) = if length last == 0 then [] else without_cr last ∷ []
scanned (l ∷ l' ∷ rest) = without_cr l ∷ scanned (l' ∷ rest)

-- A base below 0 is in no process's list.
abbrev pub refuse_base : {A : Type 0} → ℕ → M A
refuse_base pid = do
  s ← get
  p ← or_fail (get_data_by_pid pid s) no_such_process
  throw page_not_assigned

abbrev pub at_base : {A : Type 0} → ℕ → ℤ → (ℕ → M A) → M A
at_base pid (pos base) f = f base
at_base pid (negsuc n) f = refuse_base pid

abbrev pub write_page_int : ℕ → ℤ → List ℕ → M (Unit {0})
write_page_int pid (pos base) value = write_page pid base value
write_page_int pid (negsuc n) value = do
  s ← get
  fail_if (not (length value == s.page_size)) wrong_page_length
  refuse_base pid
