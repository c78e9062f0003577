-- ===== src/Io/Connection.antt =====
-- io/io.go: the arguments of main, and the loop of an IO instance that asks the kernel for work.
-- What the kernel answers to "io-notify" is an argument; the replies to "io-finished" and
-- "io-disconnected" are only logged. An instance's name, address and port stay the same.
use tp_sisop_go_utn.Base.{
  ltb, pos, negsuc, ◌^◌, ◌-◌, ◌*◌, ◌%◌, ◌++◌, ◌∷◌, [], Bool, false, get_elem?, if◌then◌else◌, List,
  none, Option, some, to_uint, true, ℕ, ℤ,
}
use tp_sisop_go_utn.Utils.Strings.{split, Text}
use tp_sisop_go_utn.Utils.Strconv.{atoi}

-- What an instance does that others see: its requests to the kernel, with the pid that each one
-- carries, and the time, in nanoseconds, that it sleeps.
pub data Event : Type 0 where
  notified : ℕ → Event
  slept : ℤ → Event
  finished : ℤ → Event
  disconnected : ℕ → Event

-- The reply to "io-notify": none, the status 418, another one that is not 200, or 200 with a body.
pub data Answer : Type 0 where
  unreachable teapot refused : Answer
  body : Text → Answer

-- An entry of `instances`: what its pid pointer points to, and its events so far.
pub record Connection : Type 0 where
  pub assigned_pid : ℕ
  pub events : List Event

abbrev pub emit : Event → Connection → Connection
emit e c = record c { events = c.events ++ e ∷ [] }

-- The int of 64 bits with these bits.
abbrev signed : ℕ → ℤ
signed bits = if ltb bits (2 ^ 63) then pos bits else negsuc (2 ^ 64 - 1 - bits)

-- `time.Duration(duration) * time.Millisecond`, which wraps.
abbrev pub milliseconds : ℤ → ℤ
milliseconds duration = signed (to_uint duration * 1000000 % 2 ^ 64)

-- The first two parts of the kernel's answer. Atoi's errors are dropped.
abbrev pub second_part : List Text → Option Text
second_part vars = get_elem? vars 1

abbrev pub first_part : List Text → Text
first_part [] = []
first_part (v ∷ vars) = v

-- The IO itself, with `pid` as an int, and the report of its end.
abbrev pub work : ℤ → ℤ → Connection → Connection
work pid duration c =
    emit (finished pid)
      (emit (slept (milliseconds duration)) (record c { assigned_pid = to_uint pid }))

abbrev pub work_for : List Text → Option Text → Connection → Option (Bool × Connection)
work_for vars none c = none
work_for vars (some duration) c = some (true, work (atoi (first_part vars)).0 (atoi duration).0 c)

abbrev pub forget : Connection → Connection
forget c = record c { assigned_pid = 0 }

-- notifyKernel: whether to go on, or none where the body has no '|' and the index panics.
unfoldable pub notify_kernel : Answer → Connection → Option (Bool × Connection)
notify_kernel unreachable c = some (true, emit (notified c.assigned_pid) c)
notify_kernel teapot c = some (false, forget (emit (notified c.assigned_pid) c))
notify_kernel refused c = some (false, forget (emit (notified c.assigned_pid) c))
notify_kernel (body data_) c =
    work_for (split 124 data_) (second_part (split 124 data_))
      (forget (emit (notified c.assigned_pid) c))

-- notifyIODisconnected
unfoldable pub notify_io_disconnected : Connection → Connection
notify_io_disconnected c = emit (disconnected c.assigned_pid) c

-- createKernelConnection, for as many rounds as there are answers: whether it has ended. It sleeps
-- for a second before it goes on.
unfoldable pub rounds : List Answer → Connection → Option (Bool × Connection)
unfolding notify_kernel notify_io_disconnected
rounds [] c = some (false, c)
rounds (answer ∷ answers) c = elim (notify_kernel answer c) [
  | none ↦ none
  | some (retry, next) ↦
      (let rest = rounds answers (emit (slept (pos 1000000000)) next) in
        if retry then rest else some (true, notify_io_disconnected next))
]

unfoldable pub create_kernel_connection : List Answer → Option (Bool × Connection)
unfolding rounds
create_kernel_connection answers = rounds answers (record { assigned_pid = 0; events = [] })

-- What SIGINT and SIGTERM lead to: every instance is reported.
unfoldable pub force_kill : List Connection → List Connection
unfolding notify_io_disconnected
force_kill [] = []
force_kill (instance_ ∷ instances) = notify_io_disconnected instance_ ∷ force_kill instances

-- The arguments of main: the identifier, and the names of the instances. With fewer than three,
-- main returns, so that the question for a number of instances is never asked.
unfoldable pub parse_args : List Text → Option (ℤ × List Text)
unfolding atoi
parse_args [] = none
parse_args (program ∷ []) = none
parse_args (program ∷ id ∷ []) = none
parse_args (program ∷ id ∷ name ∷ names) =
    let (id_int, ok) = atoi id in if ok then some (id_int, name ∷ names) else none
