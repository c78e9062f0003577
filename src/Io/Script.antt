-- ===== src/Io/Script.antt =====
-- An IO instance of io/io.go against a kernel that answers as recieveIO of kernel/kernel.go does.
use tp_sisop_go_utn.Io.Connection.{
  emit, milliseconds, Answer, body, Connection, create_kernel_connection, disconnected, Event,
  finished, notified, notify_io_disconnected, notify_kernel, refused, rounds, slept, teapot,
  unreachable,
}
use tp_sisop_go_utn.Base.{
  ◌*◌, ◌++◌, ◌<◌, ◌^◌, ◌≡◌, ◌∙◌, ◌∷◌, [], ap, arith, Bool, false, List, map, pos, refl, some, sym,
  true, ℕ, ◌%◌,
}
use tp_sisop_go_utn.Utils.Strings.{split, split-append, split_last, Text}
use tp_sisop_go_utn.Utils.Strconv.{atoi-itoa, itoa}
use tp_sisop_go_utn.Memoria.SwapFile.{Lacks-itoa}
use mathlib.Core.List.{append-nil, append_assoc}

-- What the kernel has for an instance: nothing, since it is not there; the shutdown; a refusal; or
-- an IO of a process.
pub data Order : Type 0 where
  silent stop refuse : Order
  request : ℕ → ℕ → Order

-- The replies of recieveIO: `fmt.Sprintf("%d|%d", pid, timer)` for an IO.
abbrev pub reply : Order → Answer
reply silent = unreachable
reply stop = teapot
reply refuse = refused
reply (request pid timer) = body (itoa pid ++ 124 ∷ itoa timer)

-- Pids fit an int, and times in nanoseconds.
abbrev pub InInt : List Order → Type 0
InInt [] = Unit {0}
InInt (request pid timer ∷ orders) = (pid < 2 ^ 63) × (timer * 1000000 < 2 ^ 63) × InInt orders
InInt (_ ∷ orders) = InInt orders

-- What an instance has to do, with the pid of its last IO.
abbrev pub expected : ℕ → List Order → List Event
expected pid [] = []
expected pid (silent ∷ orders) = notified pid ∷ slept (pos 1000000000) ∷ expected pid orders
expected pid (stop ∷ orders) = notified pid ∷ disconnected 0 ∷ []
expected pid (refuse ∷ orders) = notified pid ∷ disconnected 0 ∷ []
expected pid (request next timer ∷ orders) =
    notified pid
    ∷ slept (pos (timer * 1000000))
    ∷ finished (pos next)
    ∷ slept (pos 1000000000)
    ∷ expected next orders

-- The pid of the last IO, and whether the instance has ended.
abbrev pub last_pid : ℕ → List Order → ℕ
last_pid pid [] = pid
last_pid pid (silent ∷ orders) = last_pid pid orders
last_pid pid (request next timer ∷ orders) = last_pid next orders
last_pid pid (_ ∷ orders) = 0

abbrev pub ends : List Order → Bool
ends [] = false
ends (silent ∷ orders) = ends orders
ends (request next timer ∷ orders) = ends orders
ends (_ ∷ orders) = true

parts_of_reply :
    (pid timer : ℕ) → split 124 (itoa pid ++ 124 ∷ itoa timer) ≡ itoa pid ∷ itoa timer ∷ []
parts_of_reply pid timer =
    split-append 124 (itoa pid) (itoa timer) (Lacks-itoa 124 pid (omega arith))
    ∙ ap (λ (l : List Text). itoa pid ∷ l)
        (split_last 124 (itoa timer) (Lacks-itoa 124 timer (omega arith)))

milliseconds_small : (n : ℕ) → n * 1000000 < 2 ^ 63 → milliseconds (pos n) ≡ pos (n * 1000000)
milliseconds_small n small = ground arith

-- The events of a round with an IO.
abbrev io_events : ℕ → ℕ → ℕ → List Event
io_events last pid timer =
    notified last ∷ slept (pos (timer * 1000000)) ∷ finished (pos pid) ∷ slept (pos 1000000000) ∷ []

request_round :
    (pid timer : ℕ) (c : Connection)
    → pid < 2 ^ 63
    → timer * 1000000 < 2 ^ 63
    → notify_kernel (body (itoa pid ++ 124 ∷ itoa timer)) c
      ≡ some (
        true,
        record {
          assigned_pid = pid;
          events =
              ((c.events ++ notified c.assigned_pid ∷ []) ++ slept (pos (timer * 1000000)) ∷ [])
              ++ finished (pos pid) ∷ [];
        },
      )
unfolding notify_kernel
request_round pid timer c small short =
    let e : pid % 2 ^ 64 ≡ pid = omega (arith, small) in
    rw
      (
        parts_of_reply pid timer,
        atoi-itoa pid small,
        atoi-itoa timer (omega (arith, short)),
        milliseconds_small timer short,
        e,
      )
      refl

rounds-∷ :
    (answer : Answer) (answers : List Answer) (c next : Connection)
    → notify_kernel answer c ≡ some (true, next)
    → rounds (answer ∷ answers) c ≡ rounds answers (emit (slept (pos 1000000000)) next)
unfolding rounds
rounds-∷ answer answers c next e = rw (e, rounds) refl

-- The instance with these events behind its own.
abbrev after : ℕ → List Event → List Order → Connection
after pid before orders = record {
  assigned_pid = last_pid pid orders;
  events = before ++ expected pid orders;
}

io_events-append :
    (last pid timer : ℕ) (before : List Event)
    → (((before ++ notified last ∷ []) ++ slept (pos (timer * 1000000)) ∷ [])
          ++ finished (pos pid) ∷ [])
        ++ slept (pos 1000000000) ∷ []
      ≡ before ++ io_events last pid timer
io_events-append last pid timer [] = refl
io_events-append last pid timer (e ∷ before) =
    ap (λ l. e ∷ l) (io_events-append last pid timer before)

rounds-expected :
    (orders : List Order) (pid : ℕ) (before : List Event)
    → InInt orders
    → rounds (map reply orders) (record { assigned_pid = pid; events = before })
      ≡ some (ends orders, after pid before orders)
unfolding rounds notify_kernel notify_io_disconnected
rounds-expected [] pid before h =
    ap (λ l. some (false, record { assigned_pid = pid; events = l })) (sym (append-nil before))
rounds-expected (silent ∷ orders) pid before h =
    rounds-expected orders pid ((before ++ notified pid ∷ []) ++ slept (pos 1000000000) ∷ []) h
    ∙ ap (λ l. some (ends orders, record { assigned_pid = last_pid pid orders; events = l }))
        (append_assoc (before ++ notified pid ∷ []) (slept (pos 1000000000) ∷ [])
            (expected pid orders)
          ∙ append_assoc before (notified pid ∷ []) (slept (pos 1000000000) ∷ expected pid orders))
rounds-expected (stop ∷ orders) pid before h =
    ap (λ l. some (true, record { assigned_pid = 0; events = l }))
      (append_assoc before (notified pid ∷ []) (disconnected 0 ∷ []))
rounds-expected (refuse ∷ orders) pid before h =
    ap (λ l. some (true, record { assigned_pid = 0; events = l }))
      (append_assoc before (notified pid ∷ []) (disconnected 0 ∷ []))
rounds-expected (request next timer ∷ orders) pid before h =
    let c : Connection = record { assigned_pid = pid; events = before } in
    let in_int : (next < 2 ^ 63) × (timer * 1000000 < 2 ^ 63) × InInt orders = h in
    rounds-∷ (reply (request next timer)) (map reply orders) c _
      (request_round next timer c in_int.0 in_int.1)
    ∙ rounds-expected orders next _ in_int.2
    ∙ ap (λ l. some (ends orders, record { assigned_pid = last_pid next orders; events = l }))
        (ap (λ l. l ++ expected next orders) (io_events-append pid next timer before)
          ∙ append_assoc before (io_events pid next timer) (expected next orders))

-- An IO instance, against a kernel that answers with orders whose pids fit an int and whose times
-- in nanoseconds do: it ends exactly where a reply stops or refuses it, and its requests and
-- sleeps are those that the orders call for, in that order: for an IO it notifies with the pid of
-- the last IO, sleeps the time of the order, and reports the pid of the order; a kernel that is
-- not there is asked again with the same pid; before it asks again it sleeps for a second; at the
-- end it reports the disconnection.
pub create_kernel_connection-expected :
    (orders : List Order)
    → InInt orders
    → create_kernel_connection (map reply orders) ≡ some (ends orders, after 0 [] orders)
unfolding create_kernel_connection
create_kernel_connection-expected orders h = rounds-expected orders 0 [] h
