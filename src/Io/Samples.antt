-- ===== src/Io/Samples.antt =====
-- An IO instance of io/io.go that is asked for two IOs and is then shut down.
use tp_sisop_go_utn.Io.Connection.{create_kernel_connection}
use tp_sisop_go_utn.Io.Script.{
  create_kernel_connection-expected, ends, last_pid, expected, Order, reply, request, silent, stop,
}
use tp_sisop_go_utn.Base.{◌∷◌, ◌≡◌, [], arith, List, map, some}

-- The kernel is up, then away for a round, then has an IO again, and shuts down.
abbrev two_requests : List Order
two_requests = request 3 500 ∷ silent ∷ request 0 20 ∷ stop ∷ []

create_kernel_connection-expected_example :
    create_kernel_connection (map reply two_requests)
    ≡ some (
      ends two_requests,
      record { assigned_pid = last_pid 0 two_requests; events = expected 0 two_requests },
    )
create_kernel_connection-expected_example =
    create_kernel_connection-expected two_requests
      (omega arith, omega arith, (omega arith, omega arith, tt))
