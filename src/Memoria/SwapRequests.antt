-- ===== src/Memoria/SwapRequests.antt =====
-- memoria/memoria.go: the requests to suspend a process and to bring it back. The configured delay
-- and the log are left out.
use tp_sisop_go_utn.Memoria.Requests.{
  GenericRequest, no_body, num_from_query, pid_of, Request, respond,
}
use tp_sisop_go_utn.Memoria.Swap.{Files, suspend_process, unsuspend_process}
use tp_sisop_go_utn.Memoria.State.{M}
use tp_sisop_go_utn.Utils.Codeutils.{codes}
use tp_sisop_go_utn.Base.{◌∷◌, [], ℕ}

-- A request of any method with a pid; 502 with the error's text where the operation fails.
abbrev pub any_with_pid : (ℕ → M (Unit {0})) → GenericRequest
any_with_pid operation =
    (
      codes "ANY",
      record {
        req_params = codes "pid" ∷ [];
        callback = λ (r : Request). respond 502 no_body (operation (pid_of r));
      },
    )
    ∷ []

-- suspendProcessRequestHandler
unfoldable pub suspend_process_request_handler : Files → GenericRequest
unfolding num_from_query suspend_process
suspend_process_request_handler files = any_with_pid (suspend_process files)

-- unsuspendProcessRequestHandler
unfoldable pub unsuspend_process_request_handler : Files → GenericRequest
unfolding num_from_query unsuspend_process
unsuspend_process_request_handler files = any_with_pid (unsuspend_process files)
