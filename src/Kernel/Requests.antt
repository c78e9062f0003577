-- ===== src/Kernel/Requests.antt =====
-- The queries of the kernel's handlers: what kernel/kernel.go and kernel/api/kernel_api.go do with
-- the parameters of a request before the handler's own work. A parameter that is missing is empty.
use tp_sisop_go_utn.Base.{to_uint, [], Option, some, none, ℕ, ◌∷◌, if◌then◌else◌, not, Bool, ℤ}
use tp_sisop_go_utn.Kernel.Devices.{recieve_io, handle_io_disconnected, handle_io_finished}
use tp_sisop_go_utn.Kernel.State.{Blocked}
use tp_sisop_go_utn.Utils.Strconv.{atoi}
use tp_sisop_go_utn.Utils.Strings.{eq_text, Text}
use tp_sisop_go_utn.Kernel.Shared.{KernelConfig}
use tp_sisop_go_utn.Base.Outcome.{◌>>=◌, ◌>>◌, fail_if, or_fail, get, modify, pure}
use tp_sisop_go_utn.Kernel.Api.{
  M, Reason, interrupt, exits, unstated, method_not_allowed, ip_required, name_required,
  pid_required, invalid_pid, invalid_pc, invalid_reason, handle_reason,
}

abbrev pub parsed : ℤ × Bool → Option ℤ
parsed (i, valid) = if valid then some i else none

-- The tests of handleIOFinished and handleIODisconnected.
abbrev pub io_request :
    (Text → Text → Text → ℕ → M (Unit {0})) → Bool → Text → Text → Text → Text → M (Unit {0})
io_request handle is_post ip port name pid_str = do
  fail_if (not is_post) method_not_allowed
  fail_if (eq_text ip []) ip_required
  fail_if (eq_text name []) name_required
  fail_if (eq_text pid_str []) pid_required
  pid ← or_fail (parsed (atoi pid_str)) invalid_pid
  handle name ip port (to_uint pid)

-- handleIOFinished, from the request on.
unfoldable pub io_finished_request : ℕ → Bool → Text → Text → Text → Text → M (Unit {0})
io_finished_request now = io_request (handle_io_finished now)

-- handleIODisconnected, from the request on.
unfoldable pub io_disconnected_request : ℕ → Bool → Text → Text → Text → Text → M (Unit {0})
io_disconnected_request now = io_request (handle_io_disconnected now)

-- recieveIO, from the request on.
unfoldable pub recieve_io_request : Bool → Text → Text → Text → M (Option Blocked)
recieve_io_request is_post ip port name = do
  fail_if (not is_post) method_not_allowed
  fail_if (eq_text ip []) ip_required
  fail_if (eq_text name []) name_required
  k ← get
  let (given, k') = recieve_io name ip port k
  modify (λ _. k')
  pure given

-- The reasons: "Interrupt", "Exit", and none.
unfoldable pub read_reason : Text → Option Reason
read_reason reason =
    if eq_text reason (73 ∷ 110 ∷ 116 ∷ 101 ∷ 114 ∷ 114 ∷ 117 ∷ 112 ∷ 116 ∷ [])
    then some interrupt
    else if eq_text reason (69 ∷ 120 ∷ 105 ∷ 116 ∷ [])
    then some exits
    else if eq_text reason []
    then some unstated
    else none

-- ReceivePidPcReason
unfoldable pub receive_pid_pc_reason : KernelConfig → ℕ → Bool → Text → Text → Text → M (Unit {0})
receive_pid_pc_reason c now is_post pid pc reason = do
  fail_if (not is_post) method_not_allowed
  pid_int ← or_fail (parsed (atoi pid)) invalid_pid
  pc_int ← or_fail (parsed (atoi pc)) invalid_pc
  why ← or_fail (read_reason reason) invalid_reason
  handle_reason c now (to_uint pid_int) pc_int why
