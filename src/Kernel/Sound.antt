-- ===== src/Kernel/Sound.antt =====
-- What every state of the kernel has, and the requests that keep it.
use mathlib.Core.Option.{some-injective}
use tp_sisop_go_utn.Base.{
  Bool, Bool-cases, Option-cases, [], arith, false, inl, inr, none, refl, some, subst, to_uint,
  true, ℕ, ◌∷◌, ◌≡◌, ◌≢◌,
}
use tp_sisop_go_utn.Base.Outcome.{Outcome, done, fail, fail_if, or_fail, panic, state_after}
use tp_sisop_go_utn.Kernel.Api.{M, Reason, Refusal, unstated}
use tp_sisop_go_utn.Kernel.Known.{IsKnown}
use tp_sisop_go_utn.Kernel.KnownDevices.{recieve_io-IsKnown}
use tp_sisop_go_utn.Kernel.KnownHandlers.{handle_reason-IsKnown}
use tp_sisop_go_utn.Kernel.Placement.{IsPlaced}
use tp_sisop_go_utn.Kernel.Requests.{
  io_request, parsed, read_reason, receive_pid_pc_reason, recieve_io_request,
}
use tp_sisop_go_utn.Kernel.Shared.{KernelConfig}
use tp_sisop_go_utn.Kernel.State.{Kernel}
use tp_sisop_go_utn.Kernel.Steps.{end_of}
use tp_sisop_go_utn.Kernel.StepsPlaced.{any_reason-IsPlaced, recieve_io-IsPlaced}
use tp_sisop_go_utn.Utils.Strconv.{atoi}
use tp_sisop_go_utn.Utils.Strings.{Text, eq_text}

-- What every reachable state has.
pub record IsSound (k : Kernel) : Type 0 where
  pub placed : IsPlaced none k
  pub known : IsKnown k

-- The state of an outcome that is no panic.
pub ended-IsSound :
    {A : Type 0} (k u : Kernel) (o : Outcome Refusal Kernel A)
    → IsSound (state_after k o)
    → end_of o ≡ some u
    → IsSound u
ended-IsSound k u (done a t) h e = subst IsSound (some-injective t u e) h
ended-IsSound k u (fail r t) h e = subst IsSound (some-injective t u e) h
ended-IsSound k u panic h e = absurd (cc)

pub io_request-IsSound :
    (handle : Text → Text → Text → ℕ → M (Unit {0})) (is_post : Bool) (ip port name pid : Text)
    (k : Kernel)
    → ((n : ℕ) → IsSound (state_after k (handle name ip port n k)))
    → IsSound k
    → IsSound (state_after k (io_request handle is_post ip port name pid k))
io_request-IsSound handle false ip port name pid k keep h = h
io_request-IsSound handle true ip port name pid k keep h = elim (Bool-cases (eq_text ip [])) [
  | inl e ↦ rw (e, fail_if) h
  | inr e ↦ elim (Bool-cases (eq_text name [])) [
    | inl f ↦ rw (e, f, fail_if) h
    | inr f ↦ elim (Bool-cases (eq_text pid [])) [
      | inl g ↦ rw (e, f, g, fail_if) h
      | inr g ↦ elim (Option-cases (parsed (atoi pid))) [
        | inl i ↦ rw (e, f, g, fail_if, i, or_fail) h
        | inr (n, i) ↦ rw (e, f, g, fail_if, i, or_fail) (keep (to_uint n))
      ]
    ]
  ]
]

pub io_notify-IsSound :
    (is_post : Bool) (ip port name : Text) (k : Kernel)
    → IsSound k
    → IsSound (state_after k (recieve_io_request is_post ip port name k))
unfolding recieve_io_request
io_notify-IsSound false ip port name k h = h
io_notify-IsSound true ip port name k h = elim (Bool-cases (eq_text ip [])) [
  | inl e ↦ rw (e, fail_if) h
  | inr e ↦ elim (Bool-cases (eq_text name [])) [
    | inl f ↦ rw (e, f, fail_if) h
    | inr f ↦
        rw (e, f, fail_if)
          (record {
            placed = recieve_io-IsPlaced name ip port k h.placed;
            known = recieve_io-IsKnown name ip port k h.known;
          })
  ]
]

-- A reason that is not empty, and known, is Interrupt or Exit.
read_reason_stated :
    (text : Text) (reason : Reason) → text ≢ [] → read_reason text ≡ some reason → reason ≢ unstated
unfolding read_reason eq_text
read_reason_stated [] reason n e = absurd (n refl)
read_reason_stated (x ∷ xs) reason n e = ground (arith, e)

pub cpu_results-IsSound :
    (c : KernelConfig) (now : ℕ) (is_post : Bool) (pid pc reason : Text) (k : Kernel)
    → reason ≢ []
    → IsSound k
    → IsSound (state_after k (receive_pid_pc_reason c now is_post pid pc reason k))
unfolding receive_pid_pc_reason
cpu_results-IsSound c now false pid pc reason k n h = h
cpu_results-IsSound c now true pid pc reason k n h = elim (Option-cases (parsed (atoi pid))) [
  | inl e ↦ rw (e, or_fail) h
  | inr (i, e) ↦ elim (Option-cases (parsed (atoi pc))) [
    | inl f ↦ rw (e, f, or_fail) h
    | inr (j, f) ↦ elim (Option-cases (read_reason reason)) [
      | inl g ↦ rw (e, f, g, or_fail) h
      | inr (why, g) ↦
          rw (e, f, g, or_fail)
            (record {
              placed =
                  any_reason-IsPlaced c now (to_uint i) j why k (read_reason_stated reason why n g)
                    h.placed;
              known = handle_reason-IsKnown c now (to_uint i) j why k h.known;
            })
    ]
  ]
]
