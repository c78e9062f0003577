-- ===== src/Base/Outcome.antt =====
-- Operations on a state that can fail with an error value or panic.
-- After a panic nothing is said about the state.
use mathlib.Core.Bool.{Bool, true, false}
use mathlib.Core.Option.{Option, none, some}

pub data Outcome (E S A : Type 0) : Type 0 where
  done : A → S → Outcome E S A
  fail : E → S → Outcome E S A
  panic : Outcome E S A

infixl 5 ◌>>=◌ ◌>>◌
abbrev pub ◌>>=◌ :
    {E S A B : Type 0} → (S → Outcome E S A) → (A → S → Outcome E S B) → S → Outcome E S B
◌>>=◌ m f s = elim (m s) [ done a t ↦ f a t | fail e t ↦ fail e t | panic ↦ panic ]

abbrev pub ◌>>◌ :
    {E S B : Type 0} → (S → Outcome E S (Unit {0})) → (S → Outcome E S B) → S → Outcome E S B
m >> k = m >>= λ _. k

abbrev pub pure : {E S A : Type 0} → A → S → Outcome E S A
pure a s = done a s

abbrev pub throw : {E S A : Type 0} → E → S → Outcome E S A
throw e s = fail e s

abbrev pub crash : {E S A : Type 0} → S → Outcome E S A
crash s = panic

abbrev pub get : {E S : Type 0} → S → Outcome E S S
get s = done s s

abbrev pub modify : {E S : Type 0} → (S → S) → S → Outcome E S (Unit {0})
modify f s = done tt (f s)

-- `if b { return err }`
abbrev pub fail_if : {E S : Type 0} → Bool → E → S → Outcome E S (Unit {0})
fail_if true e s = fail e s
fail_if false e s = done tt s

-- The value behind a pointer that may be nil, or an error.
abbrev pub or_fail : {E S A : Type 0} → Option A → E → S → Outcome E S A
or_fail none e s = fail e s
or_fail (some a) e s = done a s

-- The element of a slice, which panics out of range.
abbrev pub or_panic : {E S A : Type 0} → Option A → S → Outcome E S A
or_panic none s = panic
or_panic (some a) s = done a s

-- What a caller sees, without the state.
pub data Result (E A : Type 0) : Type 0 where
  ok : A → Result E A
  err : E → Result E A
  panicked : Result E A

abbrev pub value_of : {E S A : Type 0} → Outcome E S A → Result E A
value_of (done a s) = ok a
value_of (fail e s) = err e
value_of panic = panicked

-- The state that an operation leaves, with what it was before a panic.
abbrev pub state_after : {E S A : Type 0} → S → Outcome E S A → S
state_after s (done a t) = t
state_after s (fail e t) = t
state_after s panic = s
