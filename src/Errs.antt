-- ===== src/Errs.antt =====
-- internal/errs/errs.go: the sentinel errors, with `other` for any error that wraps none of them, and
-- the monad of a call that can fail.
use mathlib.Core.Path.{◌≡◌, refl}
use palena_litellm_pseudonym.GoLib.Strings.{Str}

pub data Error : Type 0 where
  presidio_unavailable presidio_malformed ner_unavailable ner_malformed : Error
  mapping_store_unavailable caller_canceled session_derivation_failed : Error
  request_too_large image_too_large image_fetch_failed other : Error

pub data Result {ℓ} (A : Type ℓ) : Type ℓ where
  ok : A → Result A
  err : Error → Result A

-- A call over the state of the world: it changes the state, and it fails or returns a value.
abbrev pub Task : Type 0 → Type 0 → Type 0
Task S A = S → S × Result A

abbrev pub bind_result : {S A B : Type 0} → S × Result A → (A → Task S B) → S × Result B
bind_result (s, ok a) f = f a s
bind_result (s, err e) f = (s, err e)

infixl 5 ◌>>=◌
abbrev pub ◌>>=◌ : {S A B : Type 0} → Task S A → (A → Task S B) → Task S B
◌>>=◌ m f s = bind_result (m s) f

abbrev pub return : {S A : Type 0} → A → Task S A
return a s = (s, ok a)

-- Inversion of a successful bind.
pub >>=-eq-ok :
    {S A B : Type 0} (m : Task S A) (f : A → Task S B) (s : S) {s' : S} {b : B}
    → (m >>= f) s ≡ (s', ok b)
    → (t : S) × (a : A) × (m s ≡ (t, ok a)) × (f a t ≡ (s', ok b))
>>=-eq-ok {S} {A} m f s {s'} {b} h = bind_cases (m s) h refl
  where
    bind_cases :
        (r : S × Result A)
        → bind_result r f ≡ (s', ok b)
        → m s ≡ r
        → (t : S) × (a : A) × (m s ≡ (t, ok a)) × (f a t ≡ (s', ok b))
    bind_cases (t, ok a) done e = (t, a, e, done)
    bind_cases (t, err x) done e = absurd (cc)

abbrev pub from_ok : {A : Type 0} → A → Result A → A
from_ok a (ok b) = b
from_ok a (err e) = a

-- A BlockDecision: blocked for a reason that the user sees, no error.
pub record BlockDecision : Type 0 where
  pub reason : Str

-- How a request to a dependency can fail in transport: the caller gave up, the client timed out,
-- or the dependency could not be reached.
pub data SendError : Type 0 where
  context_done timed_out unreachable : SendError

-- SendFailure: only the caller's own giving up is no failure of the dependency.
unfoldable pub send_failure : SendError → Error → Error
send_failure context_done unavailable = caller_canceled
send_failure timed_out unavailable = unavailable
send_failure unreachable unavailable = unavailable
