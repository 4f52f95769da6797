-- ===== src/Types/Errors.antt =====
-- crates/attractor-types/src/error.rs: the unified error type and its classification.
use pascals_discrete_attract.Base.{
  ℕ, Text, Bool, true, false, Option, none, some, ◌≡◌, refl, subst, if◌then◌else◌,
}
use pascals_discrete_attract.Types.Values.{F64}

pub data AttractorError : Type 0 where
  provider_error : Text → ℕ → Text → Bool → AttractorError
  rate_limited : Text → ℕ → AttractorError
  auth_error : Text → AttractorError
  request_timeout : Text → ℕ → AttractorError
  context_length_exceeded : Text → Text → AttractorError
  parse_error : ℕ → ℕ → Text → Option Text → AttractorError
  validation_error : Text → AttractorError
  handler_error : Text → Text → Text → AttractorError
  goal_gate_unsatisfied : Text → AttractorError
  checkpoint_incompatible : Text → Text → AttractorError
  no_retry_target : Text → AttractorError
  retries_exhausted : Text → ℕ → AttractorError
  budget_exhausted : F64 → F64 → AttractorError
  max_steps_exceeded : ℕ → AttractorError
  tool_error : Text → Text → AttractorError
  command_timeout : ℕ → AttractorError
  cli_not_found : Text → AttractorError
  loop_detected : ℕ → AttractorError
  turn_limit_reached : ℕ → AttractorError
  io json other : Text → AttractorError

-- `AttractorError::is_retryable`.
unfoldable pub is_retryable : AttractorError → Bool
is_retryable (rate_limited p ms) = true
is_retryable (command_timeout ms) = true
is_retryable (provider_error p status message retryable) = retryable
is_retryable _ = false

-- `AttractorError::is_terminal`.
unfoldable pub is_terminal : AttractorError → Bool
is_terminal (auth_error p) = true
is_terminal (validation_error m) = true
is_terminal (context_length_exceeded p m) = true
is_terminal (cli_not_found b) = true
is_terminal _ = false

-- `AttractorError::http_status`.
unfoldable pub http_status : AttractorError → Option ℕ
http_status (rate_limited p ms) = some 429
http_status (auth_error p) = some 401
http_status (provider_error p status m r) = some status
http_status (request_timeout p ms) = some 504
http_status (command_timeout ms) = some 504
http_status (validation_error m) = some 400
http_status (context_length_exceeded p m) = some 413
http_status _ = none

-- `attractor_types::Result`.
pub data Result {ℓ} (A : Type ℓ) : Type ℓ where
  ok : A → Result A
  err : AttractorError → Result A

infixl 5 ◌>>=◌ ◌>>◌
-- `?`: an error returns at once.
abbrev pub ◌>>=◌ {ℓ κ} : {A : Type ℓ} {B : Type κ} (r : Result A) (next : A → Result B) → Result B
(err failure) >>= next = err failure
(ok value) >>= next = next value

abbrev pub ◌>>◌ {ℓ} : {B : Type ℓ} (first : Result (Unit {0})) (second : Result B) → Result B
first >> second = first >>= λ u. second

-- `P` holds of the value, if there is one.
abbrev pub Ensures {ℓ κ} : {A : Type ℓ} → (A → Type κ) → Result A → Type κ
Ensures P (ok a) = P a
Ensures P (err e) = Unit

pub Ensures-bind {ℓ κ μ} :
    {A : Type ℓ} {B : Type κ} (P : B → Type μ) (m : Result A) (f : A → Result B)
    → ((a : A) → m ≡ ok a → Ensures P (f a))
    → Ensures P (m >>= f)
Ensures-bind P (ok a) f h = h a refl
Ensures-bind P (err e) f h = tt

pub Ensures-ok {ℓ κ} :
    {A : Type ℓ} (P : A → Type κ) (r : Result A) (a : A) → r ≡ ok a → Ensures P r → P a
Ensures-ok P r a e h = subst (Ensures P) e h

pub Ensures-if {ℓ κ} :
    {A : Type ℓ} (P : A → Type κ) (b : Bool) (r s : Result A)
    → (b ≡ true → Ensures P r)
    → (b ≡ false → Ensures P s)
    → Ensures P (if b then r else s)
Ensures-if P true r s h k = h refl
Ensures-if P false r s h k = k refl
