-- ===== src/Outcome.antt =====
-- Python's exceptions as values. An exception is known by its class: messages are not modelled,
-- since no handler of the modelled code reads one, except that of `_StateSnapshotError`, whose two
-- messages are two constructors here.
pub mod Laws
pub mod Action
use skifer.Prelude.{String, Bool, true, false}

pub data Error : Type 0 where
  type_error value_error key_error : Error
  autonomy_error approval_error transition_error : Error
  governed_execution_error duplicate_request_error lost_response_error : Error
  credential_error precondition_error capability_executor_error : Error
  capability_history_error capability_registry_error : Error
  incident_transition_error : Error
  snapshot_invalid snapshot_too_large : Error
  -- an `Exception` of the application's own code, by its class name
  raised : String → Error
  -- a `BaseException` that `except Exception` does not catch, such as an interrupt
  interrupted : Error

-- What a call comes to: an exception, or the value it returns.
pub data Result {ℓ} (Returned : Type ℓ) : Type ℓ where
  err : Error → Result Returned
  ok : Returned → Result Returned

-- `if not test: raise error`
abbrev pub require : Bool → Error → Result (Unit {0})
require true e = ok tt
require false e = err e

-- `if test: raise error`
abbrev pub refuse : Bool → Error → Result (Unit {0})
refuse true e = err e
refuse false e = ok tt

-- The next step runs only behind a value.
infixl 5 ◌>>=◌ ◌>>◌
abbrev pub ◌>>=◌ {ℓ κ} :
    {Before : Type ℓ} {After : Type κ} → Result Before → (Before → Result After) → Result After
err raised_error >>= next = err raised_error
ok value >>= next = next value

abbrev pub ◌>>◌ {ℓ} : {After : Type ℓ} → Result (Unit {0}) → Result After → Result After
check >> next = check >>= λ _. next

abbrev pub is_ok {ℓ} : {A : Type ℓ} → Result A → Bool
is_ok (ok _) = true
is_ok (err _) = false

-- `type(exc).__name__`
unfoldable pub class_of : Error → String
class_of type_error = "TypeError"
class_of value_error = "ValueError"
class_of key_error = "KeyError"
class_of autonomy_error = "AutonomyError"
class_of approval_error = "ApprovalError"
class_of transition_error = "TransitionError"
class_of governed_execution_error = "GovernedExecutionError"
class_of duplicate_request_error = "DuplicateRequestError"
class_of lost_response_error = "LostResponseError"
class_of credential_error = "CredentialError"
class_of precondition_error = "PreconditionError"
class_of capability_executor_error = "CapabilityExecutorError"
class_of capability_history_error = "CapabilityHistoryError"
class_of capability_registry_error = "CapabilityRegistryError"
class_of incident_transition_error = "InvalidIncidentTransition"
class_of snapshot_invalid = "_StateSnapshotError"
class_of snapshot_too_large = "_StateSnapshotError"
class_of (raised name) = name
class_of interrupted = "KeyboardInterrupt"
