-- ===== src/Capabilities/Governed/Checks.antt =====
-- The parts of executor.py that read and raise, and touch no state.
use skifer.Prelude.{
  ℕ, ◌+◌, String, Bool, true, false, ◌&&◌, ◌==◌, Option, none, some, List, [], ◌∷◌, subset,
  if◌then◌else◌,
}
use skifer.Outcome.{
  Error, type_error, value_error, key_error, governed_execution_error, lost_response_error,
  interrupted, class_of, Result, ok, err, require, ◌>>=◌, ◌>>◌,
}
use skifer.Json.{pos, name, Value, null, bool, int, text, dict, Fields, end, field, is_mapping}
use skifer.Json.Copy.{copy_json_safe}
use skifer.Json.Redaction.{redact}
use skifer.Capabilities.Model.{CapabilityDefinition, is_write}
use skifer.Capabilities.Arguments.{Comparison, Errors, validate_arguments, get_field}
use skifer.Capabilities.Autonomy.{ExecutionState, executed, failed}
use skifer.Capabilities.Lease.{CredentialLease}
use skifer.Capabilities.Executors.{
  CapabilityResult, make_result, result_to_dict, LookupAnswer, undetermined, found_result,
  found_value, lookup_threw,
}
use skifer.Capabilities.History.{CapabilityStateEvent}

abbrev no_errors : Errors → Bool
no_errors [] = true
no_errors (_ ∷ _) = false

-- `_authorize_definition`
unfoldable pub authorize :
    Comparison → List String → CapabilityDefinition → Value → Result (Unit {0})
authorize python scopes definition arguments = do
  require (is_write definition.mode) governed_execution_error
  require (subset definition.required_scopes scopes) governed_execution_error
  errors ← validate_arguments python definition.input_schema arguments
  require (no_errors errors) governed_execution_error

-- `_assert_same_identity`
unfoldable pub assert_same_identity :
    CapabilityStateEvent → CapabilityDefinition → String → Result (Unit {0})
assert_same_identity event definition subject = do
  require
      (event.capability_id == definition.id
        && event.capability_version == definition.version
        && event.subject == subject)
      governed_execution_error

abbrev pub success : CapabilityDefinition → Value → CapabilityResult
success definition output = record {
  capability_id = definition.id;
  capability_version = definition.version;
  status = "succeeded";
  output = output;
  error_type = none;
}

abbrev pub failure : CapabilityDefinition → Error → CapabilityResult
failure definition exc = record {
  capability_id = definition.id;
  capability_version = definition.version;
  status = "failed";
  output = dict end;
  error_type = some (class_of exc);
}

-- The result in SHADOW mode.
abbrev pub shadow_output : Value
shadow_output = dict (field (name "state") (text "PROPOSED") end)

-- `detail.get(key)`, on the detail of an event.
abbrev pub detail_field : String → Value → Option Value
detail_field k (dict fs) = get_field k fs
detail_field k _ = none

-- `payload[key]`, where the constructor of a result wants text. (Python would carry on with an
-- identity that is no text; the journal of this program holds none.)
text_at : String → Fields → Result String
text_at k fs = elim (get_field k fs) [
  | none ↦ err key_error
  | some (text s) ↦ ok s
  | some _ ↦ err type_error
]

value_at : String → Fields → Result Value
value_at k fs = elim (get_field k fs) [ none ↦ err key_error | some v ↦ ok v ]

-- `payload["error_type"]`: what is neither text nor None no result may have.
error_type_at : Fields → Result (Option String)
error_type_at fs = elim (get_field "error_type" fs) [
  | none ↦ err key_error
  | some null ↦ ok none
  | some (text s) ↦ ok (some s)
  | some _ ↦ err value_error
]

unfoldable pub result_from : Fields → Result CapabilityResult
unfolding text_at value_at error_type_at
result_from payload = do
  id ← text_at "capability_id" payload
  version ← text_at "capability_version" payload
  status ← text_at "status" payload
  output ← value_at "output" payload
  error_type ← error_type_at payload
  make_result (record {
    capability_id = id;
    capability_version = version;
    status = status;
    output = output;
    error_type = error_type;
  })

abbrev as_governed : Result CapabilityResult → Result CapabilityResult
as_governed (ok r) = ok r
as_governed (err _) = err governed_execution_error

recorded_payload : Option Value → Result CapabilityResult
recorded_payload (some (dict payload)) = as_governed (result_from payload)
recorded_payload _ = err governed_execution_error

-- `_recorded_result`
unfoldable pub recorded_result : CapabilityStateEvent → Result CapabilityResult
unfolding recorded_payload
recorded_result event = recorded_payload (detail_field "result" event.detail)

-- The output of a call, behind the return of the executor: its copy, and if a lease was used the
-- redaction of its secret.
unfoldable pub checked_output : Option CredentialLease → Value → Result (Value × Bool)
checked_output lease raw = do
  require (is_mapping raw) type_error
  output ← copy_json_safe raw
  elim lease [ none ↦ ok (output, false) | some l ↦ ok (redact l.secret output) ]

-- What the executor's `detail` mappings hold.
abbrev pub call_detail : Value
call_detail = dict (field (name "kind") (text "external_call") end)

abbrev pub outcome_detail : CapabilityResult → Bool → Value
outcome_detail result echo_redacted = dict (
    field (name "kind") (text "external_outcome") (
      field (name "result") (result_to_dict result)
        (field (name "echo_redacted") (bool echo_redacted) end)))

abbrev pub attempt_detail : ℕ → Value
attempt_detail n =
    dict (
      field (name "kind") (text "reconciliation_attempt")
        (field (name "attempt") (int (pos n)) end))

abbrev pub reconciliation_detail : CapabilityResult → Value
reconciliation_detail result = dict (
    field (name "kind") (text "reconciliation") (field (name "result") (result_to_dict result) end))

abbrev is_text : String → Option Value → Bool
is_text s (some (text t)) = t == s
is_text s _ = false

-- `event.detail.get("kind") == "reconciliation_attempt"`
unfoldable pub is_attempt : CapabilityStateEvent → Bool
is_attempt e = is_text "reconciliation_attempt" (detail_field "kind" e.detail)

unfoldable pub count_attempts : List CapabilityStateEvent → ℕ
count_attempts [] = 0
count_attempts (e ∷ es) = let rest = count_attempts es in if is_attempt e then rest + 1 else rest

-- The result of a lookup, in the `try` of `_reconcile_lost_response`.
unfoldable pub looked_up_result : CapabilityDefinition → LookupAnswer → Result CapabilityResult
looked_up_result definition undetermined = err lost_response_error
looked_up_result definition (found_result r) =
    if r.capability_id == definition.id && r.capability_version == definition.version
    then ok r
    else err lost_response_error
looked_up_result definition (found_value v) =
    if is_mapping v
    then (do output ← copy_json_safe v; make_result (success definition output))
    else err type_error
looked_up_result definition (lookup_threw exc) = err exc

-- The two `except` clauses around it.
unfoldable pub as_lost_response : Result CapabilityResult → Result CapabilityResult
as_lost_response (ok r) = ok r
as_lost_response (err interrupted) = err interrupted
as_lost_response (err _) = err lost_response_error

unfoldable pub reconciled_state : CapabilityResult → ExecutionState
reconciled_state r = if r.status == "succeeded" then executed else failed
