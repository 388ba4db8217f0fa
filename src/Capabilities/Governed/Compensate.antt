-- ===== src/Capabilities/Governed/Compensate.antt =====
-- `GovernedExecutor.compensate` of executor.py.
use skifer.Prelude.{String, Bool, true, false, ◌==◌, Option, none, some, or_else, if◌then◌else◌}
use skifer.Outcome.{governed_execution_error, Result, ok, err, require, refuse}
use skifer.Json.{Value, text, dict, end, field, name}
use skifer.Capabilities.Model.{CapabilityDefinition}
use skifer.Capabilities.Preconditions.{PreconditionReport}
use skifer.Capabilities.Autonomy.{
  AutonomyMode, ExecutionState, executed, compensating, compensated, ApprovalRecord, request_hash,
  declared_mode,
}
use skifer.Capabilities.Autonomy.Machine.{has_compensation}
use skifer.Capabilities.Lease.{CredentialLease}
use skifer.Capabilities.Executors.{CapabilityResult}
use skifer.Capabilities.History.{CapabilityStateEvent}
use skifer.Capabilities.Governed.{Host}
use skifer.Capabilities.Governed.Effects.{M, ◌>>=◌, ◌>>◌, pure, lift, read_latest, attest}
use skifer.Capabilities.Governed.Checks.{assert_same_identity}
use skifer.Capabilities.Governed.Execute.{Request, execute_as}

-- The arguments of one call of `compensate`.
pub record Compensation : Type 0 where
  pub definition : CapabilityDefinition
  pub subject : String
  pub original_request_hash : String
  pub reason : String
  pub mode : Option AutonomyMode
  pub approval : Option ApprovalRecord
  pub precondition_report : Option PreconditionReport
  pub lease : Option CredentialLease

abbrev is_executed : ExecutionState → Bool
is_executed executed = true
is_executed _ = false

-- The event that a compensation starts from.
unfoldable pub original_of : Option CapabilityStateEvent → Result CapabilityStateEvent
original_of none = err governed_execution_error
original_of (some e) = if is_executed e.state then ok e else err governed_execution_error

abbrev compensation_id : CapabilityDefinition → String
compensation_id d = or_else d.compensation ""

abbrev pub compensation_arguments : Compensation → Value
compensation_arguments c = dict (
    field (name "original_request_hash") (text c.original_request_hash)
      (field (name "reason") (text c.reason) end))

abbrev started_detail : String → String → Value
started_detail hash reason = dict (
    field (name "kind") (text "compensation_started") (
      field (name "compensation_request_hash") (text hash)
        (field (name "reason") (text reason) end)))

abbrev completed_detail : String → Value
completed_detail hash = dict (
    field (name "kind") (text "compensation_completed")
      (field (name "compensation_request_hash") (text hash) end))

-- The request that runs the compensation.
unfoldable pub compensating_request : Compensation → CapabilityDefinition → Request
compensating_request c definition = record {
  definition = definition;
  subject = c.subject;
  arguments = compensation_arguments c;
  mode = or_else c.mode (declared_mode definition.approval);
  approval = c.approval;
  precondition_report = c.precondition_report;
  lease = c.lease;
}

module _ {h : Host} where
  -- The last step, of a compensation that succeeded.
  unfoldable pub complete : Compensation → String → CapabilityResult → M h CapabilityResult
  complete c hash result =
      if result.status == "succeeded"
      then (do
        attest c.original_request_hash c.definition c.subject compensated (completed_detail hash)
        pure result)
      else pure result

  -- `compensate`
  unfoldable pub compensate : Compensation → M h CapabilityResult
  compensate c = do
    lift (require (has_compensation c.definition) governed_execution_error)
    lift (refuse (c.reason == "") governed_execution_error)
    latest ← read_latest c.original_request_hash
    original ← lift (original_of latest)
    lift (assert_same_identity original c.definition c.subject)
    definition ← lift (h.get_capability (compensation_id c.definition))
    hash ← lift (request_hash h.lib definition c.subject (compensation_arguments c))
    attest c.original_request_hash c.definition c.subject compensating
        (started_detail hash c.reason)
    result ← execute_as (compensating_request c definition) (some hash)
    complete c hash result
