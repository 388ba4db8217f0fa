-- ===== src/Capabilities/Governed/Execute.antt =====
-- `GovernedExecutor._execute` of executor.py and the methods that it calls.
pub mod Prior
pub mod Prepare
use skifer.Prelude.{
  ℕ, String, Bool, true, false, not, ◌&&◌, ◌==◌, Option, none, some, List, [], ◌∷◌, is_some,
  if◌then◌else◌,
}
use skifer.Outcome.{
  Error, governed_execution_error, credential_error, Result, ok, err, require, refuse,
}
use skifer.Json.{Value, is_mapping}
use skifer.Json.Copy.{copy_json_safe}
use skifer.Capabilities.Model.{CapabilityDefinition, is_irreversible}
use skifer.Capabilities.Preconditions.{PreconditionReport}
use skifer.Capabilities.Autonomy.{
  AutonomyMode, shadow_mode, supervised_mode, guarded_mode, is_guarded, executing, executed, failed,
  ApprovalRecord, request_hash, resolve_autonomy_mode,
}
use skifer.Capabilities.Autonomy.Machine.{
  Machine, new_machine, pass_preconditions, begin_execution, record_success, record_failure,
}
use skifer.Capabilities.Lease.{CredentialLease}
use skifer.Capabilities.Executors.{
  CapabilityResult, make_result, CallAnswer, returned, threw, Executor, get_executor,
}
use skifer.Capabilities.History.{CapabilityStateEvent}
use skifer.Capabilities.Governed.{Host, World}
use skifer.Capabilities.Governed.Effects.{
  M, ◌>>=◌, ◌>>◌, pure, lift, raise, catch, ask, call_out, read_latest, attest,
}
use skifer.Capabilities.Governed.Checks.{
  authorize, assert_same_identity, success, failure, shadow_output, checked_output, call_detail,
  outcome_detail,
}
use Prior.{resolve_prior}
use Prepare.{prepare_report, acquire_lease}

-- The arguments of one call of `execute`.
pub record Request : Type 0 where
  pub definition : CapabilityDefinition
  pub subject : String
  pub arguments : Value
  pub mode : AutonomyMode
  pub approval : Option ApprovalRecord
  pub precondition_report : Option PreconditionReport
  pub lease : Option CredentialLease

abbrev pub is_shadow : AutonomyMode → Bool
is_shadow shadow_mode = true
is_shadow _ = false

abbrev pub is_supervised : AutonomyMode → Bool
is_supervised supervised_mode = true
is_supervised _ = false

abbrev answer_value : CallAnswer → Result Value
answer_value (returned v) = ok v
answer_value (threw e) = err e

-- `known_request_hash or request_hash(...)`
unfoldable pub identity : Host → Request → Option String → Result String
identity h r none = request_hash h.lib r.definition r.subject r.arguments
identity h r (some known) =
    if known == "" then request_hash h.lib r.definition r.subject r.arguments else ok known

module _ {h : Host} where
  -- The lease that the executor is called with.
  unfoldable pub lease_for : Request → AutonomyMode → Executor → M h (Option CredentialLease)
  lease_for r effective executor =
      if executor.needs_credential
      then (do
        lease ← acquire_lease h.credential_broker r.definition r.subject effective r.lease
        pure (some lease))
      else (do lift (elim r.lease [ some _ ↦ err credential_error | none ↦ ok tt ]); pure none)

  -- The body of the `try` around the call: the result and `echo_redacted`.
  unfoldable pub call_executor :
      Request → String → Value → AutonomyMode → Executor → Machine → M h (CapabilityResult × Bool)
  call_executor r digest copied effective executor machine = do
    lease ← lease_for r effective executor
    answer ← call_out digest r.definition.executor (λ t. executor.call t copied lease)
    raw ← lift (answer_value answer)
    output ← lift (checked_output lease raw)
    result ← lift (make_result (success r.definition output.0))
    lift (record_success machine).0
    pure (result, output.1)

  -- The handler: a failure, with no redaction to report. (`echo_redacted` may be up already if the
  -- result cannot be made; a redacted copy of JSON-native data always makes one.)
  unfoldable pub failed_call : Request → Machine → Error → M h (CapabilityResult × Bool)
  failed_call r machine exc = do
    result ← lift (make_result (failure r.definition exc))
    lift (record_failure machine).0
    pure (result, false)

  -- The call, and the event of its outcome.
  unfoldable pub call_and_record :
      Request → String → Value → AutonomyMode → Executor → Machine → M h CapabilityResult
  call_and_record r digest copied effective executor machine = do
    outcome ←
        catch (call_executor r digest copied effective executor machine) (failed_call r machine)
    attest digest r.definition r.subject
        (if outcome.0.status == "succeeded" then executed else failed)
        (outcome_detail outcome.0 outcome.1)
    pure outcome.0

  -- From the event before the call to the event behind it.
  unfoldable pub attested_call :
      Request → String → Value → AutonomyMode → Executor → Machine → M h CapabilityResult
  attested_call r digest copied effective executor machine = do
    attest digest r.definition r.subject executing call_detail
    call_and_record r digest copied effective executor machine

  -- The state machine's part, and the choice of the executor.
  unfoldable pub begin : Request → String → Value → AutonomyMode → M h CapabilityResult
  begin r digest copied effective = do
    report ← prepare_report r.definition copied r.precondition_report
    let passed = pass_preconditions report new_machine
    lift passed.0
    lift (refuse (is_supervised effective && not (is_some r.approval)) governed_execution_error)
    now ← ask h.clock
    let begun =
        begin_execution h.lib now r.definition r.subject copied (some report)
          (if is_supervised effective then r.approval else none) (some digest) passed.1
    lift begun.0
    executor ← lift (get_executor r.definition.executor h.executors)
    attested_call r digest copied effective executor begun.1

  -- In SHADOW mode nothing is executed, and a lease is refused.
  unfoldable pub propose : Request → Option CredentialLease → M h CapabilityResult
  propose r (some _) = raise credential_error
  propose r none = lift (make_result (success r.definition shadow_output))

  unfoldable pub refuse_irreversible : Request → AutonomyMode → M h (Unit {0})
  refuse_irreversible r effective = lift (
      refuse (is_guarded effective && is_irreversible r.definition.reversibility)
        governed_execution_error)

  -- A request with no history, in its effective mode.
  unfoldable pub run_in_mode : Request → String → Value → AutonomyMode → M h CapabilityResult
  run_in_mode r digest copied effective =
      if is_shadow effective
      then propose r r.lease
      else (do refuse_irreversible r effective; begin r digest copied effective)

  unfoldable pub run_fresh : Request → String → Value → M h CapabilityResult
  run_fresh r digest copied = do
    lift (authorize h.python h.scopes r.definition copied)
    effective ← lift (resolve_autonomy_mode r.definition (some r.mode))
    run_in_mode r digest copied effective

  unfoldable pub dispatch :
      Request → String → Value → Option CapabilityStateEvent → M h CapabilityResult
  dispatch r digest copied none = run_fresh r digest copied
  dispatch r digest copied (some prior) = do
    lift (assert_same_identity prior r.definition r.subject)
    resolve_prior prior r.definition r.subject copied digest

  -- `_execute`
  unfoldable pub execute_as : Request → Option String → M h CapabilityResult
  execute_as r known = do
    lift (refuse (r.subject == "") governed_execution_error)
    lift (require (is_mapping r.arguments) governed_execution_error)
    digest ← lift (identity h r known)
    copied ← lift (copy_json_safe r.arguments)
    prior ← read_latest digest
    dispatch r digest copied prior

  -- `execute`
  unfoldable pub execute : Request → M h CapabilityResult
  execute r = execute_as r none
