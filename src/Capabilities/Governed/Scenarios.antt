-- ===== src/Capabilities/Governed/Scenarios.antt =====
-- One request, run, repeated and proposed.
use skifer.Prelude.{ℕ, ◌<◌, ◌≡◌, ◌≢◌, refl, true, false, Option, none, some, List, [], ◌∷◌, arith}
use skifer.Time.{utc}
use skifer.Json.{Value, text, dict, end, field, name}
use skifer.Capabilities.Autonomy.{executing, executed, shadow_mode}
use skifer.Capabilities.Executors.{CapabilityResult, make_result}
use skifer.Capabilities.History.{CapabilityStateEvent}
use skifer.Capabilities.Governed.{Host, World}
use skifer.Capabilities.Governed.Execute.{Request, execute}
use skifer.Capabilities.Governed.Checks.{recorded_result, outcome_detail, success, shadow_output}
use skifer.Capabilities.Governed.Trace.{calls_for}
use skifer.Capabilities.Governed.Session.{start}
use skifer.Capabilities.Governed.Clearance.{Cleared, execute-Cleared}
use skifer.Capabilities.Governed.Samples.{sample_host, sample_hash, refund_request, refund_order}

abbrev fresh : World sample_host
fresh = start sample_host

ran : calls_for sample_hash (execute refund_request fresh).1.calls ≡ 1
unfolding skifer.Time.is_utc skifer.Json.sort_fields skifer.Json.Copy.copy_fields
    skifer.Json.Canonical.visit skifer.Json.Canonical.charge skifer.Json.Canonical.scan_keys
    skifer.Json.Canonical.copy_mapping skifer.Json.Canonical.copy_scalar
    skifer.Json.Canonical.copy_node skifer.Json.Canonical.copy_state skifer.Json.Canonical.digest_of
    skifer.Json.Canonical.canonical_state skifer.Prelude.Text.is_hash
    skifer.Capabilities.Autonomy.allowed skifer.Capabilities.Autonomy.request_identity
    skifer.Capabilities.Autonomy.request_hash skifer.Capabilities.Autonomy.resolve_autonomy_mode
    skifer.Capabilities.Autonomy.Machine.move
    skifer.Capabilities.Autonomy.Machine.pass_preconditions
    skifer.Capabilities.Autonomy.Machine.begin_execution
    skifer.Capabilities.Autonomy.Machine.record_success
    skifer.Capabilities.Preconditions.make_report skifer.Capabilities.Preconditions.matches_allow
    skifer.Capabilities.Preconditions.Evaluator.evaluate
    skifer.Capabilities.Preconditions.Evaluator.bounded_hash skifer.Capabilities.History.make_event
    skifer.Capabilities.History.rows_for skifer.Capabilities.History.newest
    skifer.Capabilities.History.row_of skifer.Capabilities.History.append
    skifer.Capabilities.History.latest_state skifer.Capabilities.History.Detail.is_secret_key
    skifer.Capabilities.History.Detail.copy_detail
    skifer.Capabilities.History.Detail.copy_bounded_detail skifer.Capabilities.Executors.make_result
    skifer.Capabilities.Executors.result_to_dict skifer.Capabilities.Executors.find_executor
    skifer.Capabilities.Executors.get_executor skifer.Capabilities.Arguments.add_if
    skifer.Capabilities.Arguments.matches_type skifer.Capabilities.Arguments.declares
    skifer.Capabilities.Arguments.get_field skifer.Capabilities.Arguments.undeclared
    skifer.Capabilities.Arguments.refuse_keys skifer.Capabilities.Arguments.is_present
    skifer.Capabilities.Arguments.require_keys skifer.Capabilities.Arguments.validate_present
    skifer.Capabilities.Arguments.checked_type skifer.Capabilities.Arguments.enter
    skifer.Capabilities.Arguments.validate_arguments skifer.Capabilities.Governed.Effects.◌>>=◌
    skifer.Capabilities.Governed.Effects.pure skifer.Capabilities.Governed.Effects.lift
    skifer.Capabilities.Governed.Effects.catch skifer.Capabilities.Governed.Effects.ask
    skifer.Capabilities.Governed.Effects.call_out skifer.Capabilities.Governed.Effects.read_latest
    skifer.Capabilities.Governed.Effects.append skifer.Capabilities.Governed.Effects.read_now
    skifer.Capabilities.Governed.Effects.stamp skifer.Capabilities.Governed.Effects.event
    skifer.Capabilities.Governed.Effects.attest skifer.Capabilities.Governed.Checks.authorize
    skifer.Capabilities.Governed.Checks.checked_output skifer.Capabilities.Governed.Execute.identity
    skifer.Capabilities.Governed.Execute.lease_for
    skifer.Capabilities.Governed.Execute.call_executor
    skifer.Capabilities.Governed.Execute.call_and_record
    skifer.Capabilities.Governed.Execute.attested_call skifer.Capabilities.Governed.Execute.begin
    skifer.Capabilities.Governed.Execute.refuse_irreversible
    skifer.Capabilities.Governed.Execute.run_in_mode skifer.Capabilities.Governed.Execute.run_fresh
    skifer.Capabilities.Governed.Execute.dispatch skifer.Capabilities.Governed.Execute.execute_as
    skifer.Capabilities.Governed.Execute.execute
    skifer.Capabilities.Governed.Execute.Prepare.initial_report
    skifer.Capabilities.Governed.Execute.Prepare.prepare_report
    skifer.Capabilities.Governed.Samples.tally skifer.Capabilities.Governed.Trace.calls_for
    skifer.Capabilities.Arguments.validate_value
ran = refl

execute-Cleared_example : Cleared fresh refund_request sample_hash
unfolding calls_for
execute-Cleared_example =
    execute-Cleared sample_host refund_request fresh sample_hash (omega (arith, ran))
