-- ===== src/Capabilities/Autonomy/Examples.antt =====
-- Concrete policies, approvals and machines.
use skifer.Prelude.{◌≤◌, ◌≡◌, ◌⊎◌, ◌↔◌, refl, true, false, none, some, [], ◌∷◌, List, first_some}
use skifer.Outcome.{err, autonomy_error}
use skifer.Time.{DateTime, is_aware, utc, hours}
use skifer.Json.{sort_fields, is_finite, Value, text, dict, end, field, name}
use skifer.Json.Canonical.{
  canonical_state, copy_state, visit, copy_node, scan_keys, charge, copy_mapping, copy_scalar,
  digest_of, copy_list,
}
use skifer.Prelude.Text.{has_control, is_hash}
use skifer.Capabilities.Model.{guarded, irreversible}
use skifer.Capabilities.Preconditions.{PreconditionReport, allow, is_allow, matches_allow}
use skifer.Capabilities.Preconditions.Evaluator.{precondition_hash, bounded_hash, report_identity}
use skifer.Capabilities.Autonomy.{
  guarded_mode, supervised_mode, ApprovalRecord, resolve_autonomy_mode, declared_mode, rank,
  validate_approval, executing, validate_text, request_hash, request_identity, expected_hash,
  allowed,
}
use skifer.Capabilities.Autonomy.Mode.{environment_mode, resolve_strictest, resolve_refuses_iff}
use skifer.Capabilities.Autonomy.Approvals.{Binds, validate_approval-Binds}
use skifer.Capabilities.Autonomy.Machine.{
  Machine, new_machine, begin_execution, pass_preconditions, request_approval, check_given,
  write_given, record_approval, check_approval, commit, move, require_report, copy_request,
  aware_now,
}
use skifer.Capabilities.Autonomy.Lifecycle.{
  Call, pass, ask_approval, give_approval, begin, succeed, shadow, invoke, invoke_all, Moved,
  invoke-Moved,
}
use skifer.Capabilities.Autonomy.Gate.{Gate, begin_execution-Gate}
use skifer.Capabilities.Autonomy.Kept.{IsKept, invoke_all-IsKept}
use skifer.Capabilities.Governed.Samples.{plain_json, sample_hash, refund_order}

abbrev arguments : Value
arguments = dict (field (name "order") (text "A-17") end)

abbrev at_noon : DateTime
at_noon = record { instant = hours 12; zone = utc }

abbrev report : PreconditionReport
report = record {
  capability_id = "refund_order";
  capability_version = "1.0.0";
  decision = allow;
  outcomes = [];
  evaluated_at = at_noon;
  requires_escalation = false;
}

abbrev approval : ApprovalRecord
approval = record {
  capability_id = "refund_order";
  capability_version = "1.0.0";
  actor = "maria";
  decision = "approved";
  reason = "Checked with the customer.";
  granted_at = at_noon;
  expires_at = record { instant = hours 14; zone = utc };
  request_hash = sample_hash;
  precondition_hash = sample_hash;
}

abbrev whole_life : List Call
whole_life =
    shadow [] 0 refund_order "agent-7" arguments
    ∷ pass report
    ∷ ask_approval refund_order "agent-7" arguments
    ∷ give_approval at_noon approval
    ∷ begin at_noon refund_order "agent-7" arguments none none none
    ∷ succeed
    ∷ []

abbrev approved_machine : Machine
approved_machine =
    invoke_all plain_json
      (pass report
        ∷ ask_approval refund_order "agent-7" arguments
        ∷ give_approval at_noon approval
        ∷ [])
      new_machine

resolve_strictest_example :
    ((supervised_mode ≡ declared_mode refund_order.approval)
      ⊎ (supervised_mode ≡ environment_mode (some supervised_mode)))
    × (rank (declared_mode refund_order.approval) ≤ rank supervised_mode)
    × (rank (environment_mode (some supervised_mode)) ≤ rank supervised_mode)
    × (refund_order.reversibility ≡ irreversible → supervised_mode ≡ guarded_mode → ⊥)
unfolding resolve_autonomy_mode
resolve_strictest_example =
    resolve_strictest refund_order (some supervised_mode) supervised_mode refl

resolve_refuses_iff_example :
    (resolve_autonomy_mode refund_order (some guarded_mode) ≡ err autonomy_error) ↔ (
      (refund_order.reversibility ≡ irreversible)
      × (refund_order.approval ≡ guarded)
      × (some guarded_mode ≡ some guarded_mode))
resolve_refuses_iff_example = resolve_refuses_iff refund_order (some guarded_mode)

invoke-Moved_example : Moved succeed approved_machine (invoke plain_json succeed approved_machine)
invoke-Moved_example = invoke-Moved plain_json succeed approved_machine

invoke_all-IsKept_example : IsKept plain_json (invoke_all plain_json whole_life new_machine)
invoke_all-IsKept_example = invoke_all-IsKept plain_json whole_life

validate_approval-Binds_example :
    Binds plain_json approval refund_order "agent-7" arguments report at_noon none
unfolding validate_approval is_aware validate_text has_control request_hash bounded_hash
    canonical_state request_identity copy_state visit copy_node scan_keys charge copy_mapping
    sort_fields copy_scalar is_hash digest_of expected_hash precondition_hash report_identity
    copy_list is_finite
validate_approval-Binds_example =
    validate_approval-Binds plain_json approval refund_order "agent-7" arguments report at_noon none
      refl

begin_execution-Gate_example :
    (r : PreconditionReport) × (first_some none approved_machine.report ≡ some r)
    × (is_allow r.decision ≡ true)
    × (matches_allow refund_order r ≡ true)
    × Gate plain_json at_noon refund_order "agent-7" arguments r none none approved_machine
    × ((a : ApprovalRecord)
        → none ≡ some a
        → Binds plain_json a refund_order "agent-7" arguments r at_noon none)
    × ((begin_execution plain_json at_noon refund_order "agent-7" arguments none none none
          approved_machine).1.state
        ≡ executing)
unfolding begin_execution invoke_all invoke pass_preconditions request_approval record_approval
    check_given write_given check_approval commit move require_report copy_request aware_now allowed
    matches_allow validate_approval is_aware validate_text has_control request_hash bounded_hash
    canonical_state request_identity copy_state visit copy_node scan_keys charge copy_mapping
    sort_fields copy_scalar is_hash digest_of expected_hash precondition_hash report_identity
    copy_list is_finite
begin_execution-Gate_example =
    begin_execution-Gate plain_json at_noon refund_order "agent-7" arguments none none none
      approved_machine refl
