-- ===== src/Capabilities/Preconditions/Examples.antt =====
-- A concrete rule, and what the evaluator makes of it.
use skifer.Prelude.{◌≡◌, refl, true, false, [], ◌∷◌, All, map}
use skifer.Prelude.Text.{is_hash, is_plain_name}
use skifer.Time.{DateTime, is_utc, utc}
use skifer.Json.{Value, bool, dict, end, field, name, sort_fields, is_finite}
use skifer.Json.Canonical.{
  canonical_state, copy_state, visit, copy_node, scan_keys, charge, copy_mapping, copy_scalar,
  digest_of, copy_list,
}
use skifer.Capabilities.Model.{CapabilityDefinition}
use skifer.Capabilities.Preconditions.{
  PreconditionOutcome, PreconditionReport, returned, allow, aggregate, matches_allow, make_outcome,
  make_report, report_of, each_rule, find_rule, same_observations,
}
use skifer.Capabilities.Preconditions.Evaluator.{
  Evaluator, evaluate, evaluate_snapshot, evaluate_rule, judge, checked_outcome, reload,
  assert_unchanged,
}
use skifer.Capabilities.Preconditions.Verdict.{Allowed, IsVerdict, evaluate-IsVerdict}
use skifer.Capabilities.Preconditions.Recheck.{observation, assert_unchanged-IsVerdict}
use skifer.Capabilities.Governed.Samples.{plain_json, sample_hash, refund_order}

abbrev noon : DateTime
noon = record { instant = 43_200; zone = utc }

abbrev still_open : PreconditionOutcome
still_open = record {
  rule = "still_open";
  rule_version = "1";
  decision = allow;
  reason_code = "open";
  observed_state_hash = sample_hash;
  observed_at = noon;
}

abbrev evaluator : Evaluator
evaluator = record {
  lib = plain_json;
  lower = λ s. s;
  rules = ("still_open", λ t arguments state. returned still_open) ∷ [];
  max_rules = 4;
}

abbrev guarded_order : CapabilityDefinition
guarded_order = record refund_order { preconditions = "still_open" ∷ [] }

abbrev open_state : Value
open_state = dict (field (name "open") (bool true) end)

abbrev open_report : PreconditionReport
open_report = record {
  capability_id = "refund_order";
  capability_version = "1.0.0";
  decision = allow;
  outcomes = still_open ∷ [];
  evaluated_at = noon;
  requires_escalation = false;
}

evaluate-IsVerdict_example : IsVerdict guarded_order noon open_report
unfolding evaluate evaluate_snapshot evaluate_rule judge checked_outcome reload make_outcome
    make_report report_of each_rule find_rule aggregate is_utc is_hash is_plain_name canonical_state
    copy_state visit copy_node scan_keys charge copy_mapping sort_fields copy_scalar digest_of
    copy_list is_finite
evaluate-IsVerdict_example =
    evaluate-IsVerdict evaluator 0 noon guarded_order (dict end) open_state open_report refl

assert_unchanged-IsVerdict_example :
    (matches_allow guarded_order open_report ≡ true)
    × IsVerdict guarded_order noon open_report
    × All Allowed open_report.outcomes
    × (map observation open_report.outcomes ≡ map observation open_report.outcomes)
unfolding assert_unchanged matches_allow same_observations evaluate evaluate_snapshot evaluate_rule
    judge checked_outcome reload make_outcome make_report report_of each_rule find_rule aggregate
    is_utc is_hash is_plain_name canonical_state copy_state visit copy_node scan_keys charge
    copy_mapping sort_fields copy_scalar digest_of copy_list is_finite
assert_unchanged-IsVerdict_example =
    assert_unchanged-IsVerdict evaluator 0 noon guarded_order (dict end) open_state open_report
      open_report refl
