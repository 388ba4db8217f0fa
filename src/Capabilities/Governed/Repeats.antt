-- ===== src/Capabilities/Governed/Repeats.antt =====
-- One request, repeated behind its result, and one that is only proposed.
use skifer.Prelude.{ℕ, ◌≡◌, ◌≢◌, refl, true, false, Option, none, some, List, [], ◌∷◌, arith}
use skifer.Outcome.{ok}
use skifer.Time.{utc}
use skifer.Json.{Value, text, dict, end, field, name}
use skifer.Capabilities.Autonomy.{ExecutionState, executing, executed, shadow_mode}
use skifer.Capabilities.Executors.{CapabilityResult, make_result}
use skifer.Capabilities.History.{CapabilityStateEvent, Row}
use skifer.Capabilities.Governed.{Host, World}
use skifer.Capabilities.Governed.Execute.{Request, execute}
use skifer.Capabilities.Governed.Checks.{recorded_result, outcome_detail, success}
use skifer.Capabilities.Governed.Session.{Operation, run, restart, start, session}
use skifer.Capabilities.History.Rows.{Grown}
use skifer.Capabilities.Governed.AppendOnly.{session-Grown}
use skifer.Capabilities.Governed.Replay.{Replayed, execute-Replayed}
use skifer.Capabilities.Governed.Shadow.{Proposed, execute-Proposed}
use skifer.Capabilities.Governed.Recorded.{recorded_result-outcome_detail}
use skifer.Capabilities.Governed.Samples.{
  plain_json, sample_host, sample_hash, refund_request, refund_order,
}

abbrev refunded : CapabilityResult
refunded = success refund_order (dict (field (name "ticket") (text "R-1") end))

abbrev refunded_event : CapabilityStateEvent
refunded_event = record {
  event_id = "e1";
  request_hash = sample_hash;
  capability_id = "refund_order";
  capability_version = "1.0.0";
  subject = "agent-7";
  state = executed;
  occurred_at = record { instant = 7; zone = utc };
  detail = outcome_detail refunded false;
}

abbrev refunded_row : Row plain_json
refunded_row = record {
  event_id = "e1";
  request_hash = sample_hash;
  capability_id = "refund_order";
  capability_version = "1.0.0";
  subject = "agent-7";
  state = executed;
  occurred_at = record { instant = 7; zone = utc };
  detail = outcome_detail refunded false;
}

abbrev behind : World sample_host
behind = record (start sample_host) { rows = refunded_row ∷ [] }

abbrev shadow_request : Request
shadow_request = record refund_request { mode = shadow_mode }

executed_ne : executed ≢ executing
executed_ne p = ground arith

recorded_result-outcome_detail_example :
    recorded_result (record refunded_event { detail = outcome_detail refunded false }) ≡ ok refunded
unfolding skifer.Json.Copy.copy_fields skifer.Capabilities.Executors.make_result
recorded_result-outcome_detail_example =
    recorded_result-outcome_detail refunded_event refunded false refl

execute-Replayed_example : Replayed behind refunded_event (execute refund_request behind)
unfolding skifer.Time.is_utc skifer.Json.sort_fields skifer.Json.Canonical.visit
    skifer.Json.Canonical.charge skifer.Json.Canonical.scan_keys skifer.Json.Canonical.copy_mapping
    skifer.Json.Canonical.copy_scalar skifer.Json.Canonical.copy_node
    skifer.Json.Canonical.copy_state skifer.Json.Canonical.digest_of
    skifer.Json.Canonical.canonical_state skifer.Prelude.Text.is_hash
    skifer.Capabilities.Autonomy.request_identity skifer.Capabilities.Autonomy.request_hash
    skifer.Capabilities.Preconditions.Evaluator.bounded_hash skifer.Capabilities.History.make_event
    skifer.Capabilities.History.rows_for skifer.Capabilities.History.newest
    skifer.Capabilities.History.event_from_row skifer.Capabilities.History.latest_state
    skifer.Capabilities.History.Detail.is_secret_key skifer.Capabilities.History.Detail.copy_detail
    skifer.Capabilities.History.Detail.copy_bounded_detail
    skifer.Capabilities.Executors.result_to_dict skifer.Capabilities.Governed.Execute.identity
execute-Replayed_example =
    execute-Replayed sample_host refund_request behind sample_hash refunded_event refl refl
      executed_ne

execute-Proposed_example :
    Proposed shadow_request (start sample_host) (execute shadow_request (start sample_host))
unfolding skifer.Json.sort_fields skifer.Json.Canonical.visit skifer.Json.Canonical.charge
    skifer.Json.Canonical.scan_keys skifer.Json.Canonical.copy_mapping
    skifer.Json.Canonical.copy_scalar skifer.Json.Canonical.copy_node
    skifer.Json.Canonical.copy_state skifer.Json.Canonical.digest_of
    skifer.Json.Canonical.canonical_state skifer.Prelude.Text.is_hash
    skifer.Capabilities.Autonomy.request_identity skifer.Capabilities.Autonomy.request_hash
    skifer.Capabilities.Autonomy.resolve_autonomy_mode
    skifer.Capabilities.Preconditions.Evaluator.bounded_hash skifer.Capabilities.History.rows_for
    skifer.Capabilities.History.newest skifer.Capabilities.History.latest_state
    skifer.Capabilities.Governed.Execute.identity
execute-Proposed_example =
    execute-Proposed sample_host shadow_request (start sample_host) sample_hash refl refl refl

abbrev three_steps : List Operation
three_steps = run refund_request ∷ restart ∷ run shadow_request ∷ []

session-Grown_example : Grown behind.rows (session three_steps behind).rows
session-Grown_example = session-Grown sample_host three_steps behind
