-- ===== src/Capabilities/Preconditions/Evaluator.antt =====
-- preconditions.py: `PreconditionEvaluator` and the helpers that hash what it saw; and
-- `precondition_hash` of autonomy.py, which hashes a report.
use skifer.Prelude.{
  ℕ, String, Bool, true, false, ◌==◌, none, some, List, [], ◌∷◌, ltb, any, length, if◌then◌else◌,
}
use skifer.Prelude.Text.{text_length}
use skifer.Outcome.{
  value_error, precondition_error, approval_error, snapshot_too_large, interrupted, class_of,
  Result, ok, err, require, refuse, ◌>>=◌, ◌>>◌,
}
use skifer.Time.{DateTime, is_utc}
use skifer.Json.{Value, bool, text, list, dict, Items, nil, cons, end, field, name, JsonLibrary}
use skifer.Json.Canonical.{canonical_state, digest_of}
use skifer.Capabilities.Model.{CapabilityDefinition}
use skifer.Capabilities.Preconditions.{
  PreconditionOutcome, PreconditionReport, RuleAnswer, returned, other_object, threw, Rules,
  max_rule_name_length, allow, is_allow, decision_value, make_outcome, make_report, find_rule,
  unknown_outcome, report_of, each_rule, matches_allow, same_observations,
}
use skifer.Capabilities.Preconditions.Reason.{exception_reason}

-- What the evaluator takes from its surroundings: the libraries, `str.lower`, the registered rules
-- and the bound `max_rules` of its constructor.
pub record Evaluator : Type 1 where
  pub lib : JsonLibrary
  pub lower : String → String
  pub rules : Rules
  pub max_rules : ℕ

abbrev pub is_empty : List String → Bool
is_empty [] = true
is_empty (_ ∷ _) = false

module _ (e : Evaluator) where
  open e use {lib, lower, rules, max_rules}

  -- `json.loads(json.dumps(state, ...))`
  unfoldable pub reload : Value → Result Value
  reload v = elim (lib.loads (lib.dumps v)) [ none ↦ err value_error | some w ↦ ok w ]

  -- `_unavailable_hash`
  unavailable_hash : String → String
  unavailable_hash reason = digest_of lib (dict (field (name "state") (text reason) end))

  -- The `try` around the two constructions of an outcome that the rule returned.
  unfoldable pub checked_outcome :
      String → String → DateTime → PreconditionOutcome → Result PreconditionOutcome
  checked_outcome rule_name state_hash evaluated_at outcome = elim (make_outcome outcome) [
    | err _ ↦ unknown_outcome rule_name "invalid_rule_return" state_hash evaluated_at
    | ok _ ↦
        elim (make_outcome
          (record outcome { observed_state_hash = state_hash; observed_at = evaluated_at })) [
            | err _ ↦ unknown_outcome rule_name "invalid_rule_return" state_hash evaluated_at
            | ok o ↦ ok o
          ]
  ]

  -- What `_evaluate_rule` makes of the rule's answer.
  unfoldable pub judge : String → String → DateTime → RuleAnswer → Result PreconditionOutcome
  unfolding checked_outcome
  judge rule_name state_hash evaluated_at (threw interrupted) = err interrupted
  judge rule_name state_hash evaluated_at (threw exc) =
      unknown_outcome rule_name (exception_reason lower (class_of exc)) state_hash evaluated_at
  judge rule_name state_hash evaluated_at other_object =
      unknown_outcome rule_name "invalid_rule_return" state_hash evaluated_at
  judge rule_name state_hash evaluated_at (returned outcome) =
      if outcome.rule == rule_name
      then checked_outcome rule_name state_hash evaluated_at outcome
      else unknown_outcome rule_name "invalid_rule_return" state_hash evaluated_at

  -- `PreconditionEvaluator._evaluate_rule`
  unfoldable pub evaluate_rule :
      ℕ → Value → Value → String → DateTime → String → Result PreconditionOutcome
  unfolding judge
  evaluate_rule tick arguments state state_hash evaluated_at rule_name =
      elim (find_rule rule_name rules) [
        | none ↦ unknown_outcome rule_name "rule_not_registered" state_hash evaluated_at
        | some rule ↦ judge rule_name state_hash evaluated_at (rule tick arguments state)
      ]

  -- The branch for a state that is no bounded JSON snapshot.
  unfoldable pub all_unknown : CapabilityDefinition → DateTime → String → Result PreconditionReport
  unfolding unavailable_hash
  all_unknown definition evaluated_at reason = do
    outcomes ←
        each_rule
          (λ rule_name. unknown_outcome rule_name reason (unavailable_hash reason) evaluated_at)
          definition.preconditions
    report_of definition outcomes evaluated_at

  -- The rules, run on the canonical snapshot.
  unfoldable pub evaluate_snapshot :
      ℕ
      → CapabilityDefinition
      → Value
      → DateTime
      → Result (Value × String)
      → Result PreconditionReport
  unfolding reload evaluate_rule all_unknown
  evaluate_snapshot tick definition arguments evaluated_at (err snapshot_too_large) =
      all_unknown definition evaluated_at "state_snapshot_too_large"
  evaluate_snapshot tick definition arguments evaluated_at (err _) =
      all_unknown definition evaluated_at "state_snapshot_invalid"
  evaluate_snapshot tick definition arguments evaluated_at (ok snapshot) = do
    outcomes ←
        each_rule
          (λ rule_name. do
            state ← reload snapshot.0
            evaluate_rule tick arguments state snapshot.1 evaluated_at rule_name)
          definition.preconditions
    report_of definition outcomes evaluated_at

  -- `PreconditionEvaluator.evaluate`; `evaluated_at` is the one reading of the clock.
  unfoldable pub evaluate :
      ℕ → DateTime → CapabilityDefinition → Value → Value → Result PreconditionReport
  evaluate tick evaluated_at definition arguments state = do
    refuse (ltb max_rules (length definition.preconditions)) precondition_error
    refuse (any (λ r. ltb max_rule_name_length (text_length r)) definition.preconditions)
        precondition_error
    require (is_utc evaluated_at) value_error
    if is_empty definition.preconditions
        then make_report (record {
          capability_id = definition.id;
          capability_version = definition.version;
          decision = allow;
          outcomes = [];
          evaluated_at = evaluated_at;
          requires_escalation = false;
        })
        else evaluate_snapshot tick definition arguments evaluated_at (canonical_state lib state)

  -- `PreconditionEvaluator.assert_unchanged`
  unfoldable pub assert_unchanged :
      ℕ
      → DateTime
      → CapabilityDefinition
      → Value
      → Value
      → PreconditionReport
      → Result PreconditionReport
  assert_unchanged tick evaluated_at definition arguments state report = do
    require (matches_allow definition report) precondition_error
    current ← evaluate tick evaluated_at definition arguments state
    require (is_allow current.decision) precondition_error
    require (same_observations report.outcomes current.outcomes) precondition_error
    ok current

-- The text of a report that an approval is bound to.
outcome_identity : PreconditionOutcome → Value
outcome_identity o = dict (
    field (name "rule") (text o.rule) (
      field (name "rule_version") (text o.rule_version) (
        field (name "decision") (text (decision_value o.decision)) (
          field (name "reason_code") (text o.reason_code)
            (field (name "observed_state_hash") (text o.observed_state_hash) end)))))

outcome_identities : List PreconditionOutcome → Items
unfolding outcome_identity
outcome_identities [] = nil
outcome_identities (o ∷ os) = cons (outcome_identity o) (outcome_identities os)

unfoldable pub report_identity : PreconditionReport → Value
unfolding outcome_identities
report_identity r = dict (
    field (name "capability_id") (text r.capability_id) (
      field (name "capability_version") (text r.capability_version) (
        field (name "decision") (text (decision_value r.decision)) (
          field (name "requires_escalation") (bool r.requires_escalation)
            (field (name "outcomes") (list (outcome_identities r.outcomes)) end)))))

-- `_bounded_hash` of autonomy.py
unfoldable pub bounded_hash : JsonLibrary → Value → Result String
bounded_hash lib payload = elim (canonical_state lib payload) [
  | ok snapshot ↦ ok snapshot.1
  | err _ ↦ err approval_error
]

-- `precondition_hash` of autonomy.py
unfoldable pub precondition_hash : JsonLibrary → PreconditionReport → Result String
precondition_hash lib report = bounded_hash lib (report_identity report)
