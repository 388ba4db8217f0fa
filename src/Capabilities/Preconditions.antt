-- ===== src/Capabilities/Preconditions.antt =====
-- preconditions.py: typed verdicts, the registry of rules, their evaluation and the recheck.
pub mod Reason
pub mod Evaluator
pub mod Verdict
pub mod Recheck
mod Examples
use skifer.Prelude.{
  ℕ, String, Bool, true, false, not, ◌&&◌, ◌||◌, ◌==◌, Option, none, some, List, [], ◌∷◌, ltb, any,
  length, if◌then◌else◌,
}
use skifer.Prelude.Text.{text_length, is_hash, is_plain_name}
use skifer.Outcome.{
  Error, type_error, value_error, precondition_error, approval_error, snapshot_invalid,
  snapshot_too_large, raised, interrupted, Result, ok, err, require, refuse, ◌>>=◌, ◌>>◌,
}
use skifer.Time.{DateTime, is_utc}
use skifer.Json.{
  Value, bool, text, list, dict, Items, nil, cons, Fields, end, field, name, JsonLibrary,
}
use skifer.Json.Canonical.{canonical_state, digest_of}
use skifer.Capabilities.Model.{CapabilityDefinition}
use Reason.{exception_reason, max_reason_code_length}

abbrev pub max_rule_name_length : ℕ
max_rule_name_length = 128

abbrev pub max_rule_version_length : ℕ
max_rule_version_length = 64

pub data PreconditionDecision : Type 0 where
  allow deny unknown : PreconditionDecision

abbrev pub is_allow : PreconditionDecision → Bool
is_allow allow = true
is_allow _ = false

abbrev pub is_deny : PreconditionDecision → Bool
is_deny deny = true
is_deny _ = false

abbrev pub is_unknown : PreconditionDecision → Bool
is_unknown unknown = true
is_unknown _ = false

abbrev pub decision_value : PreconditionDecision → String
decision_value allow = "ALLOW"
decision_value deny = "DENY"
decision_value unknown = "UNKNOWN"

pub record PreconditionOutcome : Type 0 where
  pub rule : String
  pub rule_version : String
  pub decision : PreconditionDecision
  pub reason_code : String
  pub observed_state_hash : String
  pub observed_at : DateTime

-- A bounded plain name.
abbrev pub is_bounded_name : ℕ → String → Bool
is_bounded_name maximum s = not (ltb maximum (text_length s)) && is_plain_name s

-- `PreconditionOutcome.__post_init__`
unfoldable pub make_outcome : PreconditionOutcome → Result PreconditionOutcome
make_outcome o = do
  require (is_bounded_name max_rule_name_length o.rule) value_error
  refuse (o.rule_version == "" || ltb max_rule_version_length (text_length o.rule_version))
      value_error
  require (is_bounded_name max_reason_code_length o.reason_code) value_error
  require (is_hash o.observed_state_hash) value_error
  require (is_utc o.observed_at) value_error
  ok o

pub record PreconditionReport : Type 0 where
  pub capability_id : String
  pub capability_version : String
  pub decision : PreconditionDecision
  pub outcomes : List PreconditionOutcome
  pub evaluated_at : DateTime
  pub requires_escalation : Bool

-- `PreconditionReport.__post_init__`
unfoldable pub make_report : PreconditionReport → Result PreconditionReport
make_report r = do
  refuse (r.capability_id == "") value_error
  refuse (r.capability_version == "") value_error
  require (is_utc r.evaluated_at) value_error
  ok r

-- What a rule's call gives: an outcome, some other object, or an exception.
pub data RuleAnswer : Type 0 where
  returned : PreconditionOutcome → RuleAnswer
  other_object : RuleAnswer
  threw : Error → RuleAnswer

-- A rule is the application's code; its answer may differ from one evaluation to the next, which
-- the number stands for.
abbrev pub Rule : Type 0
Rule = ℕ → Value → Value → RuleAnswer

-- `PreconditionRegistry._rules`
abbrev pub Rules : Type 0
Rules = List (String × Rule)

-- `cls._rules[name]`
unfoldable pub find_rule : String → Rules → Option Rule
find_rule k [] = none
find_rule k ((j, r) ∷ rest) = if j == k then some r else find_rule k rest

-- `PreconditionRegistry.register(name)(func)`
unfoldable pub register_rule : String → Rule → Rules → Result Rules
register_rule k rule rules = do
  require (is_bounded_name max_rule_name_length k) precondition_error
  elim (find_rule k rules) [ some _ ↦ err precondition_error | none ↦ ok ((k, rule) ∷ rules) ]

-- `_aggregate`
unfoldable pub aggregate : List PreconditionOutcome → PreconditionDecision
aggregate outcomes =
    if any (λ o. is_deny o.decision) outcomes
    then deny
    else if any (λ o. is_unknown o.decision) outcomes
    then unknown
    else allow

-- `PreconditionEvaluator._unknown`
unfoldable pub unknown_outcome : String → String → String → DateTime → Result PreconditionOutcome
unknown_outcome rule_name reason state_hash evaluated_at = make_outcome (record {
  rule = rule_name;
  rule_version = "unknown";
  decision = unknown;
  reason_code = reason;
  observed_state_hash = state_hash;
  observed_at = evaluated_at;
})

-- `PreconditionEvaluator._report`
unfoldable pub report_of :
    CapabilityDefinition → List PreconditionOutcome → DateTime → Result PreconditionReport
report_of definition outcomes evaluated_at =
    let verdict = aggregate outcomes in
    make_report (record {
      capability_id = definition.id;
      capability_version = definition.version;
      decision = verdict;
      outcomes = outcomes;
      evaluated_at = evaluated_at;
      requires_escalation = is_unknown verdict;
    })

-- Run an action on each name, in order, up to the first exception.
unfoldable pub each_rule :
    (String → Result PreconditionOutcome) → List String → Result (List PreconditionOutcome)
each_rule run [] = ok []
each_rule run (r ∷ rs) = do o ← run r; os ← each_rule run rs; ok (o ∷ os)

-- `definition`'s identity and verdict, as `assert_unchanged` and the executor test it.
unfoldable pub matches_allow : CapabilityDefinition → PreconditionReport → Bool
matches_allow definition report =
    report.capability_id == definition.id
    && report.capability_version == definition.version
    && is_allow report.decision

-- Two lists of `(rule, observed_state_hash)` are equal.
unfoldable pub same_observations : List PreconditionOutcome → List PreconditionOutcome → Bool
same_observations [] [] = true
same_observations (o ∷ os) (p ∷ ps) =
    o.rule == p.rule && o.observed_state_hash == p.observed_state_hash && same_observations os ps
same_observations _ _ = false
