-- ===== src/Capabilities/Governed/Execute/Prepare.antt =====
-- `_prepare_report`, `_read_state` and `_acquire_lease` of executor.py.
use skifer.Prelude.{ℕ, ◌+◌, String, ◌==◌, Option, none, some, if◌then◌else◌}
use skifer.Outcome.{interrupted, precondition_error, credential_error, Result, ok, err, require}
use skifer.Json.{Value, dict, end, is_mapping}
use skifer.Capabilities.Model.{CapabilityDefinition}
use skifer.Capabilities.Preconditions.{PreconditionReport, matches_allow}
use skifer.Capabilities.Preconditions.Evaluator.{Evaluator, is_empty, evaluate, assert_unchanged}
use skifer.Capabilities.Autonomy.{AutonomyMode}
use skifer.Capabilities.Lease.{CredentialLease, assert_valid}
use skifer.Capabilities.Credentials.{IssueRequest, issue_for, max_ttl_seconds}
use skifer.Capabilities.Executors.{CallAnswer, returned, threw}
use skifer.Capabilities.Governed.{Host, EvaluatorSetup, BrokerSetup}
use skifer.Capabilities.Governed.Effects.{M, ◌>>=◌, ◌>>◌, pure, lift, raise, ask}

abbrev state_value : CallAnswer → Result Value
state_value (returned v) = if is_mapping v then ok v else err precondition_error
state_value (threw interrupted) = err interrupted
state_value (threw _) = err precondition_error

-- `PreconditionEvaluator(clock=...)` without `max_rules`.
abbrev default_max_rules : ℕ
default_max_rules = 16

evaluator_of : Host → ℕ → Evaluator
evaluator_of h max_rules = record {
  lib = h.lib;
  lower = h.lower;
  rules = h.rules;
  max_rules = max_rules;
}

-- `self._precondition_evaluator or PreconditionEvaluator(clock=self._clock)`
abbrev chosen_setup : Host → EvaluatorSetup
chosen_setup h = elim h.precondition_evaluator [
  | some setup ↦ setup
  | none ↦ record { clock = h.clock; max_rules = default_max_rules }
]

abbrev audience_of : Option String → Result String
audience_of none = err credential_error
audience_of (some a) = if a == "" then err credential_error else ok a

module _ {h : Host} where
  unfoldable pub read_from : Option (ℕ → CallAnswer) → M h Value
  read_from none = raise precondition_error
  read_from (some reader) = do answer ← ask reader; lift (state_value answer)

  -- `_read_state`
  unfoldable pub read_state : M h Value
  read_state = read_from h.state_reader

  -- A report where the caller gave none.
  unfoldable pub initial_report :
      CapabilityDefinition → Value → Option PreconditionReport → M h PreconditionReport
  unfolding evaluator_of
  initial_report definition arguments (some report) = pure report
  initial_report definition arguments none = do
    state ← if is_empty definition.preconditions then pure (dict end) else read_state
    now ← ask (chosen_setup h).clock
    moment ← ask (λ t. t)
    lift
        (evaluate (evaluator_of h (chosen_setup h).max_rules) moment now definition arguments state)

  -- The recheck of a capability with preconditions.
  unfoldable pub recheck :
      CapabilityDefinition
      → Value
      → PreconditionReport
      → Option EvaluatorSetup
      → M h PreconditionReport
  unfolding evaluator_of
  recheck definition arguments report none = raise precondition_error
  recheck definition arguments report (some setup) = do
    state ← read_state
    now ← ask setup.clock
    moment ← ask (λ t. t)
    lift (
        assert_unchanged (evaluator_of h setup.max_rules) moment now definition arguments state
          report)

  -- `_prepare_report`
  unfoldable pub prepare_report :
      CapabilityDefinition → Value → Option PreconditionReport → M h PreconditionReport
  prepare_report definition arguments given = do
    report ← initial_report definition arguments given
    lift (require (matches_allow definition report) precondition_error)
    if is_empty definition.preconditions
        then pure report
        else recheck definition arguments report h.precondition_evaluator

  unfoldable pub issue : BrokerSetup → IssueRequest → AutonomyMode → M h CredentialLease
  issue setup request mode w =
      let answer = setup.provider w.tick request in
      let now = setup.clock (w.tick + 1) in
      let (r, b) = issue_for setup.max_ttl request (some mode) answer now w.broker in
      (r, record w { broker = b; tick = w.tick + 2 })

  unfoldable pub still_valid : BrokerSetup → CredentialLease → M h CredentialLease
  still_valid setup lease = do now ← ask setup.clock; lift (assert_valid lease now); pure lease

  unfoldable pub acquire_from :
      BrokerSetup
      → CapabilityDefinition
      → String
      → AutonomyMode
      → Option CredentialLease
      → M h CredentialLease
  acquire_from setup definition subject mode (some lease) = still_valid setup lease
  acquire_from setup definition subject mode none = do
    audience ← lift (audience_of h.credential_audience)
    let request : IssueRequest = record {
      subject = subject;
      audience = audience;
      scopes = definition.required_scopes;
      ttl_seconds = max_ttl_seconds setup.max_ttl;
    }
    issued ← issue setup request mode
    still_valid setup issued

  -- `_acquire_lease`
  unfoldable pub acquire_lease :
      Option BrokerSetup
      → CapabilityDefinition
      → String
      → AutonomyMode
      → Option CredentialLease
      → M h CredentialLease
  acquire_lease none definition subject mode lease = raise credential_error
  acquire_lease (some setup) definition subject mode lease =
      acquire_from setup definition subject mode lease
