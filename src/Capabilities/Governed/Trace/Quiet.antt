-- ===== src/Capabilities/Governed/Trace/Quiet.antt =====
-- The actions that call no executor, and the one that calls one at most once.
use skifer.Prelude.{ℕ, ◌+◌, String, Option, none, some, arith}
use skifer.Outcome.{Error, Result, ok, err}
use skifer.Json.{Value}
use skifer.Capabilities.Model.{CapabilityDefinition}
use skifer.Capabilities.Preconditions.{PreconditionReport}
use skifer.Capabilities.Autonomy.{ExecutionState, executing, executed, AutonomyMode}
use skifer.Capabilities.Autonomy.Machine.{Machine}
use skifer.Capabilities.Lease.{CredentialLease}
use skifer.Capabilities.Credentials.{IssueRequest}
use skifer.Capabilities.Executors.{CapabilityResult, CallAnswer, LookupAnswer, Executor}
use skifer.Capabilities.History.{CapabilityStateEvent}
use skifer.Capabilities.History.Rows.{Grown-refl}
use skifer.Capabilities.Governed.{Host, EvaluatorSetup, BrokerSetup}
use skifer.Capabilities.Governed.Effects.{M}
use skifer.Capabilities.Governed.Execute.{
  Request, lease_for, call_executor, failed_call, call_and_record,
}
use skifer.Capabilities.Governed.Execute.Prior.{
  ask_lookup, reconcile_with, reconcile_lost_response, by_state, resolve_prior,
}
use skifer.Capabilities.Governed.Execute.Prepare.{
  read_from, read_state, initial_report, recheck, prepare_report, issue, still_valid, acquire_from,
  acquire_lease,
}
use skifer.Capabilities.Governed.Trace.{
  Issued-mono, Quiet, Runs, Runs-bind, Runs-then, Runs-if, Runs-catch, Quiet-pure, Quiet-lift,
  Quiet-raise, Quiet-ask, Quiet-look_up, Quiet-read_events, Runs-call_out, Quiet-Runs, one_call,
}
use skifer.Capabilities.Governed.Trace.Attest.{Quiet-attest}

pub ruleset quiet = (
  Quiet-pure, Quiet-lift, Quiet-raise, Quiet-ask, Quiet-look_up, Quiet-read_events, Quiet-attest,
  Runs-bind, Runs-if,
)

module _ {h : Host} where
  Quiet-ask_lookup :
      (definition : CapabilityDefinition) (d : String) (lookup : ℕ → Value → LookupAnswer)
      (copied : Result Value)
      → Quiet {h = h} (ask_lookup definition d lookup copied)
  unfolding ask_lookup
  Quiet-ask_lookup definition d lookup (ok copied) = search quiet
  Quiet-ask_lookup definition d lookup (err e) = search quiet

  Quiet-reconcile_with :
      (definition : CapabilityDefinition) (subject : String) (arguments : Value) (d : String)
      (lookup : Option (ℕ → Value → LookupAnswer))
      → Quiet {h = h} (reconcile_with definition subject arguments d lookup)
  unfolding reconcile_with
  Quiet-reconcile_with definition subject arguments d none = search quiet
  Quiet-reconcile_with definition subject arguments d (some lookup) =
      search (quiet, Quiet-ask_lookup) depth 14

  Quiet-reconcile :
      (definition : CapabilityDefinition) (subject : String) (arguments : Value) (d : String)
      → Quiet {h = h} (reconcile_lost_response definition subject arguments d)
  unfolding reconcile_lost_response
  Quiet-reconcile definition subject arguments d = search (quiet, Quiet-reconcile_with)

  Quiet-by_state :
      (s : ExecutionState) (prior : CapabilityStateEvent) (m : M h CapabilityResult)
      → Quiet m
      → Quiet (by_state s prior m)
  unfolding by_state
  Quiet-by_state executed prior m q = search quiet
  Quiet-by_state executing prior m q = q
  Quiet-by_state _ prior m q = search quiet

  -- What is made of a request with a history calls no executor.
  pub Quiet-resolve_prior :
      (prior : CapabilityStateEvent) (definition : CapabilityDefinition) (subject : String)
      (arguments : Value) (d : String)
      → Quiet {h = h} (resolve_prior prior definition subject arguments d)
  unfolding resolve_prior
  Quiet-resolve_prior prior definition subject arguments d =
      Quiet-by_state prior.state prior _ (Quiet-reconcile definition subject arguments d)

  Quiet-read_from : (reader : Option (ℕ → CallAnswer)) → Quiet {h = h} (read_from reader)
  unfolding read_from
  Quiet-read_from none = search quiet
  Quiet-read_from (some reader) = search quiet

  Quiet-read_state : Quiet {h = h} read_state
  unfolding read_state
  Quiet-read_state = Quiet-read_from h.state_reader

  Quiet-initial_report :
      (definition : CapabilityDefinition) (arguments : Value) (given : Option PreconditionReport)
      → Quiet {h = h} (initial_report definition arguments given)
  unfolding initial_report
  Quiet-initial_report definition arguments (some r) = search quiet
  Quiet-initial_report definition arguments none = search (quiet, Quiet-read_state) depth 10

  Quiet-recheck :
      (definition : CapabilityDefinition) (arguments : Value) (report : PreconditionReport)
      (setup : Option EvaluatorSetup)
      → Quiet {h = h} (recheck definition arguments report setup)
  unfolding recheck
  Quiet-recheck definition arguments report none = search quiet
  Quiet-recheck definition arguments report (some setup) = search (quiet, Quiet-read_state) depth 10

  pub Quiet-prepare_report :
      (definition : CapabilityDefinition) (arguments : Value) (given : Option PreconditionReport)
      → Quiet {h = h} (prepare_report definition arguments given)
  unfolding prepare_report
  Quiet-prepare_report definition arguments given =
      search (quiet, Quiet-initial_report, Quiet-recheck) depth 10

  Quiet-issue :
      (setup : BrokerSetup) (request : IssueRequest) (mode : AutonomyMode)
      → Quiet {h = h} (issue setup request mode)
  unfolding issue
  Quiet-issue setup request mode = record {
    at = λ w. record {
      calls = λ d. omega arith;
      kept = λ d p. p;
      later = omega arith;
      grown = Grown-refl w.rows;
      issued = λ p. Issued-mono h.uuid w.tick (w.tick + 2) w.rows (omega arith) p;
    };
  }

  Quiet-still_valid :
      (setup : BrokerSetup) (lease : CredentialLease) → Quiet {h = h} (still_valid setup lease)
  unfolding still_valid
  Quiet-still_valid setup lease = search quiet depth 8

  Quiet-acquire_from :
      (setup : BrokerSetup) (definition : CapabilityDefinition) (subject : String)
      (mode : AutonomyMode) (lease : Option CredentialLease)
      → Quiet {h = h} (acquire_from setup definition subject mode lease)
  unfolding acquire_from
  Quiet-acquire_from setup definition subject mode none =
      search (quiet, Quiet-issue, Quiet-still_valid) depth 10
  Quiet-acquire_from setup definition subject mode (some lease) = Quiet-still_valid setup lease

  Quiet-acquire_lease :
      (setup : Option BrokerSetup) (definition : CapabilityDefinition) (subject : String)
      (mode : AutonomyMode) (lease : Option CredentialLease)
      → Quiet {h = h} (acquire_lease setup definition subject mode lease)
  unfolding acquire_lease
  Quiet-acquire_lease none definition subject mode lease = search quiet
  Quiet-acquire_lease (some setup) definition subject mode lease =
      Quiet-acquire_from setup definition subject mode lease

  Quiet-lease_for :
      (r : Request) (mode : AutonomyMode) (x : Executor) → Quiet {h = h} (lease_for r mode x)
  unfolding lease_for
  Quiet-lease_for r mode x = search (quiet, Quiet-acquire_lease) depth 10

  -- The call of an executor is one call, for its own request.
  pub Runs-call_executor :
      (r : Request) (d : String) (copied : Value) (mode : AutonomyMode) (x : Executor) (m : Machine)
      → Runs {h = h} (one_call d) (call_executor r d copied mode x m)
  unfolding call_executor
  Runs-call_executor r d copied mode x m = Runs-bind _ _ _ (Quiet-lease_for r mode x) λ lease.
      Runs-then _ _ _ (Runs-call_out d r.definition.executor (λ t. x.call t copied lease))
        λ a. search quiet depth 12

  pub Quiet-failed_call :
      (r : Request) (m : Machine) (e : Error) → Quiet {h = h} (failed_call r m e)
  unfolding failed_call
  Quiet-failed_call r m e = search quiet depth 8

  pub Runs-call_and_record :
      (r : Request) (d : String) (copied : Value) (mode : AutonomyMode) (x : Executor) (m : Machine)
      → Runs {h = h} (one_call d) (call_and_record r d copied mode x m)
  unfolding call_and_record
  Runs-call_and_record r d copied mode x m =
      Runs-then _ _ _
        (Runs-catch _ _ _ (Runs-call_executor r d copied mode x m) (Quiet-failed_call r m))
        λ outcome. search quiet depth 8
