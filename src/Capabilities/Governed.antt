-- ===== src/Capabilities/Governed.antt =====
-- executor.py: what a `GovernedExecutor` is built from, and the state that it works on.
--
-- The outside world (clocks, `uuid4`, registered callables, the credential provider, the state
-- reader) answers by the moment at which it is asked, a number that goes up with each question, so
-- two equal questions may have different answers. `calls` and `lookups` are no state of the program:
-- they are the record of what the outside world was asked to do.
pub mod Effects
pub mod Checks
pub mod Execute
pub mod Compensate
pub mod Trace
pub mod Once
pub mod Chains
pub mod Prepared
pub mod Begun
pub mod Clearance
pub mod Replay
pub mod Recorded
pub mod Shadow
pub mod Session
pub mod AppendOnly
pub mod Samples
mod Examples
mod Scenarios
mod Repeats
use skifer.Prelude.{ℕ, String, Option, List}
use skifer.Outcome.{Result}
use skifer.Time.{DateTime}
use skifer.Json.{Value, JsonLibrary}
use skifer.Capabilities.Model.{CapabilityDefinition}
use skifer.Capabilities.Preconditions.{Rules}
use skifer.Capabilities.Credentials.{Broker, IssueRequest, ProviderAnswer}
use skifer.Capabilities.Executors.{Registry, CallAnswer}
use skifer.Capabilities.Arguments.{Comparison}
use skifer.Capabilities.History.{Row}

-- A configured `PreconditionEvaluator`: its clock and its bound.
pub record EvaluatorSetup : Type 0 where
  pub clock : ℕ → DateTime
  pub max_rules : ℕ

-- A configured `CredentialBroker`: its clock, its ceiling and its provider.
pub record BrokerSetup : Type 0 where
  pub clock : ℕ → DateTime
  pub max_ttl : ℕ
  pub provider : ℕ → IssueRequest → ProviderAnswer

pub record Host : Type 1 where
  pub lib : JsonLibrary
  pub lower : String → String
  pub python : Comparison
  pub uuid : ℕ → String
  -- the class variables of the two registries of callables
  pub executors : Registry
  pub rules : Rules
  -- `CapabilityRegistry.get`
  pub get_capability : String → Result CapabilityDefinition
  -- the arguments of `GovernedExecutor.__init__`
  pub clock : ℕ → DateTime
  pub scopes : List String
  pub precondition_evaluator : Option EvaluatorSetup
  pub state_reader : Option (ℕ → CallAnswer)
  pub credential_broker : Option BrokerSetup
  pub credential_audience : Option String
  pub max_detail_bytes : ℕ
  pub max_retries : ℕ

-- One call that left the program.
pub record ExternalCall : Type 0 where
  pub request_hash : String
  pub executor : String
  pub moment : ℕ

pub record World (h : Host) : Type 0 where
  pub rows : List (Row h.lib)
  pub broker : Broker
  pub tick : ℕ
  pub calls : List ExternalCall
  pub lookups : List ExternalCall
