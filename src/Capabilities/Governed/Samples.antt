-- ===== src/Capabilities/Governed/Samples.antt =====
-- A small concrete host, and requests for it.
use skifer.Prelude.{ℕ, zero, suc, String, false, none, some, [], ◌∷◌}
use skifer.Outcome.{err, capability_registry_error}
use skifer.Time.{utc}
use skifer.Json.{Value, text, dict, end, field, name, JsonLibrary}
use skifer.Capabilities.Model.{
  CapabilityDefinition, write, service, compensatable, guarded, object, no_more, property, string,
}
use skifer.Capabilities.Autonomy.{guarded_mode}
use skifer.Capabilities.Executors.{Executor, returned}
use skifer.Capabilities.Governed.{Host}
use skifer.Capabilities.Governed.Execute.{Request}

-- JSON text is the value itself, and every text has one digest.
abbrev pub plain_json : JsonLibrary
plain_json = record {
  Text = Value;
  dumps = λ v. v;
  loads = λ v. some v;
  byte_size = λ v. 40;
  sha256 = λ v. "00000000000000000000000000000000000000000000000000000000000000ab";
}

abbrev pub sample_hash : String
sample_hash = "sha256:v1:00000000000000000000000000000000000000000000000000000000000000ab"

unfoldable pub tally : ℕ → String
tally zero = "e"
tally (suc n) = String.◌∷◌ "1" (tally n)

abbrev pub refund : Executor
refund = record {
  call = λ t arguments lease. returned (dict (field (name "ticket") (text "R-1") end));
  dry_run = λ t arguments. returned (dict end);
  supports_dry_run = false;
  needs_credential = false;
  lookup = none;
}

abbrev pub refund_order : CapabilityDefinition
refund_order = record {
  id = "refund_order";
  version = "1.0.0";
  owner = "payments";
  description = "Refund one order.";
  mode = write;
  executor = "refund";
  acting_as = service;
  required_scopes = "orders:refund" ∷ [];
  input_schema = object none (property "order" (string none 20) no_more) ("order" ∷ []);
  preconditions = [];
  reversibility = compensatable;
  compensation = some "cancel_refund";
  approval = guarded;
  idempotency_key = none;
  policy_uri = "policy://refunds";
  policy_hash = sample_hash;
}

abbrev pub sample_host : Host
sample_host = record {
  lib = plain_json;
  lower = λ s. s;
  python = record { same = λ a b. false; less = λ a b. false };
  uuid = tally;
  executors = ("refund", refund) ∷ [];
  rules = [];
  get_capability = λ id. err capability_registry_error;
  clock = λ t. record { instant = t; zone = utc };
  scopes = "orders:refund" ∷ [];
  precondition_evaluator = none;
  state_reader = none;
  credential_broker = none;
  credential_audience = none;
  max_detail_bytes = 4096;
  max_retries = 3;
}

abbrev pub refund_request : Request
refund_request = record {
  definition = refund_order;
  subject = "agent-7";
  arguments = dict (field (name "order") (text "A-17") end);
  mode = guarded_mode;
  approval = none;
  precondition_report = none;
  lease = none;
}
