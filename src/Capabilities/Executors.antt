-- ===== src/Capabilities/Executors.antt =====
-- executors.py: the result of a capability and the allowlist of executors.
use skifer.Prelude.{
  ℕ, String, Bool, false, not, ◌&&◌, ◌||◌, ◌==◌, Option, none, some, List, [], ◌∷◌, is_some,
  if◌then◌else◌,
}
use skifer.Prelude.Text.{is_plain_name, is_class_name}
use skifer.Outcome.{
  Error, type_error, value_error, capability_executor_error, Result, ok, err, require, refuse,
  ◌>>=◌, ◌>>◌,
}
use skifer.Json.{Value, null, text, dict, end, field, name, is_mapping}
use skifer.Json.Copy.{copy_json_safe}
use skifer.Capabilities.Lease.{CredentialLease}

pub record CapabilityResult : Type 0 where
  pub capability_id : String
  pub capability_version : String
  pub status : String
  pub output : Value
  pub error_type : Option String

abbrev is_named_class : Option String → Bool
is_named_class none = false
is_named_class (some c) = is_class_name c

-- `CapabilityResult.__post_init__`
unfoldable pub make_result : CapabilityResult → Result CapabilityResult
make_result r = do
  require (r.status == "succeeded" || r.status == "failed") value_error
  require (is_mapping r.output) type_error
  refuse (r.status == "succeeded" && is_some r.error_type) value_error
  refuse (r.status == "failed" && not (is_named_class r.error_type)) value_error
  copied ← copy_json_safe r.output
  ok (record r { output = copied })

abbrev optional_text : Option String → Value
optional_text none = null
optional_text (some s) = text s

-- `CapabilityResult.to_dict`; the output was copied when the result was made.
unfoldable pub result_to_dict : CapabilityResult → Value
result_to_dict r = dict (
    field (name "capability_id") (text r.capability_id) (
      field (name "capability_version") (text r.capability_version) (
        field (name "status") (text r.status) (
          field (name "output") r.output
            (field (name "error_type") (optional_text r.error_type) end)))))

-- What an executor's call gives. It is the application's code, and acts on the outside world.
pub data CallAnswer : Type 0 where
  returned : Value → CallAnswer
  threw : Error → CallAnswer

-- What an idempotency lookup gives: nothing, a result, some other object, or an exception.
pub data LookupAnswer : Type 0 where
  undetermined : LookupAnswer
  found_result : CapabilityResult → LookupAnswer
  found_value : Value → LookupAnswer
  lookup_threw : Error → LookupAnswer

-- A registered executor with its three declarations. The number is the moment of the call: the
-- answers of the outside world may differ from one call to the next.
pub record Executor : Type 0 where
  pub call : ℕ → Value → Option CredentialLease → CallAnswer
  pub dry_run : ℕ → Value → CallAnswer
  pub supports_dry_run : Bool
  pub needs_credential : Bool
  pub lookup : Option (ℕ → Value → LookupAnswer)

-- The class variables of `CapabilityExecutorRegistry`.
abbrev pub Registry : Type 0
Registry = List (String × Executor)

unfoldable pub find_executor : String → Registry → Option Executor
find_executor k [] = none
find_executor k ((j, e) ∷ rest) = if j == k then some e else find_executor k rest

-- `CapabilityExecutorRegistry.register(name, ...)(func)`
unfoldable pub register : String → Executor → Registry → Result Registry
register k executor registry = do
  require (is_plain_name k) capability_executor_error
  elim (find_executor k registry) [
    | some _ ↦ err capability_executor_error
    | none ↦ ok ((k, executor) ∷ registry)
  ]

-- `CapabilityExecutorRegistry.get`, and so each of its questions about a name.
unfoldable pub get_executor : String → Registry → Result Executor
get_executor k registry = elim (find_executor k registry) [
  | some e ↦ ok e
  | none ↦ err capability_executor_error
]
