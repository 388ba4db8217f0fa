-- ===== src/Capabilities/Arguments/Examples.antt =====
-- Arguments that a schema refuses.
use skifer.Prelude.{◌≤◌, refl, false, [], ◌∷◌, none, length}
use skifer.Json.{Value, bool, dict, end, field, name, sort_fields}
use skifer.Capabilities.Model.{Schema, object, property, no_more, string}
use skifer.Capabilities.Arguments.{
  Comparison, Errors, at_key, not_allowed, wrong_type, validate_arguments, validate_value, enter,
  checked_type, matches_type, validate_present, get_field, require_keys, is_present, refuse_keys,
  undeclared, declares, add_guarded, add_if,
}
use skifer.Capabilities.Arguments.Bounds.{validate_arguments_bound}

abbrev python : Comparison
python = record { same = λ a b. false; less = λ a b. false }

abbrev schema : Schema
schema = object none (property "order" (string none 20) no_more) ("order" ∷ [])

abbrev arguments : Value
arguments = dict (field (name "order") (bool false) (field (name "urgent") (bool false) end))

abbrev reported : Errors
reported = not_allowed (at_key (name "urgent") ∷ []) ∷ wrong_type (at_key (name "order") ∷ []) ∷ []

validate_arguments_bound_example : length reported ≤ 35
unfolding validate_arguments validate_value enter checked_type matches_type validate_present
    get_field require_keys is_present refuse_keys undeclared sort_fields declares add_guarded add_if
validate_arguments_bound_example = validate_arguments_bound python schema arguments reported refl
