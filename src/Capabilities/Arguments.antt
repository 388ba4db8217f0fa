-- ===== src/Capabilities/Arguments.antt =====
-- `validate_arguments` of invoker.py. An error is its kind and the path that its message names.

pub mod Bounds
mod Examples
use skifer.Prelude.{
  ℕ, suc, ◌+◌, ◌-◌, ◌^◌, String, Bool, true, false, not, ◌||◌, ◌==◌, Option, none, some, List, [],
  ◌∷◌, ◌++◌, ltb, leb, any, length, if◌then◌else◌,
}
use skifer.Prelude.Text.{text_length}
use skifer.Outcome.{raised, Result, ok, err, ◌>>=◌}
use skifer.Json.{
  pos, negsuc, Key, name, other_key, Value, bool, int, float, text, list, dict, Items, nil, cons,
  Fields, end, field, is_finite, is_mapping, sort_fields,
}
use skifer.Capabilities.Model.{
  Schema, object, array, string, boolean, integer, number, Properties, no_more, property,
}

abbrev pub max_argument_errors : ℕ
max_argument_errors = 32

pub data Step : Type 0 where
  at_key : Key → Step
  at_index : ℕ → Step

-- A path, its last step first; `arguments` is the empty one.
abbrev pub FieldPath : Type 0
FieldPath = List Step

pub data ArgumentError : Type 0 where
  no_mapping stopped : ArgumentError
  wrong_type not_in_enum not_allowed missing too_many_items too_long : FieldPath → ArgumentError
  below_minimum above_maximum : FieldPath → ArgumentError

abbrev pub Errors : Type 0
Errors = List ArgumentError

-- Python's `type(a) is type(b) and a == b` and `a < b`, on the values that JSON and YAML give.
pub record Comparison : Type 0 where
  pub same : Value → Value → Bool
  pub less : Value → Value → Bool

-- `len(errors) >= _MAX_ARGUMENT_ERRORS`
abbrev pub is_full : Errors → Bool
is_full errors = leb max_argument_errors (length errors)

-- An append in a loop that returns first when the list is full.
unfoldable pub add_guarded : ArgumentError → Errors → Errors
add_guarded e errors = if is_full errors then errors else errors ++ e ∷ []

-- A plain append, if the test failed.
unfoldable pub add_if : Bool → ArgumentError → Errors → Errors
add_if failed e errors = if failed then errors ++ e ∷ [] else errors

-- `math.isfinite` on an integer: one too large for a float raises OverflowError.

abbrev float_overflow : ℕ
float_overflow = 2 ^ 1024 - 2 ^ 970

abbrev fits_float : ℕ → Bool
fits_float n = ltb n float_overflow

abbrev finite_or_raise : Bool → Result Bool
finite_or_raise true = ok true
finite_or_raise false = err (raised "OverflowError")

-- `_matches_type`
unfoldable pub matches_type : Value → Schema → Result Bool
matches_type v (object _ _ _) = ok (is_mapping v)
matches_type (list _) (array _ _ _) = ok true
matches_type _ (array _ _ _) = ok false
matches_type (text _) (string _ _) = ok true
matches_type _ (string _ _) = ok false
matches_type (bool _) (boolean _) = ok true
matches_type _ (boolean _) = ok false
matches_type (int _) (integer _ _ _) = ok true
matches_type _ (integer _ _ _) = ok false
matches_type (int (pos n)) (number _ _ _) = finite_or_raise (fits_float n)
matches_type (int (negsuc n)) (number _ _ _) = finite_or_raise (fits_float (suc n))
matches_type (float bits) (number _ _ _) = ok (is_finite bits)
matches_type _ (number _ _ _) = ok false

unfoldable pub declares : String → Properties → Bool
declares k no_more = false
declares k (property j _ ps) = j == k || declares k ps

unfoldable pub get_field : String → Fields → Option Value
get_field k end = none
get_field k (field other_key v fs) = get_field k fs
get_field k (field (name j) v fs) = if j == k then some v else get_field k fs

-- The keys that are not declared, in the order of the list.
unfoldable pub undeclared : Properties → Fields → List Key
undeclared ps end = []
undeclared ps (field other_key v fs) = other_key ∷ undeclared ps fs
undeclared ps (field (name k) v fs) =
    let rest = undeclared ps fs in if declares k ps then rest else name k ∷ rest

unfoldable pub refuse_keys : FieldPath → List Key → Errors → Errors
refuse_keys path [] errors = errors
refuse_keys path (k ∷ ks) errors =
    refuse_keys path ks (add_guarded (not_allowed (at_key k ∷ path)) errors)

unfoldable pub is_present : Option Value → Bool
is_present none = false
is_present (some _) = true

unfoldable pub require_keys : FieldPath → List String → Fields → Errors → Errors
require_keys path [] fs errors = errors
require_keys path (k ∷ ks) fs errors =
    let grown = add_guarded (missing (at_key (name k) ∷ path)) errors in
    require_keys path ks fs (if is_present (get_field k fs) then errors else grown)

abbrev pub Validator : Type 0
Validator = Value → FieldPath → Errors → Result Errors

unfoldable pub validate_each : Validator → Items → ℕ → FieldPath → Errors → Result Errors
validate_each run nil i path errors = ok errors
validate_each run (cons x xs) i path errors = do
  after ← run x (at_index i ∷ path) errors
  validate_each run xs (i + 1) path after

unfoldable pub validate_present : Validator → Option Value → FieldPath → Errors → Result Errors
validate_present run none path errors = ok errors
validate_present run (some v) path errors = run v path errors

-- `if not _matches_type(...): errors.append(...); return`
unfoldable pub checked_type :
    Result Bool → FieldPath → Errors → (Errors → Result Errors) → Result Errors
checked_type (err e) path errors rest = err e
checked_type (ok false) path errors rest = ok (errors ++ wrong_type path ∷ [])
checked_type (ok true) path errors rest = rest errors

module _ (python : Comparison) where
  -- `"enum" in schema and not any(...)`
  unfoldable pub outside_enum : Option (List Value) → Value → Bool
  outside_enum none v = false
  outside_enum (some candidates) v = not (any (λ c. python.same v c) candidates)

  unfoldable pub check_range : Value → Value → Value → FieldPath → Errors → Errors
  check_range minimum maximum v path errors =
      add_if (python.less maximum v) (above_maximum path)
        (add_if (python.less v minimum) (below_minimum path) errors)

  abbrev fields_of : Value → Fields
  fields_of (dict fs) = fs
  fields_of _ = end

  abbrev items_of : Value → Items
  items_of (list xs) = xs
  items_of _ = nil

  abbrev text_of : Value → String
  text_of (text s) = s
  text_of _ = ""

  abbrev count_items : Items → ℕ
  count_items nil = 0
  count_items (cons _ xs) = suc (count_items xs)

  -- `if len(errors) >= _MAX_ARGUMENT_ERRORS: return`, the test of the type, and that of the enum.
  unfoldable pub enter :
      Schema
      → Option (List Value)
      → Value
      → FieldPath
      → Errors
      → (Errors → Result Errors)
      → Result Errors
  unfolding outside_enum
  enter schema enum v path errors rest =
      if is_full errors
      then ok errors
      else checked_type (matches_type v schema) path errors
          (λ es. rest (add_if (outside_enum enum v) (not_in_enum path) es))

  unfoldable mutual
    -- `_validate_value`
    pub validate_value : Schema → Value → FieldPath → Errors → Result Errors
    validate_value (object enum ps required) v path errors =
        enter (object enum ps required) enum v path errors (λ es.
          validate_properties ps (fields_of v) path (
            require_keys path required (fields_of v)
              (refuse_keys path (undeclared ps (sort_fields (fields_of v))) es)))
    validate_value (array enum items maximum) v path errors =
        enter (array enum items maximum) enum v path errors (λ es.
          if ltb maximum (count_items (items_of v))
          then ok (es ++ too_many_items path ∷ [])
          else validate_each (λ x p e. validate_value items x p e) (items_of v) 0 path es)
    validate_value (string enum maximum) v path errors =
        enter (string enum maximum) enum v path errors
          (λ es. ok (add_if (ltb maximum (text_length (text_of v))) (too_long path) es))
    validate_value (boolean enum) v path errors =
        enter (boolean enum) enum v path errors (λ es. ok es)
    validate_value (integer enum minimum maximum) v path errors =
        enter (integer enum minimum maximum) enum v path errors
          (λ es. ok (check_range minimum maximum v path es))
    validate_value (number enum minimum maximum) v path errors =
        enter (number enum minimum maximum) enum v path errors
          (λ es. ok (check_range minimum maximum v path es))

    pub validate_properties : Properties → Fields → FieldPath → Errors → Result Errors
    validate_properties no_more fs path errors = ok errors
    validate_properties (property k schema ps) fs path errors = do
      after ←
          validate_present (λ x p e. validate_value schema x p e) (get_field k fs)
            (at_key (name k) ∷ path) errors
      validate_properties ps fs path after

  -- `validate_arguments`
  unfoldable pub validate_arguments : Schema → Value → Result Errors
  validate_arguments schema arguments =
      if is_mapping arguments
      then (do
        errors ← validate_value schema arguments [] []
        ok (add_if (is_full errors) stopped errors))
      else ok (no_mapping ∷ [])
