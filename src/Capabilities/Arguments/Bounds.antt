-- ===== src/Capabilities/Arguments/Bounds.antt =====
-- How many errors `validate_arguments` may report.
use skifer.Prelude.{
  ℕ, ◌+◌, ◌≤◌, String, ◌≡◌, Bool, true, false, Option, none, some, List, [], ◌∷◌, ◌++◌, length,
  length-append, arith, Bool-cases, inl, inr, ltb,
}
use skifer.Prelude.Text.{text_length}
use skifer.Outcome.{Result, ok, err}
use skifer.Outcome.Laws.{bind_ok, ok-injective}
use skifer.Json.{is_mapping, Value, Key, name, Items, nil, cons, Fields}
use skifer.Capabilities.Model.{
  Schema, object, array, string, boolean, integer, number, Properties, no_more, property,
}
use skifer.Capabilities.Arguments.{
  FieldPath, ArgumentError, Errors, Comparison, get_field, at_key, at_index, is_full, add_guarded,
  add_if, refuse_keys, require_keys, is_present, Validator, validate_each, validate_present,
  checked_type, matches_type, outside_enum, check_range, enter, validate_value, validate_properties,
  validate_arguments, wrong_type, not_in_enum, too_many_items, too_long, below_minimum,
  above_maximum, stopped, no_mapping, items_of, text_of, count_items,
}

-- A guarded list grows to at most two more than the maximum.
abbrev largest : ℕ
largest = 34

length_one_more : (es : Errors) (e : ArgumentError) → length (es ++ e ∷ []) ≡ length es + 1
length_one_more es e = length-append es (e ∷ [])

add_guarded_bound :
    (e : ArgumentError) (es : Errors) → length es ≤ largest → length (add_guarded e es) ≤ largest
unfolding add_guarded
add_guarded_bound e es p = ground (arith, p, length_one_more es e)

add_if_bound : (b : Bool) (e : ArgumentError) (es : Errors) → length (add_if b e es) ≤ length es + 1
unfolding add_if
add_if_bound true e es = omega (arith, length_one_more es e)
add_if_bound false e es = omega arith

refuse_keys_bound :
    (path : FieldPath) (ks : List Key) (es : Errors)
    → length es ≤ largest
    → length (refuse_keys path ks es) ≤ largest
unfolding refuse_keys
refuse_keys_bound path [] es p = p
refuse_keys_bound path (k ∷ ks) es p = refuse_keys_bound path ks _ (add_guarded_bound _ es p)

require_keys_bound :
    (path : FieldPath) (ks : List String) (fs : Fields) (es : Errors)
    → length es ≤ largest
    → length (require_keys path ks fs es) ≤ largest
unfolding require_keys
require_keys_bound path [] fs es p = p
require_keys_bound path (k ∷ ks) fs es p = elim (Bool-cases (is_present (get_field k fs))) [
  | inl q ↦ rw q (require_keys_bound path ks fs es p)
  | inr q ↦ rw q (require_keys_bound path ks fs _ (add_guarded_bound _ es p))
]

-- The validator keeps the bound.
Bounded : Validator → Type 0
Bounded run =
    (v : Value) (path : FieldPath) (es es' : Errors)
    → length es ≤ largest
    → run v path es ≡ ok es'
    → length es' ≤ largest

validate_each_bound :
    (run : Validator)
    → Bounded run
    → (xs : Items) (i : ℕ) (path : FieldPath) (es es' : Errors) → length es ≤ largest
    → validate_each run xs i path es ≡ ok es'
    → length es' ≤ largest
unfolding validate_each Bounded
validate_each_bound run b nil i path es es' p q = rw (← ok-injective q) p
validate_each_bound run b (cons x xs) i path es es' p q =
    let first = bind_ok (run x (at_index i ∷ path) es) _ q in
    validate_each_bound run b xs (i + 1) path first.0 es' (b x _ es first.0 p first.1) first.2

checked_type_bound :
    (t : Result Bool) (path : FieldPath) (es es' : Errors) (rest : Errors → Result Errors)
    → (rest es ≡ ok es' → length es' ≤ largest)
    → length es ≤ 31
    → checked_type t path es rest ≡ ok es'
    → length es' ≤ largest
unfolding checked_type
checked_type_bound (err e) path es es' rest k p q = ground (arith, q)
checked_type_bound (ok false) path es es' rest k p q =
    let few : length (es ++ wrong_type path ∷ []) ≤ largest =
      omega (arith, p, length_one_more es (wrong_type path)) in
    rw (← ok-injective q) few
checked_type_bound (ok true) path es es' rest k p q = k q

returned_bound : (es es' : Errors) → length es ≤ largest → ok es ≡ ok es' → length es' ≤ largest
returned_bound es es' p r = rw (← ok-injective r) p

validate_present_bound :
    (run : Validator)
    → Bounded run
    → (v : Option Value) (path : FieldPath) (es es' : Errors) → length es ≤ largest
    → validate_present run v path es ≡ ok es'
    → length es' ≤ largest
unfolding validate_present Bounded
validate_present_bound run b none path es es' p q = returned_bound es es' p q
validate_present_bound run b (some v) path es es' p q = b v path es es' p q

module _ (python : Comparison) where
  enter_bound :
      (schema : Schema) (enum : Option (List Value)) (v : Value) (path : FieldPath)
      (es es' : Errors) (rest : Errors → Result Errors)
      → ((after : Errors) → length after ≤ 32 → rest after ≡ ok es' → length es' ≤ largest)
      → length es ≤ largest
      → enter python schema enum v path es rest ≡ ok es'
      → length es' ≤ largest
  unfolding enter
  enter_bound schema enum v path es es' rest k p q = elim (Bool-cases (is_full es)) [
    | inl f ↦ (let same : es ≡ es' = ok-injective (rw f at q) in rw (← same) p)
    | inr f ↦
        let few : length es ≤ 31 = ground (arith, f) in
        checked_type_bound (matches_type v schema) path es es' _
          (λ r.
            k _
              (omega (arith, few, add_if_bound (outside_enum python enum v) (not_in_enum path) es))
              r)
          few (rw f at q)
  ]

  check_range_bound :
      (lo hi v : Value) (path : FieldPath) (es : Errors)
      → length (check_range python lo hi v path es) ≤ length es + 2
  unfolding check_range
  check_range_bound lo hi v path es = omega (
    arith,
    add_if_bound (python.less v lo) (below_minimum path) es,
    add_if_bound (python.less hi v) (above_maximum path)
        (add_if (python.less v lo) (below_minimum path) es),
  )

  mutual
    unfolding validate_value Bounded

    validate_value_bound : (schema : Schema) → Bounded (validate_value python schema)
    validate_value_bound (object enum ps required) v path es es' p q =
        enter_bound _ enum v path es es' _
          (λ after few r.
            validate_properties_bound ps _ path _ es'
              (require_keys_bound path required _ _
                (refuse_keys_bound path _ after (omega (arith, few))))
              r)
          p q
    validate_value_bound (array enum items maximum) v path es es' p q =
        enter_bound _ enum v path es es' _
          (λ after few r. elim (Bool-cases (ltb maximum (count_items python (items_of python v)))) [
            | inl f ↦
                returned_bound (after ++ too_many_items path ∷ []) es'
                  (omega (arith, few, length_one_more after (too_many_items path))) (rw f at r)
            | inr f ↦
                validate_each_bound (validate_value python items) (validate_value_bound items)
                  (items_of python v) 0 path after es' (omega (arith, few)) (rw f at r)
          ])
          p q
    validate_value_bound (string enum maximum) v path es es' p q =
        enter_bound _ enum v path es es' _
          (λ after few r.
            returned_bound _ es'
              (omega (
                arith,
                few,
                add_if_bound (ltb maximum (text_length (text_of python v))) (too_long path) after,
              ))
              r)
          p q
    validate_value_bound (boolean enum) v path es es' p q =
        enter_bound _ enum v path es es' _
          (λ after few r. returned_bound after es' (omega (arith, few)) r) p q
    validate_value_bound (integer enum lo hi) v path es es' p q =
        enter_bound _ enum v path es es' _
          (λ after few r.
            returned_bound _ es' (omega (arith, few, check_range_bound lo hi v path after)) r)
          p q
    validate_value_bound (number enum lo hi) v path es es' p q =
        enter_bound _ enum v path es es' _
          (λ after few r.
            returned_bound _ es' (omega (arith, few, check_range_bound lo hi v path after)) r)
          p q

    validate_properties_bound :
        (ps : Properties) (fs : Fields) (path : FieldPath) (es es' : Errors)
        → length es ≤ largest
        → validate_properties python ps fs path es ≡ ok es'
        → length es' ≤ largest
    validate_properties_bound no_more fs path es es' p q = rw (← ok-injective q) p
    validate_properties_bound (property k schema ps) fs path es es' p q =
        let first =
          bind_ok
            (validate_present (validate_value python schema) (get_field k fs)
              (at_key (name k) ∷ path) es)
            _ q in
        validate_properties_bound ps fs path first.0 es'
          (validate_present_bound (validate_value python schema) (validate_value_bound schema)
            (get_field k fs) _ es first.0 p first.1)
          first.2

  -- Whatever the schema and the arguments, however large: `validate_arguments`, if it returns, reports
  -- at most 35 errors, its closing note counted.
  pub validate_arguments_bound :
      (schema : Schema) (arguments : Value) (es : Errors)
      → validate_arguments python schema arguments ≡ ok es
      → length es ≤ 35
  unfolding validate_arguments Bounded
  validate_arguments_bound schema arguments es p = elim (Bool-cases (is_mapping arguments)) [
    | inl m ↦
        let found =
          bind_ok (validate_value python schema arguments [] [])
            (λ x. ok (add_if (is_full x) stopped x)) (rw m at p) in
        let few : length found.0 ≤ largest =
          validate_value_bound schema arguments [] [] found.0 (omega arith) found.1 in
        let all_of : length (add_if (is_full found.0) stopped found.0) ≤ 35 =
          omega (arith, few, add_if_bound (is_full found.0) stopped found.0) in
        rw (← ok-injective found.2) all_of
    | inr m ↦
        let one : no_mapping ∷ [] ≡ es = ok-injective (rw m at p) in
        let short : length (no_mapping ∷ []) ≤ 35 = omega arith in rw (← one) short
  ]
