-- ===== src/Json/Copy/Laws.antt =====
-- What `copy_json_safe` accepts and returns.
use skifer.Prelude.{◌≡◌, refl, Bool, true, false, ◌&&◌, arith, if◌then◌else◌}
use skifer.Outcome.{ok, err, type_error}
use skifer.Json.{
  name, other_key, Value, null, bool, int, float, text, list, dict, opaque, Items, nil, cons,
  Fields, end, field, is_finite,
}
use skifer.Json.Copy.{copy_json_safe, copy_items, copy_fields}

-- JSON-native data: text keys, finite floats, and no other object at any depth.
unfoldable mutual
  pub is_json : Value → Bool
  is_json null = true
  is_json (bool _) = true
  is_json (int _) = true
  is_json (float bits) = is_finite bits
  is_json (text _) = true
  is_json (list xs) = are_json xs
  is_json (dict fs) = fields_are_json fs
  is_json (opaque _) = false

  pub are_json : Items → Bool
  are_json nil = true
  are_json (cons x xs) = is_json x && are_json xs

  pub fields_are_json : Fields → Bool
  fields_are_json end = true
  fields_are_json (field other_key v fs) = false
  fields_are_json (field (name k) v fs) = is_json v && fields_are_json fs

mutual
  unfolding copy_json_safe is_json

  copy_value : (v : Value) → copy_json_safe v ≡ (if is_json v then ok v else err type_error)
  copy_value null = refl
  copy_value (bool b) = refl
  copy_value (int n) = refl
  copy_value (float bits) = refl
  copy_value (text s) = refl
  copy_value (list xs) = ground (arith, copy_list xs)
  copy_value (dict fs) = ground (arith, copy_dict fs)
  copy_value (opaque s) = refl

  copy_list : (xs : Items) → copy_items xs ≡ (if are_json xs then ok xs else err type_error)
  copy_list nil = refl
  copy_list (cons x xs) = ground (arith, copy_value x, copy_list xs)

  copy_dict :
      (fs : Fields) → copy_fields fs ≡ (if fields_are_json fs then ok fs else err type_error)
  copy_dict end = refl
  copy_dict (field other_key v fs) = refl
  copy_dict (field (name k) v fs) = ground (arith, copy_value v, copy_dict fs)

-- Copying returns the value unchanged where it is JSON-native data at every depth, and raises
-- TypeError on every other value.
pub copy_json_safe_exact :
    (v : Value) → copy_json_safe v ≡ (if is_json v then ok v else err type_error)
copy_json_safe_exact v = copy_value v
