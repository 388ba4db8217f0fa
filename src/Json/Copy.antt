-- ===== src/Json/Copy.antt =====
-- `_copy_json_safe` of src/skifer/capabilities/executors.py.
pub mod Laws
use skifer.Prelude.{
  String, ◌≡◌, refl, ◌↔◌, Bool, true, false, ◌&&◌, arith, if◌then◌else◌, Bool-cases, inl, inr,
}
use skifer.Outcome.{Result, ok, err, type_error, Error, ◌>>=◌, ◌>>◌}
use skifer.Json.{
  Key, name, other_key, Value, null, bool, int, float, text, list, dict, opaque, Items, nil, cons,
  Fields, end, field, is_finite,
}

unfoldable mutual
  pub copy_json_safe : Value → Result Value
  copy_json_safe null = ok null
  copy_json_safe (bool b) = ok (bool b)
  copy_json_safe (int n) = ok (int n)
  copy_json_safe (float bits) = if is_finite bits then ok (float bits) else err type_error
  copy_json_safe (text s) = ok (text s)
  copy_json_safe (list xs) = do copied ← copy_items xs; ok (list copied)
  copy_json_safe (dict fs) = do copied ← copy_fields fs; ok (dict copied)
  copy_json_safe (opaque _) = err type_error

  pub copy_items : Items → Result Items
  copy_items nil = ok nil
  copy_items (cons x xs) = do y ← copy_json_safe x; ys ← copy_items xs; ok (cons y ys)

  pub copy_fields : Fields → Result Fields
  copy_fields end = ok end
  copy_fields (field other_key v fs) = err type_error
  copy_fields (field (name k) v fs) = do
    w ← copy_json_safe v
    gs ← copy_fields fs
    ok (field (name k) w gs)
