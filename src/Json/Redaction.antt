-- ===== src/Json/Redaction.antt =====
-- `_redact_credential_echo` of src/skifer/capabilities/executor.py.
pub mod Laws
use package.text.Mathlib.Text.{find?}
use skifer.Prelude.{String, Bool, true, false, not, ◌&&◌, ◌||◌, ◌==◌, is_some, if◌then◌else◌}
use skifer.Json.{
  Key, Value, null, bool, int, float, text, list, dict, opaque, Items, nil, cons, Fields, end,
  field,
}

abbrev pub redacted_credential : String
redacted_credential = "<redacted-credential>"

-- `secret and secret in value`
unfoldable pub echoes : String → String → Bool
echoes secret value = not (secret == "") && is_some (find? value secret)

unfoldable mutual
  pub redact : String → Value → Value × Bool
  redact secret (text s) =
      if echoes secret s then (text redacted_credential, true) else (text s, false)
  redact secret (dict fs) = let r = redact_fields secret fs in (dict r.0, r.1)
  redact secret (list xs) = let r = redact_items secret xs in (list r.0, r.1)
  redact secret null = (null, false)
  redact secret (bool b) = (bool b, false)
  redact secret (int n) = (int n, false)
  redact secret (float bits) = (float bits, false)
  redact secret (opaque s) = (opaque s, false)

  pub redact_items : String → Items → Items × Bool
  redact_items secret nil = (nil, false)
  redact_items secret (cons x xs) =
      let r = redact secret x in let rs = redact_items secret xs in (cons r.0 rs.0, r.1 || rs.1)

  pub redact_fields : String → Fields → Fields × Bool
  redact_fields secret end = (end, false)
  redact_fields secret (field k v fs) =
      let r = redact secret v in let rs = redact_fields secret fs in (field k r.0 rs.0, r.1 || rs.1)
