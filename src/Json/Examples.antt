-- ===== src/Json/Examples.antt =====
-- A concrete output of an executor.
use skifer.Prelude.{◌≡◌, false}
use skifer.Outcome.{ok, err, type_error}
use skifer.Json.{Value, text, list, dict, nil, cons, Fields, end, field, name}
use skifer.Json.Copy.{copy_json_safe}
use skifer.Json.Copy.Laws.{is_json, copy_json_safe_exact}
use skifer.Json.Redaction.{redact}
use skifer.Json.Redaction.Laws.{IsRedacted, AllClean, has_echo, redact_lem}
use skifer.Prelude.{if◌then◌else◌}

abbrev leaky_fields : Fields
leaky_fields =
    field (name "s3cret") (text "ok")
      (field (name "log") (list (cons (text "token=s3cret;") (cons (text "done") nil))) end)

abbrev leaky : Value
leaky = dict leaky_fields

redact_lem_example :
    IsRedacted "s3cret" leaky (redact "s3cret" leaky).0
    × AllClean "s3cret" (redact "s3cret" leaky).0
    × ((redact "s3cret" leaky).1 ≡ has_echo "s3cret" leaky)
    × (has_echo "s3cret" leaky ≡ false → (redact "s3cret" leaky).0 ≡ leaky)
    × (is_json (redact "s3cret" leaky).0 ≡ is_json leaky)
redact_lem_example = redact_lem "s3cret" leaky

copy_json_safe_exact_example :
    copy_json_safe leaky ≡ (if is_json leaky then ok leaky else err type_error)
copy_json_safe_exact_example = copy_json_safe_exact leaky
