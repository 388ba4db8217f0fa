-- ===== src/Observability/Checks.antt =====
-- The results of checks: checks.py, and `has_critical_failures` of monitor.py. A contract is what the
-- modelled code reads of one: the name of its class, its column, its scope and its row predicate.
use Prim.Native.String.{◌++◌}
use skifer.Prelude.{
  String, Bool, true, false, not, ◌&&◌, ◌==◌, Option, none, some, List, any, if◌then◌else◌,
}

pub data CheckStatus : Type 0 where
  pass fail error skipped : CheckStatus

pub data ContractScope : Type 0 where
  row_scope dataset_scope : ContractScope

pub record DataContract : Type 0 where
  pub class_name : String
  pub column : Option String
  pub scope : ContractScope
  pub violation_predicate : Option String

pub record CheckResult : Type 0 where
  pub contract : DataContract
  pub status : CheckStatus
  pub severity : String
  pub message : String

abbrev pub is_pass : CheckStatus → Bool
is_pass pass = true
is_pass _ = false

abbrev pub is_skipped : CheckStatus → Bool
is_skipped skipped = true
is_skipped _ = false

-- `status in (CheckStatus.FAIL, CheckStatus.ERROR)`
abbrev pub is_blocking : CheckStatus → Bool
is_blocking fail = true
is_blocking error = true
is_blocking _ = false

abbrev pub passed : CheckResult → Bool
passed r = is_pass r.status

abbrev pub is_critical : String → Bool
is_critical severity = severity == "critical"

unfoldable pub has_critical_failures : List CheckResult → Bool
has_critical_failures results = any (λ r. not (passed r) && is_critical r.severity) results

-- `text or None`: no text, and the empty one, are both false.
abbrev pub truthy : Option String → Option String
truthy none = none
truthy (some s) = if s == "" then none else some s

-- `text or fallback`
abbrev pub or_text : Option String → Option String → Option String
or_text first second = elim (truthy first) [ none ↦ second | some s ↦ some s ]

abbrev check_name_at : String → Option String → String
check_name_at class none = class
check_name_at class (some column) = class ++ ":" ++ column

unfoldable pub incident_check_name : DataContract → String
incident_check_name contract = check_name_at contract.class_name (truthy contract.column)
