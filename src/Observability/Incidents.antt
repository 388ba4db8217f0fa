-- ===== src/Observability/Incidents.antt =====
-- incidents.py: the states of an incident, its transitions, and the incidents of a report.
pub mod Lifecycle
pub mod Report
use Prim.Native.String.{◌++◌}
use skifer.Prelude.{
  String, Bool, true, false, ◌&&◌, ◌||◌, not, Option, none, some, List, [], ◌∷◌, elem, first_some,
  if◌then◌else◌,
}
use skifer.Outcome.{incident_transition_error, Result, ok, err}
use skifer.Time.{DateTime}
use skifer.Observability.Checks.{CheckResult, passed, is_critical, is_skipped, incident_check_name}

pub data IncidentStatus : Type 0 where
  new acknowledged assigned resolved : IncidentStatus

-- `_ALLOWED`
unfoldable pub allowed : IncidentStatus → IncidentStatus → Bool
allowed new acknowledged = true
allowed new assigned = true
allowed new resolved = true
allowed acknowledged assigned = true
allowed acknowledged resolved = true
allowed assigned assigned = true
allowed assigned resolved = true
allowed _ _ = false

pub record Incident : Type 0 where
  pub id : String
  pub target_fqn : String
  pub run_id : String
  pub check_name : String
  pub severity : String
  pub status : IncidentStatus
  pub opened_at : DateTime
  pub assignee : Option String
  pub root_cause : Option String
  pub resolved_at : Option DateTime

-- `new_status is IncidentStatus.RESOLVED`
abbrev pub is_resolved : IncidentStatus → Bool
is_resolved resolved = true
is_resolved _ = false

unfoldable pub transition :
    Incident → IncidentStatus → DateTime → Option String → Option String → Result Incident
unfolding allowed
transition i new_status now assignee root_cause =
    if allowed i.status new_status
    then ok (record i {
      status = new_status;
      assignee = first_some assignee i.assignee;
      root_cause = first_some root_cause i.root_cause;
      resolved_at = if is_resolved new_status then some now else i.resolved_at;
    })
    else err incident_transition_error

-- `result.passed or result.severity != "critical" or status == "SKIPPED"`
unfoldable pub is_failure : CheckResult → Bool
is_failure r = not (passed r || not (is_critical r.severity) || is_skipped r.status)

abbrev incident_for : String → String → DateTime → CheckResult → Incident
incident_for run target now r =
    let name = incident_check_name r.contract in
    record {
      id = run ++ ":" ++ name;
      target_fqn = target;
      run_id = run;
      check_name = name;
      severity = r.severity;
      status = new;
      opened_at = now;
      assignee = none;
      root_cause = none;
      resolved_at = none;
    }

-- The loop, with the names in `seen`.
unfoldable pub collect_incidents :
    String → String → DateTime → List CheckResult → List String → List Incident
unfolding is_failure
collect_incidents run target now [] seen = []
collect_incidents run target now (r ∷ rs) seen =
    let name = incident_check_name r.contract in
    let rest = collect_incidents run target now rs (name ∷ seen) in
    let skipping = collect_incidents run target now rs seen in
    if is_failure r && not (elem name seen) then incident_for run target now r ∷ rest else skipping

unfoldable pub incidents_from_report : List CheckResult → String → String → DateTime → List Incident
unfolding collect_incidents
incidents_from_report results run target now = collect_incidents run target now results []
