-- ===== src/Observability/Examples.antt =====
-- Concrete incidents, lineage and owners.
use skifer.Prelude.{
  ℕ, ◌≤◌, String, ◌≡◌, ◌≢◌, ◌↔◌, refl, true, ◌==◌, Option, none, some, List, [], ◌∷◌, All, map,
  elem, distinct, arith, if◌then◌else◌,
}
use skifer.Outcome.{ok}
use skifer.Time.{DateTime, utc}
use skifer.Observability.Checks.{CheckResult, DataContract, fail, error, skipped, dataset_scope}
use skifer.Observability.Incidents.{Incident, new, acknowledged, resolved, incidents_from_report}
use skifer.Observability.Incidents.Lifecycle.{Move, after, IsLife, after-IsKept}
use skifer.Observability.Incidents.Report.{names, fails, IsOpening, incidents_from_report-IsOpening}
use skifer.Observability.Downstream.{Edge, bounded_downstream_datasets}
use skifer.Observability.Downstream.Walks.{Walk}
use skifer.Observability.Downstream.Exact.{bounded_downstream_datasets-Walk}
use skifer.Observability.Recipients.{Owner, written, Recipient, resolve_recipients}
use skifer.Observability.Recipients.Notified.{
  told, distinct_keys, recipient_of, Affected, resolve_recipients-Affected,
}
use skifer.Observability.IncidentTable.{list_open_incidents, resolve_open_incidents}
use skifer.Observability.IncidentTable.OpenCount.{count_open, IsTable}
use skifer.Observability.IncidentTable.AtMostOne.{
  IncidentCall, opens, resolves, updates, serve_all, serve_all-IsTable,
}
use skifer.Observability.IncidentTable.Resolved.{after_recovery, resolve_open_incidents-recovered}
use skifer.Observability.IncidentTable.Patched.{recovered}

abbrev now : DateTime
now = record { instant = 5_000; zone = utc }

abbrev incident : Incident
incident = record {
  id = "r1:UniqueCheck:id";
  target_fqn = "sales.orders";
  run_id = "r1";
  check_name = "UniqueCheck:id";
  severity = "critical";
  status = new;
  opened_at = now;
  assignee = none;
  root_cause = none;
  resolved_at = none;
}

abbrev acknowledge : Move
acknowledge = record {
  new_status = acknowledged;
  now = now;
  assignee = some "ann";
  root_cause = none;
}

abbrev close : Move
close = record { new_status = resolved; now = now; assignee = none; root_cause = some "fixed" }

after-IsKept_example :
    IsLife incident (after incident (acknowledge ∷ close ∷ []))
    × ((after incident (acknowledge ∷ close ∷ [])).status ≡ resolved
        → after (after incident (acknowledge ∷ close ∷ [])) (acknowledge ∷ [])
          ≡ after incident (acknowledge ∷ close ∷ []))
after-IsKept_example = after-IsKept incident (acknowledge ∷ close ∷ []) (acknowledge ∷ []) refl refl

abbrev unique_id : DataContract
unique_id = record {
  class_name = "UniqueCheck";
  column = some "id";
  scope = dataset_scope;
  violation_predicate = none;
}

abbrev results : List CheckResult
results =
    record { contract = unique_id; status = fail; severity = "critical"; message = "" }
    ∷ record { contract = unique_id; status = error; severity = "critical"; message = "" }
    ∷ record { contract = unique_id; status = skipped; severity = "critical"; message = "" }
    ∷ []

incidents_from_report-IsOpening_example :
    All (IsOpening "r1" "sales.orders" now) (incidents_from_report results "r1" "sales.orders" now)
    × (distinct (names (incidents_from_report results "r1" "sales.orders" now)) ≡ true)
    × ((name : String)
        → elem name (names (incidents_from_report results "r1" "sales.orders" now))
          ≡ fails name results)
incidents_from_report-IsOpening_example =
    incidents_from_report-IsOpening results "r1" "sales.orders" now

abbrev edge : String → String → Edge
edge source target = record {
  source_table = some source;
  source_fqn = none;
  target_table = none;
  target_fqn = some target;
}

-- A cycle, with the far edge first.
abbrev edges : List Edge
edges = edge "b" "c" ∷ edge "a" "b" ∷ edge "c" "a" ∷ []

bounded_downstream_datasets_test : bounded_downstream_datasets edges "a" 2 ≡ "b" ∷ "c" ∷ []
unfolding bounded_downstream_datasets
bounded_downstream_datasets_test = refl

bounded_downstream_datasets-Walk_example :
    (elem "c" (bounded_downstream_datasets edges "a" 2) ≡ true)
    ↔ ((◌≢◌ {A = String} "a" "c") × (n : ℕ) × (n ≤ 2) × Walk edges "a" n "c")
bounded_downstream_datasets-Walk_example = bounded_downstream_datasets-Walk edges "a" 2 "c"

abbrev owner_of : String → Option Owner
owner_of fqn =
    if fqn == "b"
    then none
    else some
        (record { contact = some "ops@x"; team = none; steward = some (written fqn); via = none })

resolve_recipients-Affected_example :
    (distinct_keys (resolve_recipients (λ s. s) owner_of edges "a" 2) ≡ true)
    × All
        (λ r.
          Affected (λ s. s) owner_of edges "a" 2 r.source_fqn
          × (recipient_of (λ s. s) owner_of r.source_fqn ≡ some r))
        (resolve_recipients (λ s. s) owner_of edges "a" 2)
    × ((fqn : String) (r : Recipient)
        → Affected (λ s. s) owner_of edges "a" 2 fqn
        → recipient_of (λ s. s) owner_of fqn ≡ some r
        → told r (resolve_recipients (λ s. s) owner_of edges "a" 2) ≡ true)
resolve_recipients-Affected_example = resolve_recipients-Affected (λ s. s) owner_of edges "a" 2

empty-IsTable : IsTable []
unfolding count_open
empty-IsTable = record { keys = refl; once = λ target check. omega arith }

abbrev calls : List IncidentCall
calls =
    opens incident
    ∷ opens (record incident { id = "r2:UniqueCheck:id"; run_id = "r2" })
    ∷ updates "r1:UniqueCheck:id" acknowledged now (some "ann") none
    ∷ resolves "sales.orders" "recovered" now
    ∷ opens (record incident { id = "r3:UniqueCheck:id"; run_id = "r3" })
    ∷ []

serve_all-IsTable_example : IsTable (serve_all calls [])
serve_all-IsTable_example = serve_all-IsTable calls [] empty-IsTable

-- Of another target, and left as it is.
abbrev elsewhere : Incident
elsewhere = record incident { id = "r2"; target_fqn = "sales.refunds" }

resolve_open_incidents-recovered_example :
    (resolve_open_incidents "sales.orders" "recovered" now (incident ∷ elsewhere ∷ [])
      ≡ ok (
        map
            (recovered "recovered" now)
            (list_open_incidents "sales.orders" (incident ∷ elsewhere ∷ [])),
        map (after_recovery "sales.orders" "recovered" now) (incident ∷ elsewhere ∷ []),
      ))
    × (list_open_incidents "sales.orders"
          (map (after_recovery "sales.orders" "recovered" now) (incident ∷ elsewhere ∷ []))
        ≡ [])
resolve_open_incidents-recovered_example =
    resolve_open_incidents-recovered "sales.orders" "recovered" now (incident ∷ elsewhere ∷ []) refl
