-- ===== src/Observability/IncidentTable/AtMostOne.antt =====
-- At most one incident is open for a check of a target.
use skifer.Prelude.{String, ◌≡◌, refl, Option, List, [], ◌∷◌}
use skifer.Outcome.{Result, ok, err}
use skifer.Time.{DateTime}
use skifer.Observability.Incidents.{IncidentStatus, Incident}
use skifer.Observability.IncidentTable.{
  IncidentRows, open_incident, resolve_open_incidents, update_incident,
}
use skifer.Observability.IncidentTable.OpenCount.{IsTable, open_incident-IsTable}
use skifer.Observability.IncidentTable.Updated.{resolve-IsTable, update-IsTable}

-- The calls that change the table; one that raises leaves it.
pub data IncidentCall : Type 0 where
  opens : Incident → IncidentCall
  resolves : String → String → DateTime → IncidentCall
  updates : String → IncidentStatus → DateTime → Option String → Option String → IncidentCall

after_call : {A : Type 0} → IncidentRows → Result (A × IncidentRows) → IncidentRows
after_call rows (ok (a, after)) = after
after_call rows (err e) = rows

unfoldable pub serve : IncidentCall → IncidentRows → IncidentRows
unfolding after_call
serve (opens i) rows = (open_incident i rows).1
serve (resolves target root_cause now) rows =
    after_call rows (resolve_open_incidents target root_cause now rows)
serve (updates id new_status now assignee root_cause) rows =
    after_call rows (update_incident id new_status now assignee root_cause rows)

unfoldable pub serve_all : List IncidentCall → IncidentRows → IncidentRows
unfolding serve
serve_all [] rows = rows
serve_all (c ∷ cs) rows = serve_all cs (serve c rows)

after_call-IsTable :
    {A : Type 0} (rows : IncidentRows) (r : Result (A × IncidentRows))
    → ((a : A) (after : IncidentRows) → r ≡ ok (a, after) → IsTable after)
    → IsTable rows
    → IsTable (after_call rows r)
unfolding after_call
after_call-IsTable rows (ok (a, after)) kept t = kept a after refl
after_call-IsTable rows (err e) kept t = t

serve-IsTable : (c : IncidentCall) (rows : IncidentRows) → IsTable rows → IsTable (serve c rows)
unfolding serve
serve-IsTable (opens i) rows t = open_incident-IsTable i rows t
serve-IsTable (resolves target root_cause now) rows t =
    after_call-IsTable rows (resolve_open_incidents target root_cause now rows)
      (λ us after h. resolve-IsTable target root_cause now rows us after h t) t
serve-IsTable (updates id new_status now assignee root_cause) rows t =
    after_call-IsTable rows (update_incident id new_status now assignee root_cause rows)
      (λ u after h. update-IsTable id new_status now assignee root_cause rows u after h t) t

-- Whatever calls open, resolve and update incidents, on a table with distinct identities in which no
-- check of a target has two open incidents: the table stays one.
pub serve_all-IsTable :
    (cs : List IncidentCall) (rows : IncidentRows) → IsTable rows → IsTable (serve_all cs rows)
unfolding serve_all
serve_all-IsTable [] rows t = t
serve_all-IsTable (c ∷ cs) rows t = serve_all-IsTable cs (serve c rows) (serve-IsTable c rows t)
