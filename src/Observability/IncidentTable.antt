-- ===== src/Observability/IncidentTable.antt =====
-- certification_store.py: the table `incidents` of `SqliteCertificationStore`, as the list of its rows
-- in the order of their insertion. Times are written in UTC, so their texts are in the order of the
-- instants. SQL does not say which of two equally new rows comes first; the model takes the older row.
pub mod OpenCount
pub mod Updated
pub mod AtMostOne
pub mod Patched
pub mod Resolved
use skifer.Prelude.{
  String, Bool, true, false, not, ◌&&◌, ◌==◌, Option, none, some, List, [], ◌∷◌, ◌++◌, map, any,
  elem, ltb, or_else, if◌then◌else◌,
}
use skifer.Outcome.{key_error, Result, ok, err, ◌>>=◌}
use skifer.Time.{DateTime}
use skifer.Observability.Incidents.{IncidentStatus, resolved, Incident, is_resolved, transition}

abbrev pub IncidentRows : Type 0
IncidentRows = List Incident

abbrev pub is_open : Incident → Bool
is_open i = not (is_resolved i.status)

unfoldable pub get_incident : String → IncidentRows → Option Incident
get_incident id [] = none
get_incident id (i ∷ rows) = if i.id == id then some i else get_incident id rows

-- `ORDER BY opened_at DESC LIMIT 1`, with the first row so far
unfoldable pub newest_first : Option Incident → Incident → Option Incident
newest_first none i = some i
newest_first (some best) i =
    if ltb best.opened_at.instant i.opened_at.instant then some i else some best

unfoldable pub newest_open : String → String → Option Incident → IncidentRows → Option Incident
unfolding newest_first
newest_open target check best [] = best
newest_open target check best (i ∷ rows) =
    let with_i = newest_open target check (newest_first best i) rows in
    let without_i = newest_open target check best rows in
    if i.target_fqn == target && i.check_name == check && is_open i then with_i else without_i

unfoldable pub get_open_incident : String → String → IncidentRows → Option Incident
unfolding newest_open
get_open_incident target check rows = newest_open target check none rows

-- `INSERT OR IGNORE` on the primary key `id`
unfoldable pub insert_incident : Incident → IncidentRows → IncidentRows
insert_incident i rows = if elem i.id (map (λ r. r.id) rows) then rows else rows ++ i ∷ []

-- The answer to a search for an open incident decides.
unfoldable pub open_unless : Incident → Option Incident → IncidentRows → Incident × IncidentRows
unfolding insert_incident get_incident
open_unless i (some existing) rows = (existing, rows)
open_unless i none rows =
    let after = insert_incident i rows in (or_else (get_incident i.id after) i, after)

unfoldable pub open_incident : Incident → IncidentRows → Incident × IncidentRows
unfolding open_unless get_open_incident
open_incident i rows = open_unless i (get_open_incident i.target_fqn i.check_name rows) rows

unfoldable pub insert_newest : Incident → List Incident → List Incident
insert_newest i [] = i ∷ []
insert_newest i (j ∷ js) =
    let rest = insert_newest i js in
    if ltb i.opened_at.instant j.opened_at.instant then j ∷ rest else i ∷ j ∷ js

-- `ORDER BY opened_at DESC`
unfoldable pub list_open_incidents : String → IncidentRows → List Incident
unfolding insert_newest
list_open_incidents target [] = []
list_open_incidents target (i ∷ rows) =
    let rest = list_open_incidents target rows in
    if i.target_fqn == target && is_open i then insert_newest i rest else rest

-- `UPDATE incidents SET ... WHERE id = ?`, on one row
unfoldable pub updated_row : Incident → Incident → Incident
updated_row u r =
    if r.id == u.id
    then record r {
      status = u.status;
      assignee = u.assignee;
      root_cause = u.root_cause;
      resolved_at = u.resolved_at;
    }
    else r

unfoldable pub update_rows : List Incident → IncidentRows → IncidentRows
unfolding updated_row
update_rows [] rows = rows
update_rows (u ∷ us) rows = update_rows us (map (updated_row u) rows)

unfoldable pub resolve_each : String → DateTime → List Incident → Result (List Incident)
resolve_each root_cause now [] = ok []
resolve_each root_cause now (i ∷ is) = do
  first ← transition i resolved now none (some root_cause)
  rest ← resolve_each root_cause now is
  ok (first ∷ rest)

unfoldable pub resolve_open_incidents :
    String → String → DateTime → IncidentRows → Result (List Incident × IncidentRows)
unfolding resolve_each update_rows list_open_incidents
resolve_open_incidents target root_cause now rows = do
  updated ← resolve_each root_cause now (list_open_incidents target rows)
  ok (updated, update_rows updated rows)

unfoldable pub update_found :
    IncidentStatus
    → DateTime
    → Option String
    → Option String
    → IncidentRows
    → Option Incident
    → Result (Incident × IncidentRows)
unfolding update_rows
update_found new_status now assignee root_cause rows none = err key_error
update_found new_status now assignee root_cause rows (some current) = do
  updated ← transition current new_status now assignee root_cause
  ok (updated, update_rows (updated ∷ []) rows)

unfoldable pub update_incident :
    String
    → IncidentStatus
    → DateTime
    → Option String
    → Option String
    → IncidentRows
    → Result (Incident × IncidentRows)
unfolding update_found get_incident
update_incident id new_status now assignee root_cause rows =
    update_found new_status now assignee root_cause rows (get_incident id rows)
