-- ===== src/Observability/Publication/Publish.antt =====
-- publication.py: `PublicationCoordinator`, without its spans, and without its lineage events, catalog
-- tags and metadata index, which it writes at best effort, catching what they raise.
use skifer.Prelude.{
  ℕ, ◌+◌, String, Bool, true, false, Option, none, some, List, [], ◌∷◌, ◌++◌, if◌then◌else◌,
}
use skifer.Outcome.Action.{◌>>=◌, give, read, answer, attempt}
use skifer.Observability.Checks.{CheckResult, has_critical_failures}
use skifer.Observability.Incidents.{Incident, incidents_from_report}
use skifer.Observability.IncidentTable.{open_incident, resolve_open_incidents}
use skifer.Observability.Journal.{
  ContractDefinition, RunState, promoted, quarantined, StoredCheckResult, append_check_results,
  get_latest_promoted,
}
use skifer.Observability.Publication.{Host, PublicationRun}
use skifer.Observability.Publication.Effects.{M, write_store, ask}
use skifer.Observability.Publication.Stage.{start_publication_run, stage_dataframe}
use skifer.Observability.Publication.Promote.{promote_staging}
use skifer.Observability.Publication.Quarantine.{QuarantineResult, quarantine_staging}

pub record PublicationResult : Type 0 where
  pub run : PublicationRun
  pub report : Option (List CheckResult)
  pub state : RunState

-- The results of a report as rows, with their indices.
unfoldable pub stored_results : String → ℕ → List CheckResult → List StoredCheckResult
stored_results run index [] = []
stored_results run index (r ∷ rs) =
    record {
      run_id = run;
      index = index;
      check_type = r.contract.class_name;
      scope = r.contract.scope;
      severity = r.severity;
      status = r.status;
      message = r.message;
    }
    ∷ stored_results run (index + 1) rs

abbrev pub is_quarantined : RunState → Bool
is_quarantined quarantined = true
is_quarantined _ = false

module _ {h : Host} where
  unfoldable pub open_one : Incident → M h Incident
  open_one incident = do
    opened ← read λ w. open_incident incident w.store.incidents
    _ ← write_store (λ s. record s { incidents = opened.1 })
    give opened.0

  -- The loop goes on only behind an incident that was opened.
  abbrev pub go_on :
      (Incident → M h (List Incident)) → List Incident → Option Incident → M h (List Incident)
  go_on next opened none = give opened
  go_on next opened (some o) = next o

  unfoldable pub open_each : List Incident → List Incident → M h (List Incident)
  unfolding open_one
  open_each [] opened = give opened
  open_each (i ∷ is) opened =
      let next : Incident → M h (List Incident) = λ o. open_each is (opened ++ o ∷ []) in
      attempt (open_one i) >>= go_on next opened

  unfoldable pub record_incidents : PublicationRun → List CheckResult → M h (List Incident)
  unfolding open_each
  record_incidents run results = do
    now ← read λ w. h.clock w.tick
    open_each (incidents_from_report results run.run_id run.target_fqn now) []

  unfoldable pub resolve_now : PublicationRun → M h (Unit {0})
  resolve_now run = do
    resolution ← answer λ w.
        (resolve_open_incidents run.target_fqn "recovered" (h.clock w.tick) w.store.incidents, w)
    write_store (λ s. record s { incidents = resolution.1 })

  unfoldable pub resolve_recovered : PublicationRun → M h (Option (Unit {0}))
  unfolding resolve_now
  resolve_recovered run = attempt (resolve_now run)

  unfoldable pub alert_opened : PublicationRun → List Incident → M h (Option (Unit {0}))
  alert_opened run [] = give none
  alert_opened run (i ∷ is) = attempt (ask λ w. h.alert_incident w.tick run.target_fqn (i ∷ is))

  -- What follows a quarantine.
  unfoldable pub after_quarantine :
      PublicationRun → List CheckResult → QuarantineResult → M h PublicationResult
  unfolding alert_opened
  after_quarantine run results outcome =
      let result : M h PublicationResult =
        give (record { run = run; report = some results; state = outcome.state }) in
      if is_quarantined outcome.state
      then (record_incidents run results >>= λ opened. alert_opened run opened >>= λ _. result)
      else result

  unfoldable pub promote_run :
      PublicationRun → List CheckResult → ContractDefinition → M h PublicationResult
  promote_run run results definition = do
    previous ← read λ w. get_latest_promoted run.target_fqn w.store.runs
    done ← promote_staging run definition
    _ ← resolve_recovered done
    _ ← attempt (ask λ w. h.alert_change w.tick previous definition)
    give (record { run = done; report = some results; state = promoted })

  -- The decision.
  unfoldable pub decide :
      PublicationRun → ContractDefinition → List CheckResult → M h PublicationResult
  unfolding after_quarantine promote_run
  decide run definition results =
      if has_critical_failures results
      then quarantine_staging run definition results >>= after_quarantine run results
      else promote_run run results definition

  unfoldable pub publish_run : h.Data → ContractDefinition → PublicationRun → M h PublicationResult
  unfolding decide
  publish_run df definition run = do
    run ← stage_dataframe run definition df
    results ← ask λ w. h.check w.tick run.staging_fqn w.tables
    _ ← write_store (λ s. record s {
      checks = append_check_results (stored_results run.run_id 0 results) s.checks;
    })
    decide run definition results

  unfoldable pub publish :
      h.Data → String → ContractDefinition → Option String → M h PublicationResult
  unfolding publish_run
  publish df target_fqn definition run_id =
      start_publication_run target_fqn definition run_id >>= publish_run df definition

  unfoldable pub resume : PublicationRun → ContractDefinition → M h PublicationResult
  resume run definition = do
    done ← promote_staging run definition
    _ ← resolve_recovered done
    give (record { run = done; report = none; state = promoted })
