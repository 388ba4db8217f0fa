-- ===== src/Observability/Publication/Effects.antt =====
-- The writes of the store and the calls of the backend, as actions on the world.
use skifer.Prelude.{ℕ, ◌+◌, String, Option, none, some, List, ◌∷◌}
use skifer.Outcome.{Error, Result, ok, err}
use skifer.Outcome.Action.{Action}
use skifer.Observability.Journal.{
  RunState, ContractDefinition, RunEvent, append_run_event, next_run_event_time,
}
use skifer.Observability.Publication.{
  Store, Host, World, Call, wrote_staging, wrote_table, dropped_staging, PublicationRun,
}

abbrev pub M : Host → Type 0 → Type 0
M h A = Action (World h) A

-- The event of a run, at the reading `now` of the clock.
unfoldable pub event_of :
    PublicationRun → RunState → ContractDefinition → Option String → ℕ → List RunEvent → RunEvent
event_of run state definition quarantine now rows = record {
  run_id = run.run_id;
  dataset = run.target_fqn;
  state = state;
  contract_id = definition.contract_id;
  contract_version = definition.contract_version;
  definition_hash = definition.definition_hash;
  occurred_at = next_run_event_time rows run.run_id now;
  target_fqn = some run.target_fqn;
  staging_fqn = some run.staging_fqn;
  quarantine_fqn = quarantine;
}

unfoldable pub appended :
    PublicationRun → RunState → ContractDefinition → Option String → ℕ → Store → Store
unfolding event_of
appended run state definition quarantine now s = record s {
  runs = append_run_event (event_of run state definition quarantine now s.runs) s.runs;
}

module _ {h : Host} where
  abbrev pub unless_fault : Option Error → (Store → Store) → M h (Unit {0})
  unless_fault (some e) change w = (err e, record w { tick = w.tick + 1 })
  unless_fault none change w = (ok tt, record w { tick = w.tick + 1; store = change w.store })

  -- A statement that is committed, or raises.
  unfoldable pub write_store : (Store → Store) → M h (Unit {0})
  write_store change w = unless_fault (h.fault w.tick) change w

  -- Something outside answers, and changes nothing here.
  unfoldable pub ask : {A : Type 0} → (World h → Result A) → M h A
  ask f w = (f w, record w { tick = w.tick + 1 })

  abbrev called : Call → Result (Unit {0}) × h.Tables → M h (Unit {0})
  called call r w = (r.0, record w { tables = r.1; calls = call ∷ w.calls; tick = w.tick + 1 })

  unfoldable pub write_staging : h.Data → String → M h (Unit {0})
  write_staging d fqn w = called (wrote_staging fqn) (h.write_staging w.tick d fqn w.tables) w

  unfoldable pub write_table : PublicationRun → h.Data → M h (Unit {0})
  write_table run d w =
      called (wrote_table run.run_id run.target_fqn)
        (h.write_table w.tick d run.target_fqn w.tables) w

  unfoldable pub drop_staging : String → M h (Unit {0})
  drop_staging fqn w = called (dropped_staging fqn) (h.drop_staging w.tick fqn w.tables) w

  -- `store.append_run_event(RunEvent(...))`
  unfoldable pub record_state :
      PublicationRun → RunState → ContractDefinition → Option String → M h (Unit {0})
  unfolding appended write_store
  record_state run state definition quarantine w =
      write_store (appended run state definition quarantine (h.clock w.tick).instant) w
