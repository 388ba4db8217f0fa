-- ===== src/Observability/Publication/Stage.antt =====
-- publication.py: `start_publication_run` and `stage_dataframe`.
use skifer.Prelude.{
  ℕ, String, Bool, ◌&&◌, ◌==◌, Option, none, some, [], ◌∷◌, ◌++◌, any, if◌then◌else◌,
}
use skifer.Outcome.{value_error, Result, ok, err, require}
use skifer.Outcome.Action.{◌>>=◌, give, answer}
use skifer.Observability.Journal.{ContractDefinition, started, staging, staged}
use skifer.Observability.Publication.{Store, Host, PublicationRun}
use skifer.Observability.Publication.Names.{is_fqn, unquoted, staging_name}
use skifer.Observability.Publication.Effects.{M, write_store, ask, write_staging, record_state}

abbrev same_contract : ContractDefinition → ContractDefinition → Bool
same_contract c d =
    c.contract_id == d.contract_id
    && c.contract_version == d.contract_version
    && c.definition_hash == d.definition_hash

-- `register_contract`: `INSERT OR IGNORE`
unfoldable pub registered : ContractDefinition → Store → Store
registered d s = record s {
  contracts = if any (same_contract d) s.contracts then s.contracts else s.contracts ++ d ∷ [];
}

abbrev chosen_id : Host → Option String → ℕ → String
chosen_id h none tick = h.uuid4 tick
chosen_id h (some run_id) tick = run_id

abbrev as_uuid : Option String → Result String
as_uuid none = err value_error
as_uuid (some run_id) = ok run_id

module _ {h : Host} where
  -- `str(UUID(run_id or str(uuid4())))`; an empty text is `none`.
  unfoldable pub run_identity : Option String → M h String
  run_identity run_id = ask λ w. as_uuid (h.uuid (chosen_id h run_id w.tick))

  unfoldable pub start_publication_run :
      String → ContractDefinition → Option String → M h PublicationRun
  unfolding run_identity registered
  start_publication_run target_fqn definition run_id =
      let target = unquoted target_fqn in
      do
        _ ← answer λ w. (require (is_fqn target) value_error, w)
        run_id ← run_identity run_id
        let run : PublicationRun = record {
          run_id = run_id;
          target_fqn = target;
          staging_fqn = staging_name target run_id;
          state = started;
        }
        _ ← write_store (registered definition)
        _ ← record_state run started definition none
        give run

  unfoldable pub stage_dataframe : PublicationRun → ContractDefinition → h.Data → M h PublicationRun
  stage_dataframe run definition df = do
    _ ← record_state run staging definition none
    _ ← write_staging df run.staging_fqn
    _ ← record_state run staged definition none
    give (record run { state = staged })
