-- ===== src/Observability/Publication/Promote.antt =====
-- publication.py: `promote_staging`.
use skifer.Prelude.{Option, none, some, List, if◌then◌else◌}
use skifer.Outcome.{value_error}
use skifer.Outcome.Action.{◌>>=◌, give, throw, read}
use skifer.Observability.Journal.{
  ContractDefinition, RunState, staged, promoting, promoted, RunEvent, StoredCheckResult, get_run,
  get_check_results, blocks,
}
use skifer.Observability.Publication.{Host, PublicationRun}
use skifer.Observability.Publication.Effects.{M, ask, write_table, drop_staging, record_state}

module _ {h : Host} where
  unfoldable pub finish : PublicationRun → M h PublicationRun
  finish run = do _ ← drop_staging run.staging_fqn; give (record run { state = promoted })

  -- The loop over PROMOTING and PROMOTED, and the end.
  unfoldable pub publish_table : PublicationRun → ContractDefinition → M h PublicationRun
  unfolding finish
  publish_table run definition = do
    _ ← record_state run promoting definition none
    d ← ask λ w. h.read_staging w.tick run.staging_fqn w.tables
    _ ← write_table run d
    _ ← record_state run promoted definition none
    finish run

  unfoldable pub promote_checked :
      PublicationRun → ContractDefinition → List StoredCheckResult → M h PublicationRun
  unfolding publish_table
  promote_checked run definition results =
      if blocks results then throw value_error else publish_table run definition

  unfoldable pub promote_in : PublicationRun → ContractDefinition → RunState → M h PublicationRun
  unfolding promote_checked
  promote_in run definition promoted = finish run
  promote_in run definition staged =
      read (λ w. get_check_results run.run_id w.store.checks) >>= promote_checked run definition
  promote_in run definition promoting =
      read (λ w. get_check_results run.run_id w.store.checks) >>= promote_checked run definition
  promote_in run definition _ = throw value_error

  unfoldable pub promote_from :
      PublicationRun → ContractDefinition → Option RunEvent → M h PublicationRun
  unfolding promote_in
  promote_from run definition none = throw value_error
  promote_from run definition (some current) = promote_in run definition current.state

  unfoldable pub promote_staging : PublicationRun → ContractDefinition → M h PublicationRun
  unfolding promote_from
  promote_staging run definition =
      read (λ w. get_run run.run_id w.store.runs) >>= promote_from run definition
