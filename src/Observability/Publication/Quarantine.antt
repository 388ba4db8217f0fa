-- ===== src/Observability/Publication/Quarantine.antt =====
-- quarantine.py.
use skifer.Prelude.{
  ℕ, ◌+◌, String, Bool, true, false, Option, none, some, List, [], ◌∷◌, any, elem, if◌then◌else◌,
}
use skifer.Outcome.{value_error, Result, refuse}
use skifer.Outcome.Action.{◌>>=◌, give, answer, attempt}
use skifer.Observability.Checks.{
  CheckResult, ContractScope, row_scope, dataset_scope, passed, truthy,
}
use skifer.Observability.Journal.{ContractDefinition, RunState, quarantined, check_error}
use skifer.Observability.Publication.{Host, PublicationRun}
use skifer.Observability.Publication.Names.{quarantine_name}
use skifer.Observability.Publication.Effects.{M, ask, write_staging, drop_staging, record_state}

-- The keys `{type}:{index}` are distinct, as the indices are.
abbrev pub Predicates : Type 0
Predicates = List ((String × ℕ) × String)

abbrev is_row : ContractScope → Bool
is_row row_scope = true
is_row dataset_scope = false

abbrev with_predicate : String → ℕ → Option String → Predicates → Predicates
with_predicate class index none rest = rest
with_predicate class index (some predicate) rest = ((class, index), predicate) ∷ rest

predicates_from : ℕ → List CheckResult → Predicates
predicates_from index [] = []
predicates_from index (r ∷ rs) =
    let rest = predicates_from (index + 1) rs in
    if passed r
    then rest
    else if is_row r.contract.scope
    then with_predicate r.contract.class_name index (truthy r.contract.violation_predicate) rest
    else rest

unfoldable pub row_violation_predicates : List CheckResult → Predicates
unfolding predicates_from
row_violation_predicates results = predicates_from 0 results

abbrev pub reserved_quarantine_columns : List String
reserved_quarantine_columns = "_violations" ∷ "_run_id" ∷ "_contract_version" ∷ []

unfoldable pub validate_reserved_columns : List String → Result (Unit {0})
validate_reserved_columns columns =
    refuse (any (λ c. elem c columns) reserved_quarantine_columns) value_error

pub record QuarantineResult : Type 0 where
  pub run_id : String
  pub staging_fqn : String
  pub quarantine_fqn : Option String
  pub state : RunState

module _ {h : Host} where
  unfoldable pub check_failed : PublicationRun → ContractDefinition → M h QuarantineResult
  check_failed run definition = do
    _ ← record_state run check_error definition none
    give (record {
      run_id = run.run_id;
      staging_fqn = run.staging_fqn;
      quarantine_fqn = none;
      state = check_error;
    })

  unfoldable pub quarantine_written :
      PublicationRun → ContractDefinition → Option (Unit {0}) → M h QuarantineResult
  unfolding check_failed
  quarantine_written run definition none = check_failed run definition
  quarantine_written run definition (some _) =
      let destination = quarantine_name run.staging_fqn in
      do
        _ ← record_state run quarantined definition (some destination)
        _ ← drop_staging run.staging_fqn
        give (record {
          run_id = run.run_id;
          staging_fqn = run.staging_fqn;
          quarantine_fqn = some destination;
          state = quarantined;
        })

  -- Tagging and its guard run only where there are predicates.
  unfoldable pub check_columns : PublicationRun → h.Data → Predicates → M h (Unit {0})
  check_columns run d [] = give tt
  check_columns run d (p ∷ ps) = do
    columns ← ask λ w. h.list_columns w.tick d run.staging_fqn w.tables
    answer λ w. (validate_reserved_columns columns, w)

  unfoldable pub tag : PublicationRun → ContractDefinition → h.Data → Predicates → M h h.Data
  tag run definition d [] = give d
  tag run definition d (p ∷ ps) =
      ask
        λ w. h.tag_row_violations w.tick d (p ∷ ps) run.run_id definition.contract_version w.tables

  unfoldable pub snapshot :
      PublicationRun → ContractDefinition → List CheckResult → Option h.Data → M h QuarantineResult
  unfolding check_columns tag quarantine_written
  snapshot run definition results none = check_failed run definition
  snapshot run definition results (some d) =
      let predicates = row_violation_predicates results in
      do
        _ ← check_columns run d predicates
        written ← attempt (
            tag run definition d predicates >>= λ tagged.
            write_staging tagged (quarantine_name run.staging_fqn))
        quarantine_written run definition written

  unfoldable pub quarantine_staging :
      PublicationRun → ContractDefinition → List CheckResult → M h QuarantineResult
  unfolding snapshot
  quarantine_staging run definition results =
      attempt (ask λ w. h.read_staging w.tick run.staging_fqn w.tables)
      >>= snapshot run definition results
