-- ===== src/Observability/Publication/Kept.antt =====
-- What the parts of a publication do to the world, as far as a relation that each of their single steps
-- keeps can tell. A client gives the relation, and the proof for the single steps.
use skifer.Prelude.{
  String, ◌≡◌, refl, Bool, true, false, Option, none, some, List, [], ◌∷◌, ◌++◌, Bool-cases, inl,
  inr,
}
use skifer.Outcome.{Result}
use skifer.Outcome.Action.{answer}
use skifer.Outcome.Action.Steps.{Steps, IsOrder, bind-Steps, give-Steps, read-Steps, attempt-Steps}
use skifer.Observability.Checks.{CheckResult}
use skifer.Observability.Incidents.{Incident}
use skifer.Observability.Journal.{
  ContractDefinition, RunState, started, staging, staged, promoting, promoted, quarantined,
  check_error,
}
use skifer.Observability.Publication.{Store, Host, World, PublicationRun}
use skifer.Observability.Publication.Effects.{
  M, write_store, ask, write_staging, drop_staging, record_state,
}
use skifer.Observability.Publication.Stage.{
  registered, run_identity, start_publication_run, stage_dataframe,
}
use skifer.Observability.Publication.Quarantine.{
  Predicates, QuarantineResult, check_failed, quarantine_written, snapshot, check_columns, tag,
  row_violation_predicates, quarantine_staging,
}
use skifer.Observability.Publication.Publish.{
  go_on, is_quarantined, open_one, open_each, record_incidents, resolve_now, resolve_recovered,
  alert_opened, after_quarantine,
}

-- A state that no promotion writes.
abbrev pub is_quiet : RunState → Bool
is_quiet promoting = false
is_quiet promoted = false
is_quiet _ = true

pub record IsKept {h : Host} (R : World h → World h → Type 0) : Type 1 where
  pub order : IsOrder R
  pub asks : {A : Type 0} (f : World h → Result A) → Steps R (ask f)
  pub answers : {A : Type 0} (f : World h → Result A) → Steps R (answer λ w. (f w, w))
  pub writes : (f : Store → Store) → ((s : Store) → (f s).runs ≡ s.runs) → Steps R (write_store f)
  pub stages : (d : h.Data) (fqn : String) → Steps R (write_staging d fqn)
  pub drops : (fqn : String) → Steps R (drop_staging fqn)
  pub records :
      (run : PublicationRun) (state : RunState) (definition : ContractDefinition)
      (quarantine : Option String)
      → is_quiet state ≡ true
      → Steps R (record_state run state definition quarantine)

module _ {h : Host} {R : World h → World h → Type 0} (kept : IsKept R) where
  pub start-Steps :
      (target : String) (definition : ContractDefinition) (run_id : Option String)
      → Steps R (start_publication_run target definition run_id)
  unfolding start_publication_run run_identity registered
  start-Steps target definition run_id = bind-Steps kept.order _ _ (kept.answers _) λ _.
      bind-Steps kept.order _ _ (kept.asks _) λ run_id.
        bind-Steps kept.order _ _ (kept.writes (registered definition) (λ s. refl)) λ _.
          bind-Steps kept.order _ _ (kept.records _ started definition none refl)
            λ _. give-Steps kept.order _

  pub stage-Steps :
      (run : PublicationRun) (definition : ContractDefinition) (d : h.Data)
      → Steps R (stage_dataframe run definition d)
  unfolding stage_dataframe
  stage-Steps run definition d =
      bind-Steps kept.order _ _ (kept.records run staging definition none refl) λ _.
        bind-Steps kept.order _ _ (kept.stages d run.staging_fqn) λ _.
          bind-Steps kept.order _ _ (kept.records run staged definition none refl)
            λ _. give-Steps kept.order _

  check_failed-Steps :
      (run : PublicationRun) (definition : ContractDefinition)
      → Steps R (check_failed run definition)
  unfolding check_failed
  check_failed-Steps run definition =
      bind-Steps kept.order _ _ (kept.records run check_error definition none refl)
        λ _. give-Steps kept.order _

  written-Steps :
      (run : PublicationRun) (definition : ContractDefinition) (o : Option (Unit {0}))
      → Steps R (quarantine_written run definition o)
  unfolding quarantine_written
  written-Steps run definition none = check_failed-Steps run definition
  written-Steps run definition (some _) =
      bind-Steps kept.order _ _ (kept.records run quarantined definition _ refl)
        λ _. bind-Steps kept.order _ _ (kept.drops run.staging_fqn) λ _. give-Steps kept.order _

  columns-Steps :
      (run : PublicationRun) (d : h.Data) (ps : Predicates) → Steps R (check_columns run d ps)
  unfolding check_columns
  columns-Steps run d [] = give-Steps kept.order tt
  columns-Steps run d (p ∷ ps) = bind-Steps kept.order _ _ (kept.asks _) λ columns. kept.answers _

  tag-Steps :
      (run : PublicationRun) (definition : ContractDefinition) (d : h.Data) (ps : Predicates)
      → Steps R (tag run definition d ps)
  unfolding tag
  tag-Steps run definition d [] = give-Steps kept.order d
  tag-Steps run definition d (p ∷ ps) = kept.asks _

  snapshot-Steps :
      (run : PublicationRun) (definition : ContractDefinition) (results : List CheckResult)
      (o : Option h.Data)
      → Steps R (snapshot run definition results o)
  unfolding snapshot
  snapshot-Steps run definition results none = check_failed-Steps run definition
  snapshot-Steps run definition results (some d) =
      bind-Steps kept.order _ _ (columns-Steps run d (row_violation_predicates results)) λ _.
        bind-Steps kept.order _ _
          (attempt-Steps kept.order _ (
            bind-Steps kept.order _ _
              (tag-Steps run definition d (row_violation_predicates results))
              λ tagged. kept.stages tagged _))
          λ o. written-Steps run definition o

  pub quarantine-Steps :
      (run : PublicationRun) (definition : ContractDefinition) (results : List CheckResult)
      → Steps R (quarantine_staging run definition results)
  unfolding quarantine_staging
  quarantine-Steps run definition results =
      bind-Steps kept.order _ _ (attempt-Steps kept.order _ (kept.asks _))
        λ o. snapshot-Steps run definition results o

  go_on-Steps :
      (next : Incident → M h (List Incident)) (opened : List Incident)
      → ((o : Incident) → Steps R (next o))
      → (o : Option Incident) → Steps R (go_on next opened o)
  go_on-Steps next opened steps none = give-Steps kept.order opened
  go_on-Steps next opened steps (some o) = steps o

  open-Steps : (is opened : List Incident) → Steps R (open_each is opened)
  unfolding open_each open_one
  open-Steps [] opened = give-Steps kept.order opened
  open-Steps (i ∷ is) opened =
      bind-Steps kept.order _ _
        (attempt-Steps kept.order _ (
          bind-Steps kept.order _ _ (read-Steps kept.order _) λ found.
            bind-Steps kept.order _ _ (kept.writes _ (λ s. refl)) λ _. give-Steps kept.order _))
        (go_on-Steps _ opened λ o. open-Steps is (opened ++ o ∷ []))

  alert-Steps : (run : PublicationRun) (is : List Incident) → Steps R (alert_opened run is)
  unfolding alert_opened
  alert-Steps run [] = give-Steps kept.order none
  alert-Steps run (i ∷ is) = attempt-Steps kept.order _ (kept.asks _)

  pub after_quarantine-Steps :
      (run : PublicationRun) (results : List CheckResult) (outcome : QuarantineResult)
      → Steps R (after_quarantine run results outcome)
  unfolding after_quarantine record_incidents
  after_quarantine-Steps run results outcome = elim (Bool-cases (is_quarantined outcome.state)) [
    | inl yes_q ↦ rw yes_q (
        bind-Steps kept.order _ _
          (bind-Steps kept.order _ _ (read-Steps kept.order _) λ now. open-Steps _ _)
          λ opened. bind-Steps kept.order _ _ (alert-Steps run opened) λ _. give-Steps kept.order _)
    | inr no_q ↦ rw no_q (give-Steps kept.order _)
  ]

  pub recovered-Steps : (run : PublicationRun) → Steps R (resolve_recovered run)
  unfolding resolve_recovered resolve_now
  recovered-Steps run =
      attempt-Steps kept.order _
        (bind-Steps kept.order _ _ (kept.answers _) λ found. kept.writes _ (λ s. refl))
