-- ===== src/Observability/Publication/Session.antt =====
-- Sequences of publications and resumptions, each of which may fail anywhere.
use skifer.Prelude.{String, ◌≡◌, refl, true, ◌==◌, Option, List, [], ◌∷◌}
use skifer.Outcome.{value_error, err}
use skifer.Outcome.Action.Steps.{Steps, bind-Steps, give-Steps, read-Steps, attempt-Steps}
use skifer.Observability.Checks.{CheckResult, has_critical_failures}
use skifer.Observability.Journal.{ContractDefinition}
use skifer.Observability.Publication.{Host, World, PublicationRun}
use skifer.Observability.Publication.Promote.{promote_staging}
use skifer.Observability.Publication.Publish.{publish, publish_run, decide, promote_run, resume}
use skifer.Observability.Publication.Kept.{
  IsKept, start-Steps, stage-Steps, quarantine-Steps, after_quarantine-Steps, recovered-Steps,
}
use skifer.Observability.Publication.Blocked.{IsBlocked}
use skifer.Observability.Publication.Stuck.{
  Holds, Holds-IsKept, Stuck, promote-Holds, promote_blocked,
}
use skifer.Prelude.{Bool-cases, inl, inr}

-- One call of the coordinator.
pub data Request (h : Host) : Type 0 where
  publishes : h.Data → String → ContractDefinition → Option String → Request h
  resumes : PublicationRun → ContractDefinition → Request h

module _ {h : Host} where
  unfoldable pub handle : Request h → World h → World h
  handle (publishes df target definition run_id) w = (publish df target definition run_id w).1
  handle (resumes run definition) w = (resume run definition w).1

  -- The calls that follow see what was written, also by one that raised.
  unfoldable pub handle_all : List (Request h) → World h → World h
  unfolding handle
  handle_all [] w = w
  handle_all (r ∷ rs) w = handle_all rs (handle r w)

module _ {h : Host} (id : String) where
  abbrev R : World h → World h → Type 0
  R = Holds id

  abbrev kept : IsKept R
  kept = Holds-IsKept id

  promote_run-Holds :
      (run : PublicationRun) (results : List CheckResult) (definition : ContractDefinition)
      → Steps R (promote_run run results definition)
  unfolding promote_run
  promote_run-Holds run results definition =
      bind-Steps kept.order _ _ (read-Steps kept.order _) λ previous.
        bind-Steps kept.order _ _ (promote-Holds id run definition) λ done.
          bind-Steps kept.order _ _ (recovered-Steps kept done) λ _.
            bind-Steps kept.order _ _ (attempt-Steps kept.order _ (kept.asks _))
              λ _. give-Steps kept.order _

  decide-Holds :
      (run : PublicationRun) (definition : ContractDefinition) (results : List CheckResult)
      → Steps R (decide run definition results)
  unfolding decide
  decide-Holds run definition results w = elim (Bool-cases (has_critical_failures results)) [
    | inl failed ↦ rw failed (
        bind-Steps kept.order _ _ (quarantine-Steps kept run definition results)
          (λ outcome. after_quarantine-Steps kept run results outcome) w)
    | inr passed ↦ rw passed (promote_run-Holds run results definition w)
  ]

  publish-Holds :
      (df : h.Data) (target : String) (definition : ContractDefinition) (run_id : Option String)
      → Steps R (publish {h = h} df target definition run_id)
  unfolding publish publish_run
  publish-Holds df target definition run_id =
      bind-Steps kept.order _ _ (start-Steps kept target definition run_id) λ run.
        bind-Steps kept.order _ _ (stage-Steps kept run definition df) λ run.
          bind-Steps kept.order _ _ (kept.asks _) λ results.
            bind-Steps kept.order _ _ (kept.writes _ (λ s. refl))
              λ _. decide-Holds run definition results

  resume-Holds :
      (run : PublicationRun) (definition : ContractDefinition) → Steps R (resume run definition)
  unfolding resume
  resume-Holds run definition =
      bind-Steps kept.order _ _ (promote-Holds id run definition)
        λ done. bind-Steps kept.order _ _ (recovered-Steps kept done) λ _. give-Steps kept.order _

  handle-Holds : (r : Request h) (w : World h) → R w (handle r w)
  unfolding handle
  handle-Holds (publishes df target definition run_id) w =
      publish-Holds df target definition run_id w
  handle-Holds (resumes run definition) w = resume-Holds run definition w

  handle_all-Holds : (rs : List (Request h)) (w : World h) → R w (handle_all rs w)
  unfolding handle_all
  handle_all-Holds [] w b = kept.order.stay w b
  handle_all-Holds (r ∷ rs) w b =
      kept.order.join w (handle r w) (handle_all rs (handle r w)) (handle-Holds r w)
        (handle_all-Holds rs (handle r w)) b

  -- A run that was staged and whose latest event is QUARANTINED or CHECK_ERROR never writes a target
  -- again, whatever publications and resumptions follow, of this run or of others, and wherever they
  -- fail. Its latest event stays one of these two, though not always the same one, and behind them a
  -- promotion of it raises ValueError and changes nothing.
  pub handle_all-Stuck :
      (rs : List (Request h)) (w : World h) (run : PublicationRun) (definition : ContractDefinition)
      → IsBlocked id w.store.runs
      → (run.run_id == id) ≡ true
      → Stuck id w (handle_all rs w)
        × (promote_staging run definition (handle_all rs w) ≡ (err value_error, handle_all rs w))
  handle_all-Stuck rs w run definition b same =
      let stuck = handle_all-Holds rs w b in
      (stuck, promote_blocked id run definition (handle_all rs w) stuck.blocked same)
