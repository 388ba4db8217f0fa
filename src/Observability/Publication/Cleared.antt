-- ===== src/Observability/Publication/Cleared.antt =====
-- A publication writes a target only behind a report without a critical failure.
use skifer.Prelude.{
  String, ◌≡◌, ◌⊎◌, inl, inr, refl, ap, ◌∙◌, subst, false, Option, List, ◌∷◌, Bool-cases,
}
use skifer.Outcome.{Result, ok}
use skifer.Outcome.Action.{◌>>=◌}
use skifer.Outcome.Action.Steps.{
  Steps, bind-Steps, give-Steps, read-Steps, attempt-Steps, bind_cases,
}
use skifer.Observability.Checks.{CheckResult, has_critical_failures}
use skifer.Observability.Journal.{ContractDefinition}
use skifer.Observability.Publication.{Host, World, PublicationRun}
use skifer.Observability.Publication.Effects.{M, ask}
use skifer.Observability.Publication.Stage.{start_publication_run, stage_dataframe}
use skifer.Observability.Publication.Promote.{promote_staging}
use skifer.Observability.Publication.Publish.{promote_run, decide, publish_run, publish}
use skifer.Observability.Publication.Kept.{
  start-Steps, stage-Steps, quarantine-Steps, after_quarantine-Steps, recovered-Steps,
}
use skifer.Observability.Publication.Guarded.{
  written, Quiet, Quiet-IsKept, Guarded, promote_staging-Guarded,
}

-- The run was started and staged by this publication, and the monitor's report on its staging table,
-- right behind the staging, has no critical failure.
pub record IsClear {h : Host} (w : World h) (df : h.Data) (target : String)
    (definition : ContractDefinition) (run_id : Option String) (run : PublicationRun) : Type 0 where
  pub first : PublicationRun
  pub begun : World h
  pub started_as : start_publication_run target definition run_id w ≡ (ok first, begun)
  pub ready : World h
  pub staged_as : stage_dataframe first definition df begun ≡ (ok run, ready)
  pub results : List CheckResult
  pub reported : h.check ready.tick run.staging_fqn ready.tables ≡ ok results
  pub clear : has_critical_failures results ≡ false

module _ {h : Host} (P : PublicationRun → Type 0) where
  -- At most one target is written, once, and by a run of which `P` holds.
  abbrev pub Cleared : World h → World h → Type 0
  Cleared w v =
      Quiet w v
      ⊎ ((run : PublicationRun) × P run × (written v ≡ (run.run_id, run.target_fqn) ∷ written w))

  join_Cleared : (u v w : World h) → Quiet u v → Cleared v w → Cleared u w
  join_Cleared u v w q (inl r) = inl (r ∙ q)
  join_Cleared u v w q (inr (run, clear, r)) =
      inr (run, clear, r ∙ ap (λ x. (run.run_id, run.target_fqn) ∷ x) q)

  -- A first action that writes no target; what follows may rest on its answer.
  Quiet-answer :
      {A B : Type 0} (first : M h A) (next : A → M h B) (w : World h)
      → Steps Quiet first
      → ((a : A) (v : World h) → first w ≡ (ok a, v) → Cleared v (next a v).1)
      → Cleared w ((first >>= next) w).1
  Quiet-answer first next w quiet steps =
      bind_cases first next w (λ r. Cleared w r.1)
        (λ a v p.
          join_Cleared w v (next a v).1 (subst (λ r. Quiet w r.1) p (quiet w)) (steps a v p))
        (λ e v p. inl (subst (λ r. Quiet w r.1) p (quiet w)))

  Quiet-first :
      {A B : Type 0} (first : M h A) (next : A → M h B)
      → Steps Quiet first
      → ((a : A) → Steps Cleared (next a))
      → Steps Cleared (first >>= next)
  Quiet-first first next quiet steps w = Quiet-answer first next w quiet (λ a v p. steps a v)

  promotes_clear :
      (run : PublicationRun) (w v u : World h) → P run → Guarded run w v → Quiet v u → Cleared w u
  promotes_clear run w v u clear (inl q) r = inl (r ∙ q)
  promotes_clear run w v u clear (inr (may, q)) r = inr (run, clear, r ∙ q)

  guarded_first :
      {B : Type 0} (run : PublicationRun) (definition : ContractDefinition)
      (next : PublicationRun → M h B)
      → P run
      → ((done : PublicationRun) → Steps Quiet (next done))
      → Steps Cleared (promote_staging run definition >>= next)
  guarded_first run definition next clear steps w =
      let guarded = promote_staging-Guarded run definition w in
      bind_cases (promote_staging run definition) next w (λ r. Cleared w r.1)
        (λ done v p.
          promotes_clear run w v (next done v).1 clear (subst (λ r. Guarded run w r.1) p guarded)
            (steps done v))
        (λ e v p. promotes_clear run w v v clear (subst (λ r. Guarded run w r.1) p guarded) refl)

  promote_run-Cleared :
      (run : PublicationRun) (results : List CheckResult) (definition : ContractDefinition)
      → P run
      → Steps Cleared (promote_run run results definition)
  unfolding promote_run
  promote_run-Cleared run results definition clear =
      Quiet-first _ _ (read-Steps Quiet-IsKept.order _) λ previous.
        guarded_first run definition _ clear λ done.
          bind-Steps Quiet-IsKept.order _ _ (recovered-Steps Quiet-IsKept done) λ _.
            bind-Steps Quiet-IsKept.order _ _
              (attempt-Steps Quiet-IsKept.order _ (Quiet-IsKept.asks _))
              λ _. give-Steps Quiet-IsKept.order _

  decide-Cleared :
      (run : PublicationRun) (definition : ContractDefinition) (results : List CheckResult)
      → (has_critical_failures results ≡ false → P run)
      → Steps Cleared (decide run definition results)
  unfolding decide
  decide-Cleared run definition results clear w =
      elim (Bool-cases (has_critical_failures results)) [
        | inl failed ↦ rw failed (
            inl (
              bind-Steps Quiet-IsKept.order _ _
                (quarantine-Steps Quiet-IsKept run definition results)
                (λ outcome. after_quarantine-Steps Quiet-IsKept run results outcome) w))
        | inr passed ↦ rw passed (promote_run-Cleared run results definition (clear passed) w)
      ]

asked :
    {h : Host} {A : Type 0} (f : World h → Result A) (w v : World h) (a : A)
    → ask f w ≡ (ok a, v)
    → f w ≡ ok a
unfolding ask
asked f w v a p = ap (λ r. r.0) p

module _ {h : Host} (w : World h) (df : h.Data) (target : String) (definition : ContractDefinition)
    (run_id : Option String) where
  abbrev pub IsReady : PublicationRun → Type 0
  IsReady = IsClear w df target definition run_id

  publish_run-Cleared :
      (first : PublicationRun) (begun : World h)
      → start_publication_run target definition run_id w ≡ (ok first, begun)
      → Cleared IsReady begun (publish_run df definition first begun).1
  unfolding publish_run
  publish_run-Cleared first begun started_as =
      Quiet-answer IsReady _ _ begun (stage-Steps Quiet-IsKept first definition df)
        λ run ready staged_as.
          Quiet-answer IsReady (ask λ w. h.check w.tick run.staging_fqn w.tables) _ ready
            (Quiet-IsKept.asks _)
            λ results u p.
              Quiet-first IsReady _ _ (Quiet-IsKept.writes _ (λ s. refl))
                (λ _. decide-Cleared IsReady run definition results λ clear. record {
                  first = first;
                  begun = begun;
                  started_as = started_as;
                  ready = ready;
                  staged_as = staged_as;
                  results = results;
                  reported = asked (λ w. h.check w.tick run.staging_fqn w.tables) ready u results p;
                  clear = clear;
                })
                u

  -- Whatever fails on the way, `publish` writes at most one target, once; and if it does, then by the
  -- run that it started and staged itself, and the monitor, asked right behind the staging about the
  -- staging table of that run, had reported no critical failure.
  pub publish-Cleared : Cleared IsReady w (publish df target definition run_id w).1
  unfolding publish
  publish-Cleared =
      Quiet-answer IsReady _ _ w (start-Steps Quiet-IsKept target definition run_id)
        λ first begun started_as. publish_run-Cleared first begun started_as
