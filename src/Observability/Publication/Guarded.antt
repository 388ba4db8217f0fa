-- ===== src/Observability/Publication/Guarded.antt =====
-- A target table is written only where nothing critical failed.
use skifer.Prelude.{
  String, ◌≡◌, ◌⊎◌, inl, inr, refl, ap, subst, ◌∙◌, false, Option, none, some, List, [], ◌∷◌,
  Bool-cases, Option-cases,
}
use skifer.Outcome.{Error}
use skifer.Outcome.Action.{◌>>=◌, throw, read, answer}
use skifer.Outcome.Action.Steps.{Steps, IsOrder, bind-Steps, give-Steps, bind_cases}
use skifer.Observability.Journal.{
  ContractDefinition, RunState, started, staging, staged, quarantined, check_error, promoting,
  promoted, RunEvent, get_run, get_check_results, blocks,
}
use skifer.Observability.Publication.{
  Store, Host, World, Call, wrote_staging, wrote_table, dropped_staging, PublicationRun,
}
use skifer.Observability.Publication.Effects.{
  M, write_store, ask, write_staging, write_table, drop_staging, record_state, unless_fault,
}
use skifer.Observability.Publication.Promote.{
  finish, publish_table, promote_checked, promote_in, promote_from, promote_staging,
}
use skifer.Observability.Publication.Kept.{IsKept}

-- The targets that were written, each with the run that wrote it.
unfoldable pub targets_written : List Call → List (String × String)
targets_written [] = []
targets_written (wrote_table run target ∷ cs) = (run, target) ∷ targets_written cs
targets_written (wrote_staging fqn ∷ cs) = targets_written cs
targets_written (dropped_staging fqn ∷ cs) = targets_written cs

module _ {h : Host} where
  abbrev pub written : World h → List (String × String)
  written w = targets_written w.calls

  -- No target table is written.
  abbrev pub Quiet : World h → World h → Type 0
  Quiet w v = written v ≡ written w

  Quiet-IsOrder : IsOrder Quiet
  Quiet-IsOrder = record { stay = λ w. refl; join = λ u v w p q. q ∙ p }

  write_store-Quiet : (f : Store → Store) → Steps Quiet (write_store f)
  unfolding write_store
  write_store-Quiet f w = go (h.fault w.tick)
    where
      go : (o : Option Error) → written (unless_fault o f w).1 ≡ written w
      go none = refl
      go (some e) = refl

  pub Quiet-IsKept : IsKept Quiet
  unfolding ask answer write_staging drop_staging record_state targets_written
  Quiet-IsKept = record {
    order = Quiet-IsOrder;
    asks = λ f w. refl;
    answers = λ f w. refl;
    writes = λ f same. write_store-Quiet f;
    stages = λ d fqn w. refl;
    drops = λ fqn w. refl;
    records = λ run state definition quarantine quiet w. write_store-Quiet _ w;
  }

  -- At most the target of this run is written, once.
  abbrev pub Once : PublicationRun → World h → World h → Type 0
  Once run w v = Quiet w v ⊎ (written v ≡ (run.run_id, run.target_fqn) ∷ written w)

  write_table-Once : (run : PublicationRun) (d : h.Data) → Steps (Once run) (write_table run d)
  unfolding write_table targets_written
  write_table-Once run d w = inr refl

  -- Quiet actions before and behind.
  Quiet-then :
      {A B : Type 0} (run : PublicationRun) (first : M h A) (next : A → M h B)
      → Steps Quiet first
      → ((a : A) → Steps (Once run) (next a))
      → Steps (Once run) (first >>= next)
  Quiet-then run first next quiet steps w =
      bind_cases first next w (λ r. Once run w r.1)
        (λ a v p. resume_once v (next a v).1 (subst (λ r. Quiet w r.1) p (quiet w)) (steps a v))
        (λ e v p. inl (subst (λ r. Quiet w r.1) p (quiet w)))
    where
      resume_once : (v u : World h) → Quiet w v → Once run v u → Once run w u
      resume_once v u q (inl r) = inl (r ∙ q)
      resume_once v u q (inr r) = inr (r ∙ ap (λ x. (run.run_id, run.target_fqn) ∷ x) q)

  then-Quiet :
      {A B : Type 0} (run : PublicationRun) (first : M h A) (next : A → M h B)
      → Steps (Once run) first
      → ((a : A) → Steps Quiet (next a))
      → Steps (Once run) (first >>= next)
  then-Quiet run first next once steps w =
      bind_cases first next w (λ r. Once run w r.1)
        (λ a v p. settle v (next a v).1 (subst (λ r. Once run w r.1) p (once w)) (steps a v))
        (λ e v p. subst (λ r. Once run w r.1) p (once w))
    where
      settle : (v u : World h) → Once run w v → Quiet v u → Once run w u
      settle v u (inl q) r = inl (r ∙ q)
      settle v u (inr q) r = inr (r ∙ q)

  record_state-Quiet :
      (run : PublicationRun) (state : RunState) (definition : ContractDefinition)
      (quarantine : Option String)
      → Steps Quiet (record_state run state definition quarantine)
  unfolding record_state
  record_state-Quiet run state definition quarantine w = write_store-Quiet _ w

  finish-Quiet : (run : PublicationRun) → Steps Quiet (finish run)
  unfolding finish
  finish-Quiet run =
      bind-Steps Quiet-IsOrder _ _ (Quiet-IsKept.drops run.staging_fqn)
        λ _. give-Steps Quiet-IsOrder _

  publish_table-Once :
      (run : PublicationRun) (definition : ContractDefinition)
      → Steps (Once run) (publish_table run definition)
  unfolding publish_table
  publish_table-Once run definition =
      Quiet-then run _ _ (record_state-Quiet run promoting definition none) λ _.
        Quiet-then run _ _ (Quiet-IsKept.asks _) λ d.
          then-Quiet run _ _ (write_table-Once run d) λ _.
            bind-Steps Quiet-IsOrder _ _ (record_state-Quiet run promoted definition none)
              λ _. finish-Quiet run

  -- The run is staged, or was being promoted, and nothing critical is recorded as failed.
  pub record MayPromote (run : PublicationRun) (w : World h) : Type 0 where
    pub latest : RunEvent
    pub is_latest : get_run run.run_id w.store.runs ≡ some latest
    pub in_progress : (latest.state ≡ staged) ⊎ (latest.state ≡ promoting)
    pub unblocked : blocks (get_check_results run.run_id w.store.checks) ≡ false

  abbrev pub Guarded : PublicationRun → World h → World h → Type 0
  Guarded run w v =
      Quiet w v ⊎ (MayPromote run w × (written v ≡ (run.run_id, run.target_fqn) ∷ written w))

  promote_checked-Guarded :
      (run : PublicationRun) (definition : ContractDefinition) (w : World h) (e : RunEvent)
      → get_run run.run_id w.store.runs ≡ some e
      → (e.state ≡ staged) ⊎ (e.state ≡ promoting)
      → Guarded run w
          (promote_checked run definition (get_check_results run.run_id w.store.checks) w).1
  unfolding promote_checked throw
  promote_checked-Guarded run definition w e p s =
      elim (Bool-cases (blocks (get_check_results run.run_id w.store.checks))) [
        | inl blocked ↦ rw blocked (inl refl)
        | inr unblocked ↦ rw unblocked (elim (publish_table-Once run definition w) [
          | inl q ↦ inl q
          | inr q ↦
              inr (record { latest = e; is_latest = p; in_progress = s; unblocked = unblocked }, q)
        ])
      ]

  promote_in-Guarded :
      (run : PublicationRun) (definition : ContractDefinition) (w : World h) (e : RunEvent)
      → get_run run.run_id w.store.runs ≡ some e
      → (s : RunState) → e.state ≡ s
      → Guarded run w (promote_in run definition s w).1
  unfolding promote_in throw read ◌>>=◌
  promote_in-Guarded run definition w e p promoted q = inl (finish-Quiet run w)
  promote_in-Guarded run definition w e p staged q =
      promote_checked-Guarded run definition w e p (inl q)
  promote_in-Guarded run definition w e p promoting q =
      promote_checked-Guarded run definition w e p (inr q)
  promote_in-Guarded run definition w e p started q = inl refl
  promote_in-Guarded run definition w e p staging q = inl refl
  promote_in-Guarded run definition w e p quarantined q = inl refl
  promote_in-Guarded run definition w e p check_error q = inl refl

  -- `promote_staging` writes no table; or it writes one, once, the target of its run, and then the
  -- run may be promoted: its latest event is STAGED or PROMOTING, and no critical result recorded for
  -- it is FAIL or ERROR.
  pub promote_staging-Guarded :
      (run : PublicationRun) (definition : ContractDefinition) (w : World h)
      → Guarded run w (promote_staging run definition w).1
  unfolding promote_staging promote_from ◌>>=◌ read throw
  promote_staging-Guarded run definition w = elim (Option-cases (get_run run.run_id w.store.runs)) [
    | inl missing ↦ rw missing (inl refl)
    | inr (e, p) ↦ rw p (promote_in-Guarded run definition w e p e.state refl)
  ]
