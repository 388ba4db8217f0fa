-- ===== src/Observability/Publication/Stuck.antt =====
-- What each part of a publication does to a blocked run: it stays blocked, and writes nothing.
use skifer.Prelude.{
  String, ◌≡◌, ◌⊎◌, inl, inr, refl, sym, ◌∙◌, subst, true, false, ◌==◌, eq_iff, Option, none, some,
  List, [], ◌∷◌, Bool-cases, Option-cases, if◌then◌else◌,
}
use skifer.Outcome.{value_error, err}
use skifer.Outcome.Action.{◌>>=◌, throw, read, answer}
use skifer.Outcome.Action.Steps.{Steps, IsOrder, bind-Steps, give-Steps, throw-Steps, read-Steps}
use skifer.Observability.Journal.{
  ContractDefinition, RunState, started, staging, staged, promoting, promoted, quarantined,
  check_error, RunEvent, get_run, blocks, StoredCheckResult,
}
use skifer.Observability.Publication.{
  Store, Host, World, Call, wrote_staging, wrote_table, dropped_staging, PublicationRun,
}
use skifer.Observability.Publication.Effects.{
  event_of, appended, write_store, ask, write_staging, write_table, drop_staging, record_state,
}
use skifer.Observability.Publication.Promote.{
  finish, publish_table, promote_checked, promote_in, promote_from, promote_staging,
}
use skifer.Observability.Publication.Kept.{is_quiet, IsKept}
use skifer.Observability.Publication.Blocked.{IsBlocked, append-IsBlocked}

-- The targets that this run wrote.
unfoldable pub targets_of : String → List Call → List String
targets_of run [] = []
targets_of run (wrote_table by target ∷ cs) =
    let rest = targets_of run cs in if by == run then target ∷ rest else rest
targets_of run (wrote_staging fqn ∷ cs) = targets_of run cs
targets_of run (dropped_staging fqn ∷ cs) = targets_of run cs

module _ {h : Host} (run : String) where
  -- A blocked run stays blocked, and writes nothing.
  pub record Stuck (w v : World h) : Type 0 where
    pub blocked : IsBlocked run v.store.runs
    pub unwritten : targets_of run v.calls ≡ targets_of run w.calls

  abbrev pub Holds : World h → World h → Type 0
  Holds w v = IsBlocked run w.store.runs → Stuck w v

  Holds-IsOrder : IsOrder Holds
  Holds-IsOrder = record {
    stay = λ w b. record { blocked = b; unwritten = refl };
    join = λ u v w p q b.
        let one = p b in
        let two = q one.blocked in
        record { blocked = two.blocked; unwritten = two.unwritten ∙ one.unwritten };
  }

  write_store-Holds :
      (f : Store → Store)
      → ((s : Store) → IsBlocked run s.runs → IsBlocked run (f s).runs)
      → Steps Holds (write_store f)
  unfolding write_store
  write_store-Holds f keeps w b = elim (Option-cases (h.fault w.tick)) [
    | inl calm ↦ rw calm (record { blocked = keeps w.store b; unwritten = refl })
    | inr (e, faulty) ↦ rw faulty (record { blocked = b; unwritten = refl })
  ]

  record_state-Holds :
      (p : PublicationRun) (state : RunState) (definition : ContractDefinition)
      (quarantine : Option String)
      → (is_quiet state ≡ true) ⊎ ((p.run_id == run) ≡ false)
      → Steps Holds (record_state p state definition quarantine)
  unfolding record_state appended event_of
  record_state-Holds p state definition quarantine quiet w =
      write_store-Holds _
        (λ s b. append-IsBlocked run s.runs _ (h.clock w.tick).instant refl quiet b) w

  pub Holds-IsKept : IsKept Holds
  unfolding ask answer write_staging drop_staging targets_of
  Holds-IsKept = record {
    order = Holds-IsOrder;
    asks = λ f w b. record { blocked = b; unwritten = refl };
    answers = λ f w b. record { blocked = b; unwritten = refl };
    writes = λ f same. write_store-Holds f (λ s b. subst (IsBlocked run) (sym (same s)) b);
    stages = λ d fqn w b. record { blocked = b; unwritten = refl };
    drops = λ fqn w b. record { blocked = b; unwritten = refl };
    records = λ p state definition quarantine quiet.
        record_state-Holds p state definition quarantine (inl quiet);
  }

  write_table-Holds :
      (p : PublicationRun) (d : h.Data) → (p.run_id == run) ≡ false → Steps Holds (write_table p d)
  unfolding write_table targets_of
  write_table-Holds p d other w b = record { blocked = b; unwritten = rw other refl }

  finish-Holds : (p : PublicationRun) → Steps Holds (finish p)
  unfolding finish
  finish-Holds p =
      bind-Steps Holds-IsOrder _ _ (Holds-IsKept.drops p.staging_fqn)
        λ _. give-Steps Holds-IsOrder _

  publish_table-Holds :
      (p : PublicationRun) (definition : ContractDefinition)
      → (p.run_id == run) ≡ false
      → Steps Holds (publish_table p definition)
  unfolding publish_table
  publish_table-Holds p definition other =
      bind-Steps Holds-IsOrder _ _ (record_state-Holds p promoting definition none (inr other)) λ _.
        bind-Steps Holds-IsOrder _ _ (Holds-IsKept.asks _) λ d.
          bind-Steps Holds-IsOrder _ _ (write_table-Holds p d other) λ _.
            bind-Steps Holds-IsOrder _ _ (record_state-Holds p promoted definition none (inr other))
              λ _. finish-Holds p

  checked-Holds :
      (p : PublicationRun) (definition : ContractDefinition) (results : List StoredCheckResult)
      → (p.run_id == run) ≡ false
      → Steps Holds (promote_checked p definition results)
  unfolding promote_checked
  checked-Holds p definition results other w = elim (Bool-cases (blocks results)) [
    | inl blocked ↦ rw blocked (throw-Steps Holds-IsOrder PublicationRun value_error w)
    | inr unblocked ↦ rw unblocked (publish_table-Holds p definition other w)
  ]

  in-Holds :
      (p : PublicationRun) (definition : ContractDefinition) (state : RunState)
      → (p.run_id == run) ≡ false
      → Steps Holds (promote_in p definition state)
  unfolding promote_in
  in-Holds p definition promoted other = finish-Holds p
  in-Holds p definition staged other =
      bind-Steps Holds-IsOrder _ _ (read-Steps Holds-IsOrder _)
        λ results. checked-Holds p definition results other
  in-Holds p definition promoting other =
      bind-Steps Holds-IsOrder _ _ (read-Steps Holds-IsOrder _)
        λ results. checked-Holds p definition results other
  in-Holds p definition started other = throw-Steps Holds-IsOrder PublicationRun value_error
  in-Holds p definition staging other = throw-Steps Holds-IsOrder PublicationRun value_error
  in-Holds p definition quarantined other = throw-Steps Holds-IsOrder PublicationRun value_error
  in-Holds p definition check_error other = throw-Steps Holds-IsOrder PublicationRun value_error

  from-Holds :
      (p : PublicationRun) (definition : ContractDefinition) (o : Option RunEvent)
      → (p.run_id == run) ≡ false
      → Steps Holds (promote_from p definition o)
  unfolding promote_from
  from-Holds p definition none other = throw-Steps Holds-IsOrder PublicationRun value_error
  from-Holds p definition (some e) other = in-Holds p definition e.state other

  -- The blocked run itself is refused.
  refused-Holds :
      (p : PublicationRun) (definition : ContractDefinition) (e : RunEvent) (w : World h)
      → (e.state ≡ quarantined) ⊎ (e.state ≡ check_error)
      → promote_from p definition (some e) w ≡ (err value_error, w)
  unfolding promote_from promote_in throw
  refused-Holds p definition e w (inl q) = rw q refl
  refused-Holds p definition e w (inr q) = rw q refl

  pub promote_blocked :
      (p : PublicationRun) (definition : ContractDefinition) (w : World h)
      → IsBlocked run w.store.runs
      → (p.run_id == run) ≡ true
      → promote_staging p definition w ≡ (err value_error, w)
  unfolding promote_staging ◌>>=◌ read
  promote_blocked p definition w b same =
      let found =
        subst (λ r. get_run r w.store.runs ≡ some b.latest) (sym ((eq_iff p.run_id run).0 same))
          b.is_latest in
      rw found (refused-Holds p definition b.latest w b.halted)

  pub promote-Holds :
      (p : PublicationRun) (definition : ContractDefinition)
      → Steps Holds (promote_staging p definition)
  unfolding promote_staging ◌>>=◌ read
  promote-Holds p definition w b = elim (Bool-cases (p.run_id == run)) [
    | inr other ↦ from-Holds p definition (get_run p.run_id w.store.runs) other w b
    | inl same ↦
        subst (λ r. Stuck w r.1) (sym (promote_blocked p definition w b same))
          (record { blocked = b; unwritten = refl })
  ]
