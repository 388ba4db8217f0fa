-- ===== src/Observability/Publication/Retried.antt =====
-- A promotion that is tried again succeeds once nothing fails any more.
use skifer.Prelude.{ℕ, zero, suc, ◌+◌, ◌≤◌, ◌≡◌, inl, inr, refl, sym, ap, ◌∙◌, subst, none, arith}
use skifer.Outcome.{ok}
use skifer.Outcome.Action.{give}
use skifer.Outcome.Action.Steps.{bind_returns}
use skifer.Observability.Journal.{ContractDefinition, RunState, promoting, promoted}
use skifer.Observability.Publication.{Host, World, PublicationRun}
use skifer.Observability.Publication.Effects.{
  appended, write_store, ask, write_table, drop_staging, record_state,
}
use skifer.Observability.Publication.Promote.{finish, publish_table, promote_staging}
use skifer.Observability.Publication.Ready.{
  IsUnfinished, IsDone, Ready, Unfinished, Done, promoting-IsUnfinished, promoted-IsDone,
  Unfinished-way, Done-way, promote-Ready,
}

-- From this moment on nothing fails for the run: the store writes, and the backend reads its staging
-- table, writes its target and drops the staging table.
pub record IsCalm (h : Host) (p : PublicationRun) (since : ℕ) : Type 0 where
  pub stores : (n : ℕ) → since ≤ n → h.fault n ≡ none
  pub reads :
      (n : ℕ) (t : h.Tables) → since ≤ n → (d : h.Data) × (h.read_staging n p.staging_fqn t ≡ ok d)
  pub writes :
      (n : ℕ) (d : h.Data) (t : h.Tables) → since ≤ n → (h.write_table n d p.target_fqn t).0 ≡ ok tt
  pub drops : (n : ℕ) (t : h.Tables) → since ≤ n → (h.drop_staging n p.staging_fqn t).0 ≡ ok tt

module _ {h : Host} (p : PublicationRun) (definition : ContractDefinition) where
  -- So many calls of `promote_staging`, each behind what the one before has left.
  unfoldable pub attempts : ℕ → World h → World h
  attempts zero w = w
  attempts (suc n) w = attempts n (promote_staging p definition w).1

  attempts-Ready : (n : ℕ) (w : World h) → Ready p definition w → Ready p definition (attempts n w)
  unfolding attempts
  attempts-Ready zero w r = r
  attempts-Ready (suc n) w r =
      attempts-Ready n (promote_staging p definition w).1 (promote-Ready p definition w r)

  module _ (since : ℕ) (calm : IsCalm h p since) where
    record_returns :
        (state : RunState) (w : World h)
        → since ≤ w.tick
        → (v : World h) × (record_state p state definition none w ≡ (ok tt, v))
          × (since ≤ v.tick)
          × (v.store ≡ appended p state definition none (h.clock w.tick).instant w.store)
    unfolding record_state write_store
    record_returns state w late = rw (calm.stores w.tick late) (
      record w {
        tick = w.tick + 1;
        store = appended p state definition none (h.clock w.tick).instant w.store;
      },
      refl,
      omega (arith, late),
      refl,
    )

    read_returns :
        (w : World h)
        → since ≤ w.tick
        → (d : h.Data) × (v : World h) × (ask (λ w. h.read_staging w.tick p.staging_fqn w.tables) w
            ≡ (ok d, v))
          × (since ≤ v.tick)
          × (v.store ≡ w.store)
    unfolding ask
    read_returns w late =
        let (d, found) = calm.reads w.tick w.tables late in
        (d, record w { tick = w.tick + 1 }, rw found refl, omega (arith, late), refl)

    write_returns :
        (d : h.Data) (w : World h)
        → since ≤ w.tick
        → (v : World h) × (write_table p d w ≡ (ok tt, v)) × (since ≤ v.tick) × (v.store ≡ w.store)
    unfolding write_table
    write_returns d w late = (
      (write_table p d w).1,
      rw (calm.writes w.tick d w.tables late) refl,
      omega (arith, late),
      refl,
    )

    drop_returns :
        (w : World h)
        → since ≤ w.tick
        → drop_staging p.staging_fqn w ≡ (ok tt, (drop_staging p.staging_fqn w).1)
    unfolding drop_staging
    drop_returns w late = rw (calm.drops w.tick w.tables late) refl

    finish_returns :
        (w : World h)
        → since ≤ w.tick
        → (v : World h) × (finish p w ≡ (ok (record p { state = promoted }), v))
          × (v.store ≡ w.store)
    unfolding finish drop_staging give
    finish_returns w late = (
      (drop_staging p.staging_fqn w).1,
      bind_returns (drop_staging p.staging_fqn) (λ _. give (record p { state = promoted })) w
          (drop_staging p.staging_fqn w).1 tt (drop_returns w late),
      refl,
    )

    publish_table_returns :
        (w : World h)
        → since ≤ w.tick
        → Unfinished p definition w
        → (v : World h) × (publish_table p definition w ≡ (ok (record p { state = promoted }), v))
          × Done p definition v
    unfolding publish_table
    publish_table_returns w late u =
        let (w1, e1, late1, s1) = record_returns promoting w late in
        let (d, w2, e2, late2, s2) = read_returns w1 late1 in
        let (w3, e3, late3, s3) = write_returns d w2 late2 in
        let (w4, e4, late4, s4) = record_returns promoted w3 late3 in
        let (w5, e5, s5) = finish_returns w4 late4 in
        let begun = promoting-IsUnfinished p definition (h.clock w.tick).instant w.store u in
        let still = subst (IsUnfinished p.run_id) (sym (s3 ∙ s2 ∙ s1)) begun in
        let ended = promoted-IsDone p definition (h.clock w3.tick).instant w3.store still in
        (
          w5,
          bind_returns _ _ w w1 tt e1
              ∙ bind_returns _ _ w1 w2 d e2
              ∙ bind_returns _ _ w2 w3 tt e3
              ∙ bind_returns _ _ w3 w4 tt e4
              ∙ e5,
          subst (IsDone p.run_id) (sym (s5 ∙ s4)) ended,
        )

    promote_returns :
        (w : World h)
        → since ≤ w.tick
        → Ready p definition w
        → ((promote_staging p definition w).0 ≡ ok (record p { state = promoted }))
          × Done p definition (promote_staging p definition w).1
    promote_returns w late (inl u) =
        let (v, e, done) = publish_table_returns w late u in
        let way = Unfinished-way p definition w u ∙ e in
        (ap (λ r. r.0) way, subst (λ r. Done p definition r.1) (sym way) done)
    promote_returns w late (inr d) =
        let (v, e, same) = finish_returns w late in
        let way = Done-way p definition w d ∙ e in
        (
          ap (λ r. r.0) way,
          subst (λ r. Done p definition r.1) (sym way) (subst (IsDone p.run_id) (sym same) d),
        )

  -- From a run that is staged, or whose promotion has begun or is done, and of which nothing critical is
  -- recorded as failed: after any number of attempts to promote it, wherever they failed, one more
  -- attempt, from whose start on the store and the backend do not fail, returns PROMOTED, and PROMOTED
  -- is the latest event of the run.
  pub attempts_promote :
      (n : ℕ) (w : World h)
      → Ready p definition w
      → IsCalm h p (attempts n w).tick
      → ((promote_staging p definition (attempts n w)).0 ≡ ok (record p { state = promoted }))
        × Done p definition (promote_staging p definition (attempts n w)).1
  attempts_promote n w ready calm =
      promote_returns (attempts n w).tick calm (attempts n w) (omega arith)
        (attempts-Ready n w ready)
