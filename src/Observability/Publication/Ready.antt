-- ===== src/Observability/Publication/Ready.antt =====
-- A failed promotion leaves a run that can be promoted.
use skifer.Prelude.{
  ℕ, String, ◌≡◌, ◌⊎◌, inl, inr, refl, sym, ap, ◌∙◌, subst, false, none, some, Bool-cases,
  Option-cases,
}
use skifer.Outcome.Action.{◌>>=◌, give, read}
use skifer.Outcome.Action.Steps.{Ensures, bind-Ensures}
use skifer.Observability.Journal.{
  ContractDefinition, staged, promoting, promoted, RunEvent, get_run, same_state, has_event, blocks,
  get_check_results,
}
use skifer.Observability.Journal.Latest.{get_run-new, append-known, has_event-other}
use skifer.Observability.Publication.{Store, Host, World, PublicationRun}
use skifer.Observability.Publication.Effects.{
  event_of, appended, write_store, ask, write_table, drop_staging, record_state,
}
use skifer.Observability.Publication.Promote.{
  finish, publish_table, promote_checked, promote_in, promote_from, promote_staging,
}

-- The run is staged, or its promotion has begun and is not recorded as done.
pub record IsUnfinished (run : String) (s : Store) : Type 0 where
  pub latest : RunEvent
  pub is_latest : get_run run s.runs ≡ some latest
  pub in_progress : (latest.state ≡ staged) ⊎ (latest.state ≡ promoting)
  pub not_done : has_event run promoted s.runs ≡ false
  pub unblocked : blocks (get_check_results run s.checks) ≡ false

pub record IsDone (run : String) (s : Store) : Type 0 where
  pub latest : RunEvent
  pub is_latest : get_run run s.runs ≡ some latest
  pub done : latest.state ≡ promoted

abbrev pub IsReady : String → Store → Type 0
IsReady run s = IsUnfinished run s ⊎ IsDone run s

pub promoting-IsUnfinished :
    (p : PublicationRun) (definition : ContractDefinition) (now : ℕ) (s : Store)
    → IsUnfinished p.run_id s
    → IsUnfinished p.run_id (appended p promoting definition none now s)
unfolding appended event_of same_state
promoting-IsUnfinished p definition now s u =
    let e = event_of p promoting definition none now s.runs in
    elim (Bool-cases (has_event p.run_id promoting s.runs)) [
      | inl known ↦
          let same = append-known s.runs e known in
          record {
            latest = u.latest;
            is_latest = ap (get_run p.run_id) same ∙ u.is_latest;
            in_progress = u.in_progress;
            not_done = ap (has_event p.run_id promoted) same ∙ u.not_done;
            unblocked = u.unblocked;
          }
      | inr unknown ↦ record {
        latest = e;
        is_latest = get_run-new s.runs e now unknown refl;
        in_progress = inr refl;
        not_done = has_event-other p.run_id promoted s.runs e refl u.not_done;
        unblocked = u.unblocked;
      }
    ]

pub promoted-IsDone :
    (p : PublicationRun) (definition : ContractDefinition) (now : ℕ) (s : Store)
    → IsUnfinished p.run_id s
    → IsDone p.run_id (appended p promoted definition none now s)
unfolding appended event_of
promoted-IsDone p definition now s u = record {
  latest = event_of p promoted definition none now s.runs;
  is_latest =
      get_run-new s.runs (event_of p promoted definition none now s.runs) now u.not_done refl;
  done = refl;
}

module _ {h : Host} (p : PublicationRun) (definition : ContractDefinition) where
  abbrev pub Unfinished : World h → Type 0
  Unfinished w = IsUnfinished p.run_id w.store

  abbrev pub Done : World h → Type 0
  Done w = IsDone p.run_id w.store

  abbrev pub Ready : World h → Type 0
  Ready w = IsReady p.run_id w.store

  store_ensures :
      (Q : Store → Type 0) (f : Store → Store) (w : World h)
      → Q w.store
      → Q (f w.store)
      → Q (write_store f w).1.store
  unfolding write_store
  store_ensures Q f w before after = elim (Option-cases (h.fault w.tick)) [
    | inl calm ↦ rw calm after
    | inr (e, faulty) ↦ rw faulty before
  ]

  finish-Ready : Ensures Ready Ready (finish p)
  unfolding finish drop_staging give
  finish-Ready = bind-Ensures Ready Ready Ready _ _ (λ w r. r) (λ w r. r) (λ _. give_ensures)
    where
      give_ensures : Ensures Ready Ready (give {W = World h} (record p { state = promoted }))
      give_ensures w r = r

  publish_table-Ready : Ensures Unfinished Ready (publish_table p definition)
  unfolding publish_table record_state ask write_table
  publish_table-Ready =
      bind-Ensures Unfinished Unfinished Ready _ _ (λ w u. inl u)
        (λ w u.
          store_ensures (IsUnfinished p.run_id) _ w u
            (promoting-IsUnfinished p definition (h.clock w.tick).instant w.store u))
        λ _.
          bind-Ensures Unfinished Unfinished Ready _ _ (λ w u. inl u) (λ w u. u)
            λ d.
              bind-Ensures Unfinished Unfinished Ready _ _ (λ w u. inl u) (λ w u. u)
                λ _.
                  bind-Ensures Unfinished Ready Ready _ _ (λ w r. r)
                    (λ w u.
                      store_ensures (IsReady p.run_id) _ w (inl u)
                        (inr (promoted-IsDone p definition (h.clock w.tick).instant w.store u)))
                    λ _. finish-Ready

  -- The way that a promotion of an unfinished run takes.
  pub Unfinished-way :
      (w : World h) → Unfinished w → promote_staging p definition w ≡ publish_table p definition w
  unfolding promote_staging promote_from promote_in promote_checked read ◌>>=◌
  Unfinished-way w u = rw u.is_latest (elim u.in_progress [
    | inl q ↦ rw q (rw u.unblocked refl)
    | inr q ↦ rw q (rw u.unblocked refl)
  ])

  pub Done-way : (w : World h) → Done w → promote_staging p definition w ≡ finish p w
  unfolding promote_staging promote_from promote_in read ◌>>=◌
  Done-way w d = rw d.is_latest (rw d.done refl)

  pub promote-Ready : Ensures Ready Ready (promote_staging p definition)
  promote-Ready w (inl u) =
      subst (λ r. Ready r.1) (sym (Unfinished-way w u)) (publish_table-Ready w u)
  promote-Ready w (inr d) = subst (λ r. Ready r.1) (sym (Done-way w d)) (finish-Ready w (inr d))
