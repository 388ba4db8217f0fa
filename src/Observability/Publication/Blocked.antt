-- ===== src/Observability/Publication/Blocked.antt =====
-- A run that was quarantined stays so.
use skifer.Prelude.{
  ℕ, String, ◌≡◌, ◌⊎◌, inl, inr, refl, sym, ◌∙◌, subst, true, false, ◌==◌, eq_iff, some, List,
  Bool-cases,
}
use skifer.Observability.Journal.{
  RunState, started, staging, staged, promoting, promoted, quarantined, check_error, RunEvent,
  get_run, has_event, append_run_event, next_run_event_time,
}
use skifer.Observability.Journal.Latest.{get_run-other, get_run-new, append-known, has_event-kept}
use skifer.Observability.Publication.Kept.{is_quiet}

-- The latest event of the run is QUARANTINED or CHECK_ERROR, behind its start and its staging.
pub record IsBlocked (run : String) (rows : List RunEvent) : Type 0 where
  pub latest : RunEvent
  pub is_latest : get_run run rows ≡ some latest
  pub halted : (latest.state ≡ quarantined) ⊎ (latest.state ≡ check_error)
  pub was_started : has_event run started rows ≡ true
  pub was_staging : has_event run staging rows ≡ true
  pub was_staged : has_event run staged rows ≡ true

Halts : RunState → Type 0
Halts s = (s ≡ quarantined) ⊎ (s ≡ check_error)

quiet_cases :
    (run : String) (rows : List RunEvent) (s : RunState)
    → is_quiet s ≡ true
    → IsBlocked run rows
    → (has_event run s rows ≡ true) ⊎ Halts s
unfolding Halts
quiet_cases run rows started q b = inl b.was_started
quiet_cases run rows staging q b = inl b.was_staging
quiet_cases run rows staged q b = inl b.was_staged
quiet_cases run rows promoting q b = cc
quiet_cases run rows promoted q b = cc
quiet_cases run rows quarantined q b = inr (inl refl)
quiet_cases run rows check_error q b = inr (inr refl)

own-IsBlocked :
    (rows : List RunEvent) (e : RunEvent) (now : ℕ)
    → e.occurred_at ≡ next_run_event_time rows e.run_id now
    → is_quiet e.state ≡ true
    → IsBlocked e.run_id rows
    → IsBlocked e.run_id (append_run_event e rows)
unfolding Halts
own-IsBlocked rows e now timed quiet b = elim (Bool-cases (has_event e.run_id e.state rows)) [
  | inl known ↦ subst (IsBlocked e.run_id) (sym (append-known rows e known)) b
  | inr unknown ↦ elim (quiet_cases e.run_id rows e.state quiet b) [
    | inl known ↦ cc
    | inr halted ↦ record {
      latest = e;
      is_latest = get_run-new rows e now unknown timed;
      halted = halted;
      was_started = has_event-kept e.run_id started rows e b.was_started;
      was_staging = has_event-kept e.run_id staging rows e b.was_staging;
      was_staged = has_event-kept e.run_id staged rows e b.was_staged;
    }
  ]
]

other-IsBlocked :
    (run : String) (rows : List RunEvent) (e : RunEvent)
    → (e.run_id == run) ≡ false
    → IsBlocked run rows
    → IsBlocked run (append_run_event e rows)
other-IsBlocked run rows e other b = record {
  latest = b.latest;
  is_latest = get_run-other run rows e other ∙ b.is_latest;
  halted = b.halted;
  was_started = has_event-kept run started rows e b.was_started;
  was_staging = has_event-kept run staging rows e b.was_staging;
  was_staged = has_event-kept run staged rows e b.was_staged;
}

pub append-IsBlocked :
    (run : String) (rows : List RunEvent) (e : RunEvent) (now : ℕ)
    → e.occurred_at ≡ next_run_event_time rows e.run_id now
    → (is_quiet e.state ≡ true) ⊎ ((e.run_id == run) ≡ false)
    → IsBlocked run rows
    → IsBlocked run (append_run_event e rows)
append-IsBlocked run rows e now timed (inr other) b = other-IsBlocked run rows e other b
append-IsBlocked run rows e now timed (inl quiet) b = elim (Bool-cases (e.run_id == run)) [
  | inr other ↦ other-IsBlocked run rows e other b
  | inl same ↦
      let p = (eq_iff e.run_id run).0 same in
      subst (λ r. IsBlocked r (append_run_event e rows)) p
        (own-IsBlocked rows e now timed quiet (subst (λ r. IsBlocked r rows) (sym p) b))
]
