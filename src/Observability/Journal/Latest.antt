-- ===== src/Observability/Journal/Latest.antt =====
-- What an appended event does to the latest event of a run.
use skifer.Prelude.{
  ℕ, String, ◌≡◌, refl, ◌∙◌, Bool, true, false, ◌&&◌, ◌||◌, ◌==◌, eq_refl, inl, inr, Option, none,
  some, List, [], ◌∷◌, ◌++◌, any-append_one, arith, if◌then◌else◌, Bool-cases,
}
use skifer.Observability.Journal.{
  RunState, RunEvent, same_state, is_event, has_event, append_run_event, newer_event, newest_event,
  get_run, next_run_event_time,
}

newest_event-append :
    (test : RunEvent → Bool) (best : Option RunEvent) (rows : List RunEvent) (e : RunEvent)
    → newest_event test best (rows ++ e ∷ []) ≡ (
        if test e then newer_event (newest_event test best rows) e else newest_event test best rows)
unfolding newest_event
newest_event-append test best [] e = refl
newest_event-append test best (r ∷ rows) e = elim (Bool-cases (test r)) [
  | inl passes ↦ rw passes (newest_event-append test (newer_event best r) rows e)
  | inr fails ↦ rw fails (newest_event-append test best rows e)
]

-- An event of another run, or one that is there already, leaves the latest event of a run.
pub get_run-other :
    (run : String) (rows : List RunEvent) (e : RunEvent)
    → (e.run_id == run) ≡ false
    → get_run run (append_run_event e rows) ≡ get_run run rows
unfolding get_run append_run_event
get_run-other run rows e h = elim (Bool-cases (has_event e.run_id e.state rows)) [
  | inl known ↦ rw known refl
  | inr unknown ↦ rw unknown (newest_event-append (λ x. x.run_id == run) none rows e ∙ rw h refl)
]

-- A new event, timed behind the latest one, is the latest.
pub get_run-new :
    (rows : List RunEvent) (e : RunEvent) (now : ℕ)
    → has_event e.run_id e.state rows ≡ false
    → e.occurred_at ≡ next_run_event_time rows e.run_id now
    → get_run e.run_id (append_run_event e rows) ≡ some e
unfolding get_run append_run_event next_run_event_time newer_event
get_run-new rows e now unknown timed = rw unknown (
    newest_event-append (λ x. x.run_id == e.run_id) none rows e
    ∙ rw (eq_refl e.run_id) (later (get_run e.run_id rows) refl))
  where
    later : (o : Option RunEvent) → get_run e.run_id rows ≡ o → newer_event o e ≡ some e
    later none p = refl
    later (some previous) p = ground (arith, timed, p)

has_event-append :
    (run : String) (state : RunState) (rows : List RunEvent) (e : RunEvent)
    → has_event run state (rows ++ e ∷ []) ≡ (has_event run state rows || is_event run state e)
unfolding has_event
has_event-append run state rows e = any-append_one (is_event run state) rows e

-- Rows stay.
pub has_event-kept :
    (run : String) (state : RunState) (rows : List RunEvent) (e : RunEvent)
    → has_event run state rows ≡ true
    → has_event run state (append_run_event e rows) ≡ true
unfolding append_run_event
has_event-kept run state rows e h = ground (arith, has_event-append run state rows e)

same_state_refl : (s : RunState) → same_state s s ≡ true
unfolding same_state
same_state_refl s = ground arith

is_event_refl : (e : RunEvent) → is_event e.run_id e.state e ≡ true
is_event_refl e = rw (eq_refl e.run_id) (same_state_refl e.state)

-- The row is there behind its insertion.
pub has_event-appended :
    (rows : List RunEvent) (e : RunEvent)
    → has_event e.run_id e.state (append_run_event e rows) ≡ true
unfolding append_run_event
has_event-appended rows e =
    ground (arith, has_event-append e.run_id e.state rows e, is_event_refl e)

-- An event that is there already changes nothing.
pub append-known :
    (rows : List RunEvent) (e : RunEvent)
    → has_event e.run_id e.state rows ≡ true
    → append_run_event e rows ≡ rows
unfolding append_run_event
append-known rows e h = rw h refl

neither : (a b c : Bool) → a ≡ false → c ≡ false → (a || b && c) ≡ false
neither a b c h k = ground arith

-- An event of another state is no event of this one.
pub has_event-other :
    (run : String) (state : RunState) (rows : List RunEvent) (e : RunEvent)
    → same_state e.state state ≡ false
    → has_event run state rows ≡ false
    → has_event run state (append_run_event e rows) ≡ false
unfolding append_run_event
has_event-other run state rows e other h = elim (Bool-cases (has_event e.run_id e.state rows)) [
  | inl known ↦ rw known h
  | inr unknown ↦ rw unknown (
      has_event-append run state rows e
      ∙ neither (has_event run state rows) (e.run_id == run) (same_state e.state state) h other)
]
