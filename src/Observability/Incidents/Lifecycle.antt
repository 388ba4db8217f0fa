-- ===== src/Observability/Incidents/Lifecycle.antt =====
-- The life of an incident: `Incident.transition`, over any sequence of calls.
use skifer.Prelude.{String, ◌≡◌, refl, Option, none, List, [], ◌∷◌, arith, is_some, inl, inr}
use skifer.Outcome.{incident_transition_error, ok, err}
use skifer.Outcome.Laws.{Result-cases}
use skifer.Time.{DateTime}
use skifer.Observability.Incidents.{
  IncidentStatus, new, resolved, Incident, allowed, is_resolved, transition,
}

-- The arguments of one call.
pub record Move : Type 0 where
  pub new_status : IncidentStatus
  pub now : DateTime
  pub assignee : Option String
  pub root_cause : Option String

-- What a caller holds after the calls: the incident that the last successful one returned.
unfoldable pub after : Incident → List Move → Incident
unfolding transition
after i [] = i
after i (m ∷ ms) = elim (transition i m.new_status m.now m.assignee m.root_cause) [
  | ok j ↦ after j ms
  | err e ↦ after i ms
]

-- It is the same incident, and it has a time of resolution exactly where it is resolved.
pub record IsLife (first last : Incident) : Type 0 where
  pub same_id : last.id ≡ first.id
  pub same_target : last.target_fqn ≡ first.target_fqn
  pub same_run : last.run_id ≡ first.run_id
  pub same_check : last.check_name ≡ first.check_name
  pub same_severity : last.severity ≡ first.severity
  pub same_opening : last.opened_at ≡ first.opened_at
  pub stamped : is_some last.resolved_at ≡ is_resolved last.status

transition-IsLife :
    (first i j : Incident) (m : Move)
    → IsLife first i
    → transition i m.new_status m.now m.assignee m.root_cause ≡ ok j
    → IsLife first j
unfolding transition allowed
transition-IsLife first i j m l p = ground arith

after-IsLife : (first i : Incident) (ms : List Move) → IsLife first i → IsLife first (after i ms)
unfolding after
after-IsLife first i [] l = l
after-IsLife first i (m ∷ ms) l =
    elim (Result-cases (transition i m.new_status m.now m.assignee m.root_cause)) [
      | inl (j, p) ↦ rw (p, after) (after-IsLife first j ms (transition-IsLife first i j m l p))
      | inr (e, p) ↦ rw (p, after) (after-IsLife first i ms l)
    ]

fresh-IsLife : (i : Incident) → i.status ≡ new → i.resolved_at ≡ none → IsLife i i
fresh-IsLife i p q = ground arith

resolved-refused :
    (i : Incident) (m : Move)
    → i.status ≡ resolved
    → transition i m.new_status m.now m.assignee m.root_cause ≡ err incident_transition_error
unfolding transition allowed
resolved-refused i m p = ground arith

resolved-stays : (i : Incident) (ms : List Move) → i.status ≡ resolved → after i ms ≡ i
unfolding after
resolved-stays i [] p = refl
resolved-stays i (m ∷ ms) p = rw (resolved-refused i m p, after) (resolved-stays i ms p)

-- Whatever calls of `transition` are made on a new incident, refused ones included: its identity,
-- target, run, check, severity and opening stay, and it has a time of resolution exactly where its
-- status is RESOLVED; and from a resolved incident, no call changes anything.
pub after-IsKept :
    (i : Incident) (before later : List Move)
    → i.status ≡ new
    → i.resolved_at ≡ none
    → IsLife i (after i before)
      × ((after i before).status ≡ resolved → after (after i before) later ≡ after i before)
after-IsKept i before later p q =
    (after-IsLife i i before (fresh-IsLife i p q), λ r. resolved-stays (after i before) later r)
