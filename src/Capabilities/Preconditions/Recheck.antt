-- ===== src/Capabilities/Preconditions/Recheck.antt =====
-- What `assert_unchanged` asserts.
use skifer.Prelude.{ℕ, String, ◌≡◌, refl, true, eq_iff, List, [], ◌∷◌, map, All, arith, inl, inr}
use skifer.Outcome.{ok}
use skifer.Outcome.Laws.{Result-cases}
use skifer.Time.{DateTime}
use skifer.Json.{Value}
use skifer.Capabilities.Model.{CapabilityDefinition}
use skifer.Capabilities.Preconditions.{
  PreconditionOutcome, PreconditionReport, matches_allow, same_observations,
}
use skifer.Capabilities.Preconditions.Evaluator.{Evaluator, evaluate, assert_unchanged}
use skifer.Capabilities.Preconditions.Verdict.{Allowed, IsVerdict, evaluate-IsVerdict}

-- What a rule saw.
abbrev pub observation : PreconditionOutcome → String × String
observation o = (o.rule, o.observed_state_hash)

same_observations_lem :
    (os ps : List PreconditionOutcome)
    → same_observations os ps ≡ true
    → map observation os ≡ map observation ps
unfolding same_observations
same_observations_lem [] [] p = refl
same_observations_lem [] (y ∷ ps) p = ground (arith, p)
same_observations_lem (x ∷ os) [] p = ground (arith, p)
same_observations_lem (x ∷ os) (y ∷ ps) p =
    let rule : x.rule ≡ y.rule = (eq_iff _ _).0 (ground (arith, p)) in
    let hash : x.observed_state_hash ≡ y.observed_state_hash = (eq_iff _ _).0 (ground (arith, p)) in
    let rest = same_observations_lem os ps (ground (arith, p)) in rw (rule, hash, rest) refl

-- A recheck that returns found an ALLOW report of this capability; its own report is a verdict for
-- now, in which every rule allows; and each rule saw the same state as before, rule by rule.
pub assert_unchanged-IsVerdict :
    (e : Evaluator) (tick : ℕ) (at : DateTime) (d : CapabilityDefinition) (arguments state : Value)
    (report current : PreconditionReport)
    → assert_unchanged e tick at d arguments state report ≡ ok current
    → (matches_allow d report ≡ true)
      × IsVerdict d at current
      × All Allowed current.outcomes
      × (map observation report.outcomes ≡ map observation current.outcomes)
unfolding assert_unchanged
assert_unchanged-IsVerdict e tick at d arguments state report current p =
    elim (Result-cases (evaluate e tick at d arguments state)) [
      | inl x ↦
          let same : x.0 ≡ current = ground (arith, p, x.1) in
          let v : IsVerdict d at current =
            evaluate-IsVerdict e tick at d arguments state current (ground (arith, p, x.1)) in
          (
            ground (arith, p, x.1),
            v,
            v.allows.0 (ground (arith, p, x.1)),
            same_observations_lem report.outcomes current.outcomes (ground (arith, p, x.1)),
          )
      | inr x ↦ ground (arith, p, x.1)
    ]
