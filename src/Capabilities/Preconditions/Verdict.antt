-- ===== src/Capabilities/Preconditions/Verdict.antt =====
-- What a report of `PreconditionEvaluator` says.
use skifer.Prelude.{
  ℕ, String, ◌≡◌, ◌↔◌, refl, sym, subst, ◌∙◌, ◌==◌, eq_iff, List, [], ◌∷◌, All, arith, inl, inr,
  Option, none, some, Bool-cases,
}
use skifer.Outcome.{interrupted, snapshot_too_large, Result, ok, err}
use skifer.Outcome.Laws.{bind_ok, ok-injective}
use skifer.Time.{DateTime}
use skifer.Json.{Value}
use skifer.Json.Canonical.{canonical_state}
use skifer.Capabilities.Model.{CapabilityDefinition}
use skifer.Capabilities.Preconditions.{
  RuleAnswer, returned, other_object, threw, Rule, find_rule, allow, PreconditionOutcome,
  PreconditionReport, aggregate, make_outcome, make_report, unknown_outcome, report_of, each_rule,
  is_unknown,
}
use skifer.Capabilities.Preconditions.Evaluator.{
  Evaluator, reload, is_empty, checked_outcome, judge, evaluate, evaluate_rule, evaluate_snapshot,
  all_unknown,
}

abbrev pub Allowed : PreconditionOutcome → Type 0
Allowed o = o.decision ≡ allow

-- The verdict on some outcomes is ALLOW exactly if each outcome is ALLOW.
aggregate_allow_iff : (os : List PreconditionOutcome) → (aggregate os ≡ allow) ↔ All Allowed os
unfolding aggregate
aggregate_allow_iff [] = (λ _. tt, λ _. refl)
aggregate_allow_iff (o ∷ os) =
    let rest = aggregate_allow_iff os in
    (λ p. (ground (arith, p), rest.0 (ground (arith, p))), λ q. ground (arith, q.0, rest.1 q.1))

-- One rule's outcome: it names the rule, and was observed at the evaluation's time.
pub record OfRule (rule_name : String) (at : DateTime) (o : PreconditionOutcome) : Type 0 where
  pub same_rule : o.rule ≡ rule_name
  pub same_time : o.observed_at ≡ at

unknown_outcome-OfRule :
    (rule_name reason hash : String) (at : DateTime) (o : PreconditionOutcome)
    → unknown_outcome rule_name reason hash at ≡ ok o
    → OfRule rule_name at o
unfolding unknown_outcome make_outcome
unknown_outcome-OfRule rule_name reason hash at o p = record {
  same_rule = ground (arith, p);
  same_time = ground (arith, p);
}

module _ (e : Evaluator) where
  checked_outcome-OfRule :
      (rule_name hash : String) (at : DateTime) (given o : PreconditionOutcome)
      → given.rule ≡ rule_name
      → checked_outcome e rule_name hash at given ≡ ok o
      → OfRule rule_name at o
  unfolding checked_outcome make_outcome unknown_outcome
  checked_outcome-OfRule rule_name hash at given o r p = record {
    same_rule = ground (arith, p, r);
    same_time = ground (arith, p);
  }

  judge-OfRule :
      (rule_name hash : String) (at : DateTime) (answer : RuleAnswer) (o : PreconditionOutcome)
      → judge e rule_name hash at answer ≡ ok o
      → OfRule rule_name at o
  unfolding judge
  judge-OfRule rule_name hash at (threw interrupted) o p = ground (arith, p)
  judge-OfRule rule_name hash at (threw exc) o p = unknown_outcome-OfRule _ _ _ _ _ p
  judge-OfRule rule_name hash at other_object o p = unknown_outcome-OfRule _ _ _ _ _ p
  judge-OfRule rule_name hash at (returned given) o p =
      elim (Bool-cases (given.rule == rule_name)) [
        | inl q ↦ checked_outcome-OfRule rule_name hash at given o ((eq_iff _ _).0 q) (rw q at p)
        | inr q ↦ unknown_outcome-OfRule _ _ _ _ o (rw q at p)
      ]

  evaluate_rule-OfRule :
      (tick : ℕ) (arguments state : Value) (hash : String) (at : DateTime) (rule_name : String)
      (o : PreconditionOutcome)
      → evaluate_rule e tick arguments state hash at rule_name ≡ ok o
      → OfRule rule_name at o
  unfolding evaluate_rule
  evaluate_rule-OfRule tick arguments state hash at rule_name o p =
      go (find_rule rule_name e.rules) p
    where
      go :
          (found : Option Rule)
          → (elim found [
            | none ↦ unknown_outcome rule_name "rule_not_registered" hash at
            | some rule ↦ judge e rule_name hash at (rule tick arguments state)
          ])
            ≡ ok o
          → OfRule rule_name at o
      go none q = unknown_outcome-OfRule _ _ _ _ _ q
      go (some rule) q = judge-OfRule rule_name hash at _ o q

-- The outcomes are those of these rules, in this order.
abbrev pub Covers : DateTime → List String → List PreconditionOutcome → Type 0
Covers at [] [] = Unit
Covers at (r ∷ rs) (o ∷ os) = OfRule r at o × Covers at rs os
Covers at _ _ = ⊥

each_rule-Covers :
    (at : DateTime) (run : String → Result PreconditionOutcome)
    → ((r : String) (o : PreconditionOutcome) → run r ≡ ok o → OfRule r at o)
    → (rules : List String) (os : List PreconditionOutcome) → each_rule run rules ≡ ok os
    → Covers at rules os
unfolding each_rule
each_rule-Covers at run each [] os p = subst (Covers at []) (ok-injective p) tt
each_rule-Covers at run each (r ∷ rs) os p =
    let a = bind_ok _ _ p in
    let b = bind_ok _ _ a.2 in
    let c : Covers at (r ∷ rs) (a.0 ∷ b.0) =
      (each r a.0 a.1, each_rule-Covers at run each rs b.0 b.1) in
    subst (Covers at (r ∷ rs)) (ok-injective b.2) c

-- A report for a definition at a time.
pub record IsVerdict (d : CapabilityDefinition) (at : DateTime) (r : PreconditionReport)
    : Type 0 where
  pub same_id : r.capability_id ≡ d.id
  pub same_version : r.capability_version ≡ d.version
  pub same_time : r.evaluated_at ≡ at
  pub covers : Covers at d.preconditions r.outcomes
  pub allows : (r.decision ≡ allow) ↔ All Allowed r.outcomes
  pub escalates : r.requires_escalation ≡ is_unknown r.decision

report_of-IsVerdict :
    (d : CapabilityDefinition) (at : DateTime) (os : List PreconditionOutcome)
    (r : PreconditionReport)
    → Covers at d.preconditions os
    → report_of d os at ≡ ok r
    → IsVerdict d at r
unfolding report_of make_report
report_of-IsVerdict d at os r c p =
    let same : os ≡ r.outcomes = ground (arith, p) in
    let verdict : r.decision ≡ aggregate os = ground (arith, p) in
    record {
      same_id = ground (arith, p);
      same_version = ground (arith, p);
      same_time = ground (arith, p);
      covers = subst (Covers at d.preconditions) same c;
      allows = (
        λ x. subst (All Allowed) same ((aggregate_allow_iff os).0 (sym verdict ∙ x)),
        λ y. verdict ∙ (aggregate_allow_iff os).1 (subst (All Allowed) (sym same) y),
      );
      escalates = ground (arith, p);
    }

module _ (e : Evaluator) where
  all_unknown-IsVerdict :
      (d : CapabilityDefinition) (at : DateTime) (reason : String) (r : PreconditionReport)
      → all_unknown e d at reason ≡ ok r
      → IsVerdict d at r
  unfolding all_unknown
  all_unknown-IsVerdict d at reason r p =
      let a = bind_ok _ _ p in
      report_of-IsVerdict d at a.0 r
        (each_rule-Covers at _ (λ n o q. unknown_outcome-OfRule _ _ _ _ o q) d.preconditions a.0
          a.1)
        a.2

  evaluate_snapshot-IsVerdict :
      (tick : ℕ) (d : CapabilityDefinition) (arguments : Value) (at : DateTime)
      (snapshot : Result (Value × String)) (r : PreconditionReport)
      → evaluate_snapshot e tick d arguments at snapshot ≡ ok r
      → IsVerdict d at r
  unfolding evaluate_snapshot reload
  evaluate_snapshot-IsVerdict tick d arguments at (ok snapshot) r p =
      let a = bind_ok _ _ p in
      report_of-IsVerdict d at a.0 r
        (each_rule-Covers at _
          (λ n o q.
            let b =
              bind_ok (reload e snapshot.0) (λ s. evaluate_rule e tick arguments s snapshot.1 at n)
                q in
            evaluate_rule-OfRule e tick arguments b.0 snapshot.1 at n o b.2)
          d.preconditions a.0 a.1)
        a.2
  evaluate_snapshot-IsVerdict tick d arguments at (err snapshot_too_large) r p =
      all_unknown-IsVerdict d at _ r p
  evaluate_snapshot-IsVerdict tick d arguments at (err x) r p = all_unknown-IsVerdict d at _ r p

  -- A report that `evaluate` returns is for this definition at this time: it has one outcome for
  -- each precondition, in the order of the definition, observed at that time; it is ALLOW exactly if
  -- every outcome is; and it asks for an escalation exactly if it is UNKNOWN.
  pub evaluate-IsVerdict :
      (tick : ℕ) (at : DateTime) (d : CapabilityDefinition) (arguments state : Value)
      (r : PreconditionReport)
      → evaluate e tick at d arguments state ≡ ok r
      → IsVerdict d at r
  unfolding evaluate make_report
  evaluate-IsVerdict tick at d arguments state r p = elim (Bool-cases (is_empty d.preconditions)) [
    | inl q ↦
        let none_asked : d.preconditions ≡ [] = ground (arith, q) in
        let nothing : r.outcomes ≡ [] = ground (arith, p, q) in
        let verdict : r.decision ≡ allow = ground (arith, p, q) in
        record {
          same_id = ground (arith, p, q);
          same_version = ground (arith, p, q);
          same_time = ground (arith, p, q);
          covers = rw (none_asked, nothing) tt;
          allows = (λ _. rw nothing tt, λ _. verdict);
          escalates = ground (arith, p, q);
        }
    | inr q ↦
        evaluate_snapshot-IsVerdict tick d arguments at (canonical_state e.lib state) r
          (ground (arith, p, q))
  ]
