-- ===== src/Semantic/AccessPolicy/Timely.antt =====
-- What the lifecycle of a contract decides on a day.
use skifer.Prelude.{
  ℕ, ◌<◌, String, ◌≡◌, ◌↔◌, ◌⊎◌, ◌||◌, inl, inr, refl, sym, subst, ap, ◌∙◌, Bool, true, false,
  Option, none, some, [], elem, ◌==◌, Bool-cases, arith, if◌then◌else◌,
}
use skifer.Outcome.{ok, value_error}
use skifer.Outcome.Laws.{bind_ok, require_ok, ok-injective}
use skifer.Time.{DateTime}
use skifer.Semantic.AccessPolicy.{
  CertificationDecision, reason_if, allow_read, warn_read, deny_read, PolicyEvaluation,
  PolicyLibrary, parse_lifecycle_date, day_of, is_before, is_after, lifecycle_decision,
  lifecycle_reasons, valid_contract_statuses, evaluate_lifecycle,
}

-- The day is before the first or after the last day of the contract.
pub IsOutside : ℕ → Option ℕ → Option ℕ → Type 0
IsOutside today start end =
    ((first : ℕ) × (start ≡ some first) × (today < first))
    ⊎ ((last : ℕ) × (end ≡ some last) × (last < today))

before_means :
    (today : ℕ) (start : Option ℕ)
    → is_before today start ≡ true
    → (first : ℕ) × (start ≡ some first) × (today < first)
before_means today none h = cc
before_means today (some first) h = (first, refl, ground (arith, h))

after_means :
    (today : ℕ) (end : Option ℕ)
    → is_after today end ≡ true
    → (last : ℕ) × (end ≡ some last) × (last < today)
after_means today none h = cc
after_means today (some last) h = (last, refl, ground (arith, h))

IsOutside-tests :
    (today : ℕ) (start end : Option ℕ)
    → IsOutside today start end
    → (is_before today start || is_after today end) ≡ true
unfolding IsOutside
IsOutside-tests today start end (inl (first, p, lt)) =
    let before : is_before today start ≡ true = ap (is_before today) p ∙ ground (arith, lt) in
    ground (arith, before)
IsOutside-tests today start end (inr (last, p, lt)) =
    let after : is_after today end ≡ true = ap (is_after today) p ∙ ground (arith, lt) in
    ground (arith, after)

tests-IsOutside :
    (today : ℕ) (start end : Option ℕ)
    → (is_before today start || is_after today end) ≡ true
    → IsOutside today start end
unfolding IsOutside
tests-IsOutside today start end h = elim (Bool-cases (is_before today start)) [
  | inl before ↦ inl (before_means today start before)
  | inr in_time ↦ inr (after_means today end (ground (arith, h, in_time)))
]

not_late : ¬ (false ≡ true)
not_late p = cc

-- A contract is denied outside its days, warned of within them when it is deprecated, and allowed
-- within them otherwise.
pub record IsTimely (deprecated : Bool) (outside : Type 0) (d : CertificationDecision)
    : Type 0 where
  pub denied : (d ≡ deny_read) ↔ outside
  pub warned : (d ≡ warn_read) ↔ ((deprecated ≡ true) × ¬ outside)
  pub allowed : (d ≡ allow_read) ↔ ((deprecated ≡ false) × ¬ outside)

abbrev in_order : Bool → Bool → CertificationDecision
in_order outside deprecated =
    if outside then deny_read else if deprecated then warn_read else allow_read

order_of_reasons :
    (before after deprecated : Bool)
    → lifecycle_decision (
        reason_if before "NOT_YET_EFFECTIVE"
          (reason_if after "EXPIRED_WINDOW" (reason_if deprecated "DEPRECATED" [])))
      ≡ in_order (before || after) deprecated
unfolding lifecycle_decision
order_of_reasons true true true = refl
order_of_reasons true true false = refl
order_of_reasons true false true = refl
order_of_reasons true false false = refl
order_of_reasons false true true = refl
order_of_reasons false true false = refl
order_of_reasons false false true = refl
order_of_reasons false false false = refl

in_order-IsTimely :
    (late deprecated : Bool) (outside : Type 0)
    → (late ≡ true → outside)
    → (outside → late ≡ true)
    → IsTimely deprecated outside (in_order late deprecated)
in_order-IsTimely true d outside f g = record {
  denied = (λ _. f refl, λ _. refl);
  warned = (λ p. cc, λ (_, inside). absurd (inside (f refl)));
  allowed = (λ p. cc, λ (_, inside). absurd (inside (f refl)));
}
in_order-IsTimely false true outside f g = record {
  denied = (λ p. cc, λ out. absurd (not_late (g out)));
  warned = (λ _. (refl, λ out. not_late (g out)), λ _. refl);
  allowed = (λ p. cc, λ (p, _). cc);
}
in_order-IsTimely false false outside f g = record {
  denied = (λ p. cc, λ out. absurd (not_late (g out)));
  warned = (λ p. cc, λ (p, _). cc);
  allowed = (λ _. (refl, λ out. not_late (g out)), λ _. refl);
}

reasons-IsTimely :
    (today : ℕ) (start end : Option ℕ) (status : String)
    → IsTimely
        (status == "deprecated")
        (IsOutside today start end)
        (lifecycle_decision (lifecycle_reasons today start end status))
unfolding lifecycle_reasons
reasons-IsTimely today start end status =
    let late = is_before today start || is_after today end in
    let order =
      order_of_reasons (is_before today start) (is_after today end) (status == "deprecated") in
    subst (IsTimely (status == "deprecated") (IsOutside today start end)) (sym order) (
      in_order-IsTimely late (status == "deprecated") (IsOutside today start end)
        (tests-IsOutside today start end) (IsOutside-tests today start end))

module _ (lib : PolicyLibrary) (status : String) (from until : Option String) (now : DateTime)
    (e : PolicyEvaluation) where
  -- When the lifecycle of a contract is evaluated, its two dates are ones that parse, and it is
  -- denied exactly before the first or after the last of its days, warned of exactly within them
  -- when it is deprecated, and allowed exactly within them when it is not.
  pub evaluate_lifecycle-IsTimely :
      evaluate_lifecycle lib status from until now ≡ ok e
      → (start end : Option ℕ) × (parse_lifecycle_date lib from ≡ ok start)
        × (parse_lifecycle_date lib until ≡ ok end)
        × IsTimely (lib.strip status == "deprecated") (IsOutside (day_of now) start end) e.decision
  unfolding evaluate_lifecycle
  evaluate_lifecycle-IsTimely p =
      let (known, q) =
        require_ok (elem (lib.strip status) valid_contract_statuses) value_error _ p in
      let (start, parsed, r) = bind_ok (parse_lifecycle_date lib from) _ q in
      let (end, parsed_end, last) = bind_ok (parse_lifecycle_date lib until) _ r in
      (
        start,
        end,
        parsed,
        parsed_end,
        subst (IsTimely (lib.strip status == "deprecated") (IsOutside (day_of now) start end))
            (ap (λ v. v.decision) (ok-injective last))
            (reasons-IsTimely (day_of now) start end (lib.strip status)),
      )
