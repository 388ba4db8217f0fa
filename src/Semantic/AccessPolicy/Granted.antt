-- ===== src/Semantic/AccessPolicy/Granted.antt =====
-- A consumer who has a reason to read is allowed to.
use skifer.Prelude.{
  ℕ, ◌+◌, ◌≤◌, String, ◌≡◌, refl, sym, ap, ◌∙◌, ◌↔◌, Bool, true, false, not, Option, none, some,
  List, [], ◌∷◌, All, elem, ◌==◌, arith, if◌then◌else◌, subst,
}
use skifer.Outcome.{Result, ok, value_error, require, refuse, ◌>>=◌, ◌>>◌}
use skifer.Time.{DateTime}
use skifer.Semantic.AccessPolicy.{
  allow_read, ConsumerContext, PolicyEvaluation, CertificationOverride, Certification,
  PolicyLibrary, validate_override, is_old, reason_for, with_reason, bad_reasons, evaluation,
  policy_modes, judged, evaluate_mode, overridden, evaluate_with, evaluate,
}
use skifer.Outcome.Laws.{require_ok}
use skifer.Semantic.AccessPolicy.Justified.{
  evaluate-IsJustified, IsGranted, IsFresh, IsJustified, by_override, switched_off, all_certified,
}

module _ {A : Type 0} (k : Result A) where
  required : (test : Bool) → test ≡ true → (require test value_error >> k) ≡ k
  required true h = refl
  required false h = cc

  refused : (test : Bool) → test ≡ false → (refuse test value_error >> k) ≡ k
  refused false h = refl
  refused true h = cc

last_refused : (test : Bool) → test ≡ false → refuse test value_error ≡ ok tt
last_refused false h = refl
last_refused true h = cc

validated :
    (lib : PolicyLibrary) (o : CertificationOverride) (now : DateTime) (context : ConsumerContext)
    → IsGranted lib o now context
    → validate_override lib o now context ≡ ok tt
unfolding validate_override
validated lib o now context g =
    required _ _ g.scope_held
    ∙ refused _ _ g.reason_given
    ∙ refused _ _ g.actor_given
    ∙ refused _ _ g.trace_given
    ∙ required _ _ g.own_actor
    ∙ required _ _ g.end_aware
    ∙ refused _ _ (ground (arith, g.not_ended))
    ∙ last_refused _ (ground (arith, g.soon_ended))

young_enough :
    (now : DateTime) (limit : Option ℕ) (given : Option DateTime)
    → ((max_age : ℕ)
        → limit ≡ some max_age
        → (at : DateTime) × (given ≡ some at) × (now.instant ≤ at.instant + max_age))
    → is_old now limit given ≡ false
young_enough now none given h = refl
young_enough now (some n) given h =
    let (at, p, le) = h n refl in ap (is_old now (some n)) p ∙ ground (arith, le)

no_reason_left :
    (a b c : Bool) (x y z : String)
    → a ≡ true
    → b ≡ true
    → c ≡ false
    → (if not a then some x else if not b then some y else if c then some z else none) ≡ none
no_reason_left true true false x y z p q r = refl
no_reason_left true true true x y z p q r = cc
no_reason_left true false c x y z p q r = cc
no_reason_left false b c x y z p q r = cc

nothing_against :
    (now : DateTime) (limit : Option ℕ) (given : Option Certification)
    → IsFresh now limit given
    → reason_for now limit given ≡ none
unfolding reason_for
nothing_against now limit given f =
    ap (reason_for now limit) f.is_given
    ∙ no_reason_left (f.certification.status == "CERTIFIED") f.certification.checks_passed
        (is_old now limit f.certification.certified_at) "MISSING" "FAILED_CHECK" "EXPIRED"
        f.certified f.passed (young_enough now limit f.certification.certified_at f.young)

none_bad :
    (now : DateTime) (limit : Option ℕ) (cs : List (Option Certification))
    → All (IsFresh now limit) cs
    → bad_reasons now limit cs ≡ []
unfolding bad_reasons
none_bad now limit [] fs = refl
none_bad now limit (c ∷ cs) (f, fs) =
    ap (λ r. with_reason r (bad_reasons now limit cs)) (nothing_against now limit c f)
    ∙ none_bad now limit cs fs

module _ (lib : PolicyLibrary) (cs : List (Option Certification)) (context : ConsumerContext)
    (mode : String) (now : DateTime) (max_age : Option String) where
  IsAllowed : Result PolicyEvaluation → Type 0
  IsAllowed r = (e : PolicyEvaluation) × (r ≡ ok e) × (e.decision ≡ allow_read)

  IsAllowed-off :
      (test : Bool) (r : Result PolicyEvaluation)
      → test ≡ true
      → IsAllowed (if test then ok (evaluation now allow_read []) else r)
  unfolding IsAllowed
  IsAllowed-off true r h = (evaluation now allow_read [], refl, refl)
  IsAllowed-off false r h = cc

  IsAllowed-checked :
      (test : Bool) (r : Result PolicyEvaluation)
      → r ≡ ok (evaluation now allow_read [])
      → IsAllowed (if test then ok (evaluation now allow_read []) else r)
  unfolding IsAllowed
  IsAllowed-checked true r h = (evaluation now allow_read [], refl, refl)
  IsAllowed-checked false r h = (evaluation now allow_read [], h, refl)

  IsAllowed-over :
      (p o : CertificationOverride)
      → p ≡ o
      → IsGranted lib o now context
      → IsAllowed (overridden lib now context p)
  unfolding overridden IsAllowed
  IsAllowed-over p o same g = (
    evaluation now allow_read ("OVERRIDDEN" ∷ []),
    ap (λ r. r >> ok (evaluation now allow_read ("OVERRIDDEN" ∷ [])))
        (ap (λ q. validate_override lib q now context) same ∙ validated lib o now context g),
    refl,
  )

  IsAllowed-with :
      (override : Option CertificationOverride)
      → IsJustified lib cs context mode now override max_age
      → IsAllowed (evaluate_with lib cs context mode now max_age override)
  unfolding evaluate_with overridden evaluate_mode IsAllowed
  IsAllowed-with none (by_override o given g) = cc
  IsAllowed-with (some p) (switched_off given off) = cc
  IsAllowed-with (some p) (all_certified limit given parsed fs) = cc
  IsAllowed-with none (switched_off given off) = IsAllowed-off (mode == "off") _ off
  IsAllowed-with none (all_certified limit given parsed fs) = IsAllowed-checked (mode == "off") _ (
      ap (λ r. r >>= λ found. ok (judged now mode (bad_reasons now found cs))) parsed
      ∙ ap (λ bad. ok (judged now mode bad)) (none_bad now limit cs fs))
  IsAllowed-with (some p) (by_override o given g) = IsAllowed-over p o (cc) g

  -- `evaluate` allows a read without a warning exactly when the mode is one of the four and the read
  -- has one of three reasons: an override of a consumer who holds the scope, which names that
  -- consumer, has a reason and a trace, and ends within four hours; no override and the mode `off`;
  -- or no override and only datasets that are certified, with their checks passed, and no older than
  -- the limit that was given.
  pub evaluate-IsAllowed :
      (override : Option CertificationOverride)
      → ((e : PolicyEvaluation) × (evaluate lib cs context mode now override max_age ≡ ok e)
          × (e.decision ≡ allow_read))
        ↔ ((elem mode policy_modes ≡ true) × IsJustified lib cs context mode now override max_age)
  unfolding evaluate IsAllowed
  evaluate-IsAllowed override = (
    λ (e, p, allowed). (
      (require_ok (elem mode policy_modes) value_error _ p).0,
      evaluate-IsJustified lib cs context mode now max_age e override p allowed,
    ),
    λ (known, why). subst IsAllowed (sym (required _ _ known)) (IsAllowed-with override why),
  )
