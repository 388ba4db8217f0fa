-- ===== src/Semantic/AccessPolicy/Justified.antt =====
-- Why a consumer may read without a warning.
use skifer.Prelude.{
  ℕ, ◌+◌, ◌≤◌, ◌<◌, String, ◌≡◌, refl, ap, ◌∙◌, Bool, true, false, not, Option, none, some, List,
  [], ◌∷◌, All, ◌≢◌, ◌⊎◌, inl, inr, ltb, leb, elem, ◌==◌, arith, if◌then◌else◌,
}
use skifer.Outcome.{Result, ok, value_error, refuse, ◌>>=◌}
use skifer.Outcome.Laws.{bind_ok, require_ok, refuse_ok, ok-injective}
use skifer.Time.{DateTime, is_aware}
use skifer.Semantic.AccessPolicy.{
  allow_read, ConsumerContext, PolicyEvaluation, CertificationOverride, Certification,
  PolicyLibrary, max_override_window, override_scope, is_blank, validate_override, is_old,
  reason_for, with_reason, bad_reasons, mode_decision, evaluation, policy_modes, judged,
  optional_duration, evaluate_mode, overridden, evaluate_with, evaluate,
}

-- What is asked of an override: the scope, three texts, its own actor, and an end within the window.
pub record IsGranted (lib : PolicyLibrary) (o : CertificationOverride) (now : DateTime)
    (context : ConsumerContext) : Type 0 where
  pub scope_held : elem override_scope context.scopes ≡ true
  pub reason_given : is_blank lib o.reason ≡ false
  pub actor_given : is_blank lib o.actor ≡ false
  pub trace_given : is_blank lib o.trace_id ≡ false
  pub own_actor : (o.actor == context.consumer_id) ≡ true
  pub end_aware : is_aware o.expires_at ≡ true
  pub not_ended : now.instant < o.expires_at.instant
  pub soon_ended : o.expires_at.instant ≤ now.instant + max_override_window

last_refuse : (test : Bool) {u : Unit {0}} → refuse test value_error ≡ ok u → test ≡ false
last_refuse false p = refl
last_refuse true p = cc

granted :
    (lib : PolicyLibrary) (o : CertificationOverride) (now : DateTime) (context : ConsumerContext)
    {u : Unit {0}}
    → validate_override lib o now context ≡ ok u
    → IsGranted lib o now context
unfolding validate_override
granted lib o now context p =
    let (scope, p1) = require_ok _ value_error _ p in
    let (reason, p2) = refuse_ok (is_blank lib o.reason) value_error _ p1 in
    let (actor, p3) = refuse_ok (is_blank lib o.actor) value_error _ p2 in
    let (trace, p4) = refuse_ok (is_blank lib o.trace_id) value_error _ p3 in
    let (own, p5) = require_ok (o.actor == context.consumer_id) value_error _ p4 in
    let (aware, p6) = require_ok (is_aware o.expires_at) value_error _ p5 in
    let (later, p7) = refuse_ok (leb o.expires_at.instant now.instant) value_error _ p6 in
    let soon = last_refuse (ltb (now.instant + max_override_window) o.expires_at.instant) p7 in
    record {
      scope_held = scope;
      reason_given = reason;
      actor_given = actor;
      trace_given = trace;
      own_actor = own;
      end_aware = aware;
      not_ended = ground (arith, later);
      soon_ended = ground (arith, soon);
    }

-- Certified, with its checks passed, and no older than the limit, if there is one.
pub record IsFresh (now : DateTime) (limit : Option ℕ) (given : Option Certification) : Type 0 where
  pub certification : Certification
  pub is_given : given ≡ some certification
  pub certified : (certification.status == "CERTIFIED") ≡ true
  pub passed : certification.checks_passed ≡ true
  pub young :
      (max_age : ℕ)
      → limit ≡ some max_age
      → (at : DateTime) × (certification.certified_at ≡ some at)
        × (now.instant ≤ at.instant + max_age)

old_none :
    (now : DateTime) (limit : Option ℕ) (given : Option DateTime)
    → is_old now limit given ≡ false
    → (max_age : ℕ) → limit ≡ some max_age
    → (at : DateTime) × (given ≡ some at) × (now.instant ≤ at.instant + max_age)
old_none now none given h m q = cc
old_none now (some n) none h m q = cc
old_none now (some n) (some at) h m q = let same : n ≡ m = cc in (at, refl, ground (arith, h, same))

three_tests :
    (a b c : Bool) (x y z : String)
    → (if not a then some x else if not b then some y else if c then some z else none) ≡ none
    → (a ≡ true) × (b ≡ true) × (c ≡ false)
three_tests true true false x y z p = (refl, refl, refl)
three_tests true true true x y z p = cc
three_tests true false c x y z p = cc
three_tests false b c x y z p = cc

fresh :
    (now : DateTime) (limit : Option ℕ) (given : Option Certification)
    → reason_for now limit given ≡ none
    → IsFresh now limit given
unfolding reason_for
fresh now limit none p = cc
fresh now limit (some c) p =
    let (certified, passed, young) =
      three_tests (c.status == "CERTIFIED") c.checks_passed (is_old now limit c.certified_at)
        "MISSING" "FAILED_CHECK" "EXPIRED" p in
    record {
      certification = c;
      is_given = refl;
      certified = certified;
      passed = passed;
      young = old_none now limit c.certified_at young;
    }

no_reason :
    (first : Option String) (rest : List String)
    → with_reason first rest ≡ []
    → (first ≡ none) × (rest ≡ [])
no_reason none rest p = (refl, p)
no_reason (some r) rest p = cc

All-IsFresh :
    (now : DateTime) (limit : Option ℕ) (cs : List (Option Certification))
    → bad_reasons now limit cs ≡ []
    → All (IsFresh now limit) cs
unfolding bad_reasons
All-IsFresh now limit [] p = tt
All-IsFresh now limit (c ∷ cs) p =
    let (here, there) = no_reason (reason_for now limit c) (bad_reasons now limit cs) p in
    (fresh now limit c here, All-IsFresh now limit cs there)

not_allowed : (mode : String) → mode_decision mode ≢ allow_read
not_allowed mode = λ p. ground arith

allowed_reasons :
    (now : DateTime) (mode : String) (reasons : List String)
    → (judged now mode reasons).decision ≡ allow_read
    → reasons ≡ []
allowed_reasons now mode [] p = refl
allowed_reasons now mode (r ∷ rs) p = absurd (not_allowed mode p)

-- Why a read is allowed.
pub data IsJustified (lib : PolicyLibrary) (cs : List (Option Certification))
    (context : ConsumerContext) (mode : String) (now : DateTime)
    (override : Option CertificationOverride) (max_age : Option String) : Type 0 where
  by_override :
      (o : CertificationOverride)
      → override ≡ some o
      → IsGranted lib o now context
      → IsJustified lib cs context mode now override max_age
  switched_off :
      override ≡ none
      → (mode == "off") ≡ true
      → IsJustified lib cs context mode now override max_age
  all_certified :
      (limit : Option ℕ)
      → override ≡ none
      → optional_duration lib max_age ≡ ok limit
      → All (IsFresh now limit) cs
      → IsJustified lib cs context mode now override max_age

module _ (lib : PolicyLibrary) (cs : List (Option Certification)) (context : ConsumerContext)
    (mode : String) (now : DateTime) (max_age : Option String) (e : PolicyEvaluation) where
  checked_why :
      (do limit ← optional_duration lib max_age; ok (judged now mode (bad_reasons now limit cs)))
        ≡ ok e
      → e.decision ≡ allow_read
      → IsJustified lib cs context mode now none max_age
  checked_why p allowed =
      let (limit, parsed, last) =
        bind_ok (optional_duration lib max_age)
          (λ limit. ok (judged now mode (bad_reasons now limit cs))) p in
      let same : judged now mode (bad_reasons now limit cs) ≡ e = ok-injective last in
      all_certified limit refl parsed (
        All-IsFresh now limit cs (
          allowed_reasons now mode (bad_reasons now limit cs)
            (ap (λ v. v.decision) same ∙ allowed)))

  off_or_checked :
      (r : Result PolicyEvaluation) (test : Bool)
      → (if test then ok (evaluation now allow_read []) else r) ≡ ok e
      → (test ≡ true) ⊎ (r ≡ ok e)
  off_or_checked r true p = inl refl
  off_or_checked r false p = inr p

  mode_why :
      evaluate_mode lib cs mode now max_age ≡ ok e
      → e.decision ≡ allow_read
      → IsJustified lib cs context mode now none max_age
  unfolding evaluate_mode
  mode_why p allowed = elim (off_or_checked _ (mode == "off") p) [
    | inl off ↦ switched_off refl off
    | inr checked ↦ checked_why checked allowed
  ]

  with_why :
      (override : Option CertificationOverride)
      → evaluate_with lib cs context mode now max_age override ≡ ok e
      → e.decision ≡ allow_read
      → IsJustified lib cs context mode now override max_age
  unfolding evaluate_with overridden
  with_why none p allowed = mode_why p allowed
  with_why (some o) p allowed = by_override o refl (
      granted lib o now context
        (bind_ok (validate_override lib o now context)
          (λ _. ok (evaluation now allow_read ("OVERRIDDEN" ∷ []))) p).1)

  pub evaluate-IsJustified :
      (override : Option CertificationOverride)
      → evaluate lib cs context mode now override max_age ≡ ok e
      → e.decision ≡ allow_read
      → IsJustified lib cs context mode now override max_age
  unfolding evaluate
  evaluate-IsJustified override p allowed =
      let (known, q) = require_ok (elem mode policy_modes) value_error _ p in
      with_why override q allowed
