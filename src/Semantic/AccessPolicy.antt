-- ===== src/Semantic/AccessPolicy.antt =====
-- access_policy.py: whether a consumer may read what is certified, or not. The log lines are left out.
pub mod Justified
pub mod Timely
pub mod Granted
mod Examples
use skifer.Prelude.{
  ℕ, ◌+◌, ◌*◌, ◌/◌, String, Bool, true, false, not, ◌&&◌, ◌||◌, ◌==◌, Option, none, some, List, [],
  ◌∷◌, ltb, leb, elem, any, if◌then◌else◌,
}
use skifer.Outcome.{value_error, raised, Result, ok, err, require, refuse, ◌>>=◌, ◌>>◌}
use skifer.Time.{DateTime, is_aware, seconds, minutes, hours}

pub data CertificationDecision : Type 0 where
  allow_read warn_read deny_read require_human : CertificationDecision

-- What the policy reads of the context of a consumer.
pub record ConsumerContext : Type 0 where
  pub consumer_id : String
  pub scopes : List String

pub record PolicyEvaluation : Type 0 where
  pub decision : CertificationDecision
  pub reasons : List String
  pub evaluated_at : DateTime

pub record CertificationOverride : Type 0 where
  pub reason : String
  pub actor : String
  pub trace_id : String
  pub expires_at : DateTime

-- What the policy reads of a certification.
pub record Certification : Type 0 where
  pub status : String
  pub checks_passed : Bool
  pub certified_at : Option DateTime

-- `str.strip`; `re.fullmatch(r"(\d+)([hmds])", text)` with `int(group(1))`; `date.fromisoformat`, as
-- the number of days from the origin of the instants.
pub record PolicyLibrary : Type 0 where
  pub strip : String → String
  pub match_duration : String → Option (ℕ × String)
  pub fromisoformat : String → Option ℕ

abbrev pub max_override_window : ℕ
max_override_window = hours 4

abbrev pub override_scope : String
override_scope = "certification_override"

module _ (lib : PolicyLibrary) where
  abbrev is_blank : String → Bool
  is_blank s = lib.strip s == ""

  -- A naive time counts as UTC, so `comparable_now` is the same instant.
  unfoldable pub validate_override :
      CertificationOverride → DateTime → ConsumerContext → Result (Unit {0})
  validate_override o now context = do
    require (elem override_scope context.scopes) value_error
    refuse (is_blank o.reason) value_error
    refuse (is_blank o.actor) value_error
    refuse (is_blank o.trace_id) value_error
    require (o.actor == context.consumer_id) value_error
    require (is_aware o.expires_at) value_error
    refuse (leb o.expires_at.instant now.instant) value_error
    refuse (ltb (now.instant + max_override_window) o.expires_at.instant) value_error

  -- `timedelta(...)`, which overflows behind 999999999 days.
  abbrev timedelta : ℕ → Result ℕ
  timedelta n = if ltb n (hours 24 * 1_000_000_000) then ok n else err (raised "OverflowError")

  duration_of : Option (ℕ × String) → Result ℕ
  duration_of none = err value_error
  duration_of (some (amount, unit)) =
      if unit == "h"
      then timedelta (hours amount)
      else if unit == "m"
      then timedelta (minutes amount)
      else if unit == "d"
      then timedelta (hours (24 * amount))
      else timedelta (seconds amount)

  unfoldable pub parse_duration : String → Result ℕ
  unfolding duration_of
  parse_duration value = duration_of (lib.match_duration (lib.strip value))

  as_date : Option ℕ → Result (Option ℕ)
  as_date none = err value_error
  as_date (some day) = ok (some day)

  unfoldable pub parse_lifecycle_date : Option String → Result (Option ℕ)
  unfolding as_date
  parse_lifecycle_date none = ok none
  parse_lifecycle_date (some value) = as_date (lib.fromisoformat value)

abbrev pub day_of : DateTime → ℕ
day_of now = now.instant / hours 24

abbrev is_before : ℕ → Option ℕ → Bool
is_before today none = false
is_before today (some start) = ltb today start

abbrev is_after : ℕ → Option ℕ → Bool
is_after today none = false
is_after today (some end) = ltb end today

abbrev reason_if : Bool → String → List String → List String
reason_if test reason rest = if test then reason ∷ rest else rest

-- The reasons that make a lifecycle deny.
abbrev is_denying : String → Bool
is_denying reason = reason == "NOT_YET_EFFECTIVE" || reason == "EXPIRED_WINDOW"

unfoldable pub lifecycle_decision : List String → CertificationDecision
lifecycle_decision reasons =
    if any is_denying reasons
    then deny_read
    else if elem "DEPRECATED" reasons
    then warn_read
    else allow_read

unfoldable pub lifecycle_reasons : ℕ → Option ℕ → Option ℕ → String → List String
lifecycle_reasons today start end status = reason_if (is_before today start) "NOT_YET_EFFECTIVE" (
    reason_if (is_after today end) "EXPIRED_WINDOW"
      (reason_if (status == "deprecated") "DEPRECATED" []))

abbrev pub valid_contract_statuses : List String
valid_contract_statuses = "draft" ∷ "active" ∷ "deprecated" ∷ []

unfoldable pub evaluate_lifecycle :
    PolicyLibrary → String → Option String → Option String → DateTime → Result PolicyEvaluation
unfolding lifecycle_decision lifecycle_reasons
evaluate_lifecycle lib status effective_from effective_until now = do
  require (elem (lib.strip status) valid_contract_statuses) value_error
  start ← parse_lifecycle_date lib effective_from
  end ← parse_lifecycle_date lib effective_until
  let reasons = lifecycle_reasons (day_of now) start end (lib.strip status)
  ok (record { decision = lifecycle_decision reasons; reasons = reasons; evaluated_at = now })

-- `comparable_now - certified_at > max_age`
abbrev is_old : DateTime → Option ℕ → Option DateTime → Bool
is_old now none certified_at = false
is_old now (some max_age) none = true
is_old now (some max_age) (some at) = ltb (at.instant + max_age) now.instant

unfoldable pub reason_for : DateTime → Option ℕ → Option Certification → Option String
reason_for now max_age none = some "MISSING"
reason_for now max_age (some c) =
    if not (c.status == "CERTIFIED")
    then some "MISSING"
    else if not c.checks_passed
    then some "FAILED_CHECK"
    else if is_old now max_age c.certified_at
    then some "EXPIRED"
    else none

abbrev with_reason : Option String → List String → List String
with_reason none rest = rest
with_reason (some reason) rest = reason ∷ rest

unfoldable pub bad_reasons : DateTime → Option ℕ → List (Option Certification) → List String
unfolding reason_for
bad_reasons now max_age [] = []
bad_reasons now max_age (c ∷ cs) =
    with_reason (reason_for now max_age c) (bad_reasons now max_age cs)

-- The decision of a mode on what is bad.
abbrev pub mode_decision : String → CertificationDecision
mode_decision mode =
    if mode == "warn" then warn_read else if mode == "enforce" then deny_read else require_human

abbrev pub evaluation : DateTime → CertificationDecision → List String → PolicyEvaluation
evaluation now decision reasons = record {
  decision = decision;
  reasons = reasons;
  evaluated_at = now;
}

abbrev pub policy_modes : List String
policy_modes = "off" ∷ "warn" ∷ "enforce" ∷ "supervised" ∷ []

abbrev judged : DateTime → String → List String → PolicyEvaluation
judged now mode [] = evaluation now allow_read []
judged now mode (r ∷ rs) = evaluation now (mode_decision mode) (r ∷ rs)

module _ (lib : PolicyLibrary) where
  abbrev optional_duration : Option String → Result (Option ℕ)
  optional_duration none = ok none
  optional_duration (some text) = parse_duration lib text >>= λ d. ok (some d)

  -- Without an override.
  unfoldable pub evaluate_mode :
      List (Option Certification) → String → DateTime → Option String → Result PolicyEvaluation
  unfolding bad_reasons
  evaluate_mode certifications mode now max_age =
      let checked = (do
        limit ← optional_duration max_age
        ok (judged now mode (bad_reasons now limit certifications))) in
      if mode == "off" then ok (evaluation now allow_read []) else checked

  overridden : DateTime → ConsumerContext → CertificationOverride → Result PolicyEvaluation
  overridden now context o = do
    validate_override lib o now context
    ok (evaluation now allow_read ("OVERRIDDEN" ∷ []))

  evaluate_with :
      List (Option Certification)
      → ConsumerContext
      → String
      → DateTime
      → Option String
      → Option CertificationOverride
      → Result PolicyEvaluation
  unfolding overridden
  evaluate_with certifications context mode now max_age (some o) = overridden now context o
  evaluate_with certifications context mode now max_age none =
      evaluate_mode certifications mode now max_age

  unfoldable pub evaluate :
      List (Option Certification)
      → ConsumerContext
      → String
      → DateTime
      → Option CertificationOverride
      → Option String
      → Result PolicyEvaluation
  unfolding evaluate_with
  evaluate certifications context mode now override max_age = do
    require (elem mode policy_modes) value_error
    evaluate_with certifications context mode now max_age override
