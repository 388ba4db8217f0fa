-- ===== src/Semantic/AccessPolicy/Examples.antt =====
-- An override, certified datasets and a deprecated contract.
use skifer.Prelude.{
  ◌≡◌, ◌↔◌, elem, refl, ◌*◌, ◌+◌, true, Option, none, some, [], ◌∷◌, ℕ, ◌==◌, if◌then◌else◌,
}
use skifer.Outcome.{ok}
use skifer.Time.{DateTime, utc, hours, is_aware}
use skifer.Semantic.AccessPolicy.{
  PolicyEvaluation, policy_modes, allow_read, warn_read, deny_read, ConsumerContext,
  CertificationOverride, Certification, PolicyLibrary, evaluation, parse_lifecycle_date, day_of,
  evaluate_lifecycle, evaluate, validate_override, lifecycle_decision, lifecycle_reasons,
  bad_reasons, evaluate_with, overridden, evaluate_mode, parse_duration, reason_for,
}
use skifer.Semantic.AccessPolicy.Justified.{IsJustified}
use skifer.Semantic.AccessPolicy.Granted.{evaluate-IsAllowed}
use skifer.Semantic.AccessPolicy.Timely.{IsTimely, IsOutside, evaluate_lifecycle-IsTimely}

-- Of the texts that stand below.
abbrev library : PolicyLibrary
library = record {
  strip = λ s. s;
  match_duration = λ s. if s == "24h" then some (24, "h") else none;
  fromisoformat = λ s.
      if s == "2000-01-01" then some 730119 else if s == "2000-12-31" then some 730484 else none;
}

-- Noon of a day in the year 2000.
abbrev noon : DateTime
noon = record { instant = hours (730200 * 24 + 12); zone = utc }

abbrev hours_after : ℕ → DateTime
hours_after n = record { instant = hours (730200 * 24 + 12 + n); zone = utc }

abbrev consumer : ConsumerContext
consumer = record { consumer_id = "report"; scopes = "certification_override" ∷ [] }

abbrev exception : CertificationOverride
exception = record {
  reason = "month end";
  actor = "report";
  trace_id = "trace";
  expires_at = hours_after 2;
}

abbrev certified : Certification
certified = record {
  status = "CERTIFIED";
  checks_passed = true;
  certified_at = some (record { instant = hours (730200 * 24); zone = utc });
}

fresh_read :
    evaluate library (some certified ∷ []) consumer "enforce" noon none (some "24h")
    ≡ ok (evaluation noon allow_read [])
unfolding evaluate evaluate_with evaluate_mode bad_reasons reason_for parse_duration
fresh_read = refl

evaluate-IsAllowed_example :
    ((e : PolicyEvaluation) × (evaluate library
          (some certified ∷ [])
          consumer
          "enforce"
          noon
          none
          (some "24h")
        ≡ ok e)
      × (e.decision ≡ allow_read))
    ↔ ((elem "enforce" policy_modes ≡ true)
        × IsJustified library (some certified ∷ []) consumer "enforce" noon none (some "24h"))
evaluate-IsAllowed_example =
    evaluate-IsAllowed library (some certified ∷ []) consumer "enforce" noon (some "24h") none

old_read :
    evaluate library
      (some certified ∷ none ∷ [])
      consumer
      "enforce"
      (hours_after 20)
      none
      (some "24h")
    ≡ ok (evaluation (hours_after 20) deny_read ("EXPIRED" ∷ "MISSING" ∷ []))
unfolding evaluate evaluate_with evaluate_mode bad_reasons reason_for parse_duration
old_read = refl

overridden_read :
    evaluate library (none ∷ []) consumer "enforce" noon (some exception) none
    ≡ ok (evaluation noon allow_read ("OVERRIDDEN" ∷ []))
unfolding evaluate evaluate_with overridden validate_override is_aware
overridden_read = refl

deprecated_read :
    evaluate_lifecycle library "deprecated" (some "2000-01-01") (some "2000-12-31") noon
    ≡ ok (evaluation noon warn_read ("DEPRECATED" ∷ []))
unfolding evaluate_lifecycle lifecycle_decision lifecycle_reasons parse_lifecycle_date
deprecated_read = refl

evaluate_lifecycle-IsTimely_example :
    (start end : Option ℕ) × (parse_lifecycle_date library (some "2000-01-01") ≡ ok start)
    × (parse_lifecycle_date library (some "2000-12-31") ≡ ok end)
    × IsTimely ("deprecated" == "deprecated") (IsOutside (day_of noon) start end) warn_read
evaluate_lifecycle-IsTimely_example =
    evaluate_lifecycle-IsTimely library "deprecated" (some "2000-01-01") (some "2000-12-31") noon
      (evaluation noon warn_read ("DEPRECATED" ∷ [])) deprecated_read
