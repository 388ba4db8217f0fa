-- ===== src/Observability/Publication/Skipped.antt =====
-- What `publish` and `promote_staging` make of the same report.
use skifer.Prelude.{◌≡◌, true, false, Bool, ◌&&◌, List, any}
use skifer.Outcome.{value_error}
use skifer.Outcome.Action.{◌>>=◌, throw}
use skifer.Observability.Checks.{
  CheckResult, is_skipped, is_blocking, is_critical, has_critical_failures,
}
use skifer.Observability.Journal.{ContractDefinition}
use skifer.Observability.Publication.{Host, PublicationRun}
use skifer.Observability.Publication.Effects.{M}
use skifer.Observability.Publication.Quarantine.{quarantine_staging}
use skifer.Observability.Publication.Promote.{publish_table}
use skifer.Observability.Publication.Publish.{PublicationResult, after_quarantine, promote_run}

-- The report has a critical result that was skipped.
unfoldable pub critical_skipped : List CheckResult → Bool
critical_skipped results = any (λ r. is_skipped r.status && is_critical r.severity) results

-- What the coordinator does with a report, and what a promotion of the same run does that finds its
-- results in the store, as after a failure in between.
pub data IsAgreed {h : Host} (run : PublicationRun) (definition : ContractDefinition)
    (results : List CheckResult) (decided : M h PublicationResult) (found : M h PublicationRun)
    : Type 0 where
  -- both go on to the target
  passed :
      has_critical_failures results ≡ false
      → decided ≡ promote_run run results definition
      → found ≡ publish_table run definition
      → IsAgreed run definition results decided found
  -- neither does
  failed :
      any (λ r. is_blocking r.status && is_critical r.severity) results ≡ true
      → decided ≡ (quarantine_staging run definition results >>= after_quarantine run results)
      → found ≡ throw value_error
      → IsAgreed run definition results decided found
  -- the first does not, the second does
  differs :
      critical_skipped results ≡ true
      → any (λ r. is_blocking r.status && is_critical r.severity) results ≡ false
      → decided ≡ (quarantine_staging run definition results >>= after_quarantine run results)
      → found ≡ publish_table run definition
      → IsAgreed run definition results decided found
