-- ===== src/Capabilities/Credentials/Grants.antt =====
-- What `CredentialBroker.issue_for` hands out.
use skifer.Prelude.{ℕ, ◌+◌, ◌≤◌, ◌<◌, ◌≡◌, ◌≢◌, true, eq_iff, Option, some, arith, length, subset}
use skifer.Outcome.{Error, ok, err}
use skifer.Time.{DateTime, seconds}
use skifer.Capabilities.Autonomy.{AutonomyMode, shadow_mode}
use skifer.Capabilities.Lease.{CredentialLease, is_valid, assert_valid}
use skifer.Capabilities.Credentials.{
  IssueRequest, ProviderAnswer, issued, Broker, max_active_credential_leases, check_request,
  reserve, activate, release, accept, verify_lease, issue_for, assert_no_credential_for_shadow,
  holds,
}

-- The lease answers the request, and lives neither too short nor too long.
pub record IsGranted (max_ttl : ℕ) (request : IssueRequest) (mode : Option AutonomyMode)
    (now : DateTime) (l : CredentialLease) : Type 0 where
  pub not_shadow : mode ≢ some shadow_mode
  pub short_request : seconds request.ttl_seconds ≤ max_ttl
  pub same_subject : l.subject ≡ request.subject
  pub same_audience : l.audience ≡ request.audience
  pub within_scopes : subset l.scopes request.scopes ≡ true
  pub alive : now.instant < l.expires_at.instant
  pub short : l.expires_at.instant ≤ now.instant + max_ttl

-- A lease that `issue_for` returns is the provider's, names the subject and the audience of the
-- request and no scope that was not asked for, is alive and lives at most the ceiling from now; it
-- is not returned in SHADOW mode; it is among the live leases behind the call, of which there were
-- fewer than the maximum before it. Returned or refused, no reservation stays.
pub issue_for-IsGranted :
    (max_ttl : ℕ) (request : IssueRequest) (mode : Option AutonomyMode) (answer : ProviderAnswer)
    (now : DateTime) (b : Broker)
    → ((issue_for max_ttl request mode answer now b).1.pending_issues ≡ b.pending_issues)
      × ((e : Error)
          → (issue_for max_ttl request mode answer now b).0 ≡ err e
          → (issue_for max_ttl request mode answer now b).1.active_leases ≡ b.active_leases)
      × ((l : CredentialLease)
          → (issue_for max_ttl request mode answer now b).0 ≡ ok l
          → (answer ≡ issued l)
            × IsGranted max_ttl request mode now l
            × (length b.active_leases + b.pending_issues < max_active_credential_leases)
            × (holds l (issue_for max_ttl request mode answer now b).1.active_leases ≡ true))
unfolding issue_for check_request reserve activate release accept verify_lease is_valid assert_valid
    assert_no_credential_for_shadow holds
issue_for-IsGranted max_ttl request mode answer now b = (
  ground arith,
  λ e p. ground (arith, p),
  λ l p. (
    ground (arith, p),
    record {
      not_shadow = λ q. ground (arith, p, q);
      short_request = ground (arith, p);
      same_subject = ground (arith, p, (eq_iff l.subject request.subject).0);
      same_audience = ground (arith, p, (eq_iff l.audience request.audience).0);
      within_scopes = ground (arith, p);
      alive = ground (arith, p);
      short = ground (arith, p);
    },
    ground (arith, p),
    ground (arith, p),
  ),
)
