-- ===== src/Capabilities/Credentials/Examples.antt =====
-- A concrete broker with one lease.
use skifer.Prelude.{◌≤◌, ◌<◌, ◌+◌, ◌≡◌, refl, true, [], ◌∷◌, none, length}
use skifer.Outcome.{Error, ok, err}
use skifer.Time.{DateTime, utc, minutes}
use skifer.Capabilities.Lease.{CredentialLease}
use skifer.Capabilities.Credentials.{
  IssueRequest, issued, new_broker, issue_for, reserve, activate, holds,
  max_active_credential_leases,
}
use skifer.Capabilities.Credentials.Grants.{IsGranted, issue_for-IsGranted}
use skifer.Capabilities.Credentials.Bound.{
  Threads, Reachable, at_start, then_section, reserves, activates, live_leases_bounded,
}

abbrev now : DateTime
now = record { instant = 1_000; zone = utc }

abbrev request : IssueRequest
request = record {
  subject = "agent-7";
  audience = "payments";
  scopes = "orders:refund" ∷ [];
  ttl_seconds = 60;
}

abbrev lease : CredentialLease
lease = record {
  identity = 1;
  subject = "agent-7";
  audience = "payments";
  scopes = "orders:refund" ∷ [];
  expires_at = record { instant = minutes 1; zone = utc };
  secret = "s3cret";
}

issue_for-IsGranted_example :
    ((issue_for (minutes 15) request none (issued lease) now new_broker).1.pending_issues ≡ 0)
    × ((e : Error)
        → (issue_for (minutes 15) request none (issued lease) now new_broker).0 ≡ err e
        → (issue_for (minutes 15) request none (issued lease) now new_broker).1.active_leases ≡ [])
    × ((l : CredentialLease)
        → (issue_for (minutes 15) request none (issued lease) now new_broker).0 ≡ ok l
        → (issued lease ≡ issued l)
          × IsGranted (minutes 15) request none now l
          × (length new_broker.active_leases + new_broker.pending_issues
              < max_active_credential_leases)
          × (holds l
                (issue_for (minutes 15) request none (issued lease) now new_broker).1.active_leases
              ≡ true))
issue_for-IsGranted_example =
    issue_for-IsGranted (minutes 15) request none (issued lease) now new_broker

-- Two reservations, and one lease that came.
abbrev one_live : Threads
one_live = record {
  broker = record { active_leases = lease ∷ []; pending_issues = 2 };
  waiting = 1;
  activated = 1;
}

one_live-Reachable : Reachable one_live
unfolding reserve activate holds
one_live-Reachable =
    then_section (then_section (then_section at_start (reserves refl)) (reserves refl))
      (activates lease)

live_leases_bounded_example :
    (length one_live.broker.active_leases ≤ max_active_credential_leases)
    × (one_live.waiting ≡ 0 → one_live.activated ≡ 0 → one_live.broker.pending_issues ≡ 0)
live_leases_bounded_example = live_leases_bounded one_live one_live-Reachable
