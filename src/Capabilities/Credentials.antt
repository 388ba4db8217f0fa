-- ===== src/Capabilities/Credentials.antt =====
-- `CredentialBroker` of credentials.py. The set of live leases and the count of reservations are
-- its state; `issue_for` is the composition of the three sections that it runs under its lock.
pub mod Grants
pub mod Bound
mod Examples
use skifer.Prelude.{
  ℕ, ◌+◌, ◌-◌, ◌/◌, String, Bool, true, false, ◌||◌, ◌==◌, Option, some, List, [], ◌∷◌, ltb, leb,
  length, subset, if◌then◌else◌,
}
use Prim.Native.Nat.{compare, Ordering}
use skifer.Outcome.{Error, interrupted, credential_error, Result, ok, err, require, refuse, ◌>>◌}
use skifer.Time.{DateTime, is_aware, seconds, minutes}
use skifer.Capabilities.Lease.{CredentialLease, assert_valid}
use skifer.Capabilities.Autonomy.{AutonomyMode, shadow_mode}

abbrev pub max_credential_ttl : ℕ
max_credential_ttl = minutes 15

abbrev pub max_active_credential_leases : ℕ
max_active_credential_leases = 32

pub record IssueRequest : Type 0 where
  pub subject : String
  pub audience : String
  pub scopes : List String
  pub ttl_seconds : ℕ

-- What the application's provider gives: a lease, some other object, or an exception.
pub data ProviderAnswer : Type 0 where
  issued : CredentialLease → ProviderAnswer
  other_object : ProviderAnswer
  threw : Error → ProviderAnswer

pub record Broker : Type 0 where
  pub active_leases : List CredentialLease
  pub pending_issues : ℕ

abbrev pub new_broker : Broker
new_broker = record { active_leases = []; pending_issues = 0 }

abbrev same_identity : ℕ → ℕ → Bool
same_identity a b = elim (compare a b) [ Ordering.eq ↦ true | _ ↦ false ]

unfoldable pub holds : CredentialLease → List CredentialLease → Bool
holds l [] = false
holds l (k ∷ ks) = same_identity k.identity l.identity || holds l ks

-- `assert_no_credential_for_shadow`
unfoldable pub assert_no_credential_for_shadow : Option AutonomyMode → Result (Unit {0})
assert_no_credential_for_shadow (some shadow_mode) = err credential_error
assert_no_credential_for_shadow _ = ok tt

-- The checks of `issue_for` before its first lock.
unfoldable pub check_request : ℕ → IssueRequest → Option AutonomyMode → Result (Unit {0})
check_request max_ttl request mode = do
  assert_no_credential_for_shadow mode
  refuse (request.subject == "") credential_error
  refuse (request.audience == "") credential_error
  refuse (leb request.ttl_seconds 0) credential_error
  refuse (ltb max_ttl (seconds request.ttl_seconds)) credential_error

-- Under the lock: the bound on live and promised leases, and the reservation.
unfoldable pub reserve : Broker → Result Broker
reserve b =
    if leb max_active_credential_leases (length b.active_leases + b.pending_issues)
    then err credential_error
    else ok (record b { pending_issues = b.pending_issues + 1 })

-- Under the lock: `self._active_leases.add(lease)`.
unfoldable pub activate : CredentialLease → Broker → Broker
activate l b =
    if holds l b.active_leases then b else record b { active_leases = l ∷ b.active_leases }

-- Under the lock, in `finally`: the end of the reservation.
unfoldable pub release : Broker → Broker
release b = record b { pending_issues = b.pending_issues - 1 }

-- `_verify_lease`
unfoldable pub verify_lease : ℕ → IssueRequest → DateTime → CredentialLease → Result (Unit {0})
verify_lease max_ttl request now lease = do
  require (lease.subject == request.subject) credential_error
  require (lease.audience == request.audience) credential_error
  require (subset lease.scopes request.scopes) credential_error
  require (is_aware lease.expires_at) credential_error
  assert_valid lease now
  refuse (ltb (now.instant + max_ttl) lease.expires_at.instant) credential_error

-- Between the reservation and its end: the provider's answer, checked at the clock's reading.
unfoldable pub accept : ℕ → IssueRequest → DateTime → ProviderAnswer → Result CredentialLease
accept max_ttl request now (threw interrupted) = err interrupted
accept max_ttl request now (threw _) = err credential_error
accept max_ttl request now other_object = do
  require (is_aware now) credential_error
  err credential_error
accept max_ttl request now (issued lease) = do
  require (is_aware now) credential_error
  verify_lease max_ttl request now lease
  ok lease

-- The end of `issue_for`, from the state with the reservation.
settle : Result CredentialLease → Broker → Result CredentialLease × Broker
settle (ok lease) b = (ok lease, release (activate lease b))
settle (err e) b = (err e, release b)

-- `int(self._max_ttl.total_seconds())`
abbrev pub max_ttl_seconds : ℕ → ℕ
max_ttl_seconds max_ttl = max_ttl / 1_000_000

reserved : ℕ → IssueRequest → Option AutonomyMode → Broker → Result Broker
reserved max_ttl request mode b = do check_request max_ttl request mode; reserve b

-- `issue_for`, run by one thread; `now` is the reading of the clock behind the provider's answer.
unfoldable pub issue_for :
    ℕ
    → IssueRequest
    → Option AutonomyMode
    → ProviderAnswer
    → DateTime
    → Broker
    → Result CredentialLease × Broker
unfolding settle reserved
issue_for max_ttl request mode answer now b = elim (reserved max_ttl request mode b) [
  | err e ↦ (err e, b)
  | ok b' ↦ settle (accept max_ttl request now answer) b'
]
