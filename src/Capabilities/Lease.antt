-- ===== src/Capabilities/Lease.antt =====
-- `CredentialLease` of credentials.py. Its `repr` and its refusal to be pickled are not modelled.
use skifer.Prelude.{ℕ, String, Bool, not, ◌==◌, List, all, ltb}
use skifer.Outcome.{credential_error, Result, ok, require, refuse, ◌>>=◌, ◌>>◌}
use skifer.Time.{DateTime, is_aware}

pub record CredentialLease : Type 0 where
  -- the object's identity, by which a `WeakSet` holds it
  pub identity : ℕ
  pub subject : String
  pub audience : String
  pub scopes : List String
  pub expires_at : DateTime
  pub secret : String

-- `CredentialLease.__init__`
unfoldable pub make_lease : CredentialLease → Result CredentialLease
make_lease l = do
  refuse (l.subject == "") credential_error
  refuse (l.audience == "") credential_error
  require (all (λ s. not (s == "")) l.scopes) credential_error
  require (is_aware l.expires_at) credential_error
  refuse (l.secret == "") credential_error
  ok l

-- `CredentialLease.is_valid`
unfoldable pub is_valid : CredentialLease → DateTime → Result Bool
is_valid l now = do
  require (is_aware now) credential_error
  require (is_aware l.expires_at) credential_error
  ok (ltb now.instant l.expires_at.instant)

-- `CredentialLease.assert_valid`
unfoldable pub assert_valid : CredentialLease → DateTime → Result (Unit {0})
unfolding is_valid
assert_valid l now = do valid ← is_valid l now; require valid credential_error
