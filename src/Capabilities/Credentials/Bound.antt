-- ===== src/Capabilities/Credentials/Bound.antt =====
-- `issue_for` under threads: its critical sections, in any order.
use skifer.Prelude.{ℕ, suc, ◌+◌, ◌≤◌, ◌≡◌, refl, List, ◌∷◌, ◌++◌, arith, length, length-append}
use skifer.Outcome.{ok}
use skifer.Capabilities.Lease.{CredentialLease}
use skifer.Capabilities.Credentials.{
  Broker, new_broker, max_active_credential_leases, reserve, activate, release,
}

-- The broker, and how many threads hold a reservation with no lease yet, and how many have added
-- their lease and not yet ended their reservation.
pub record Threads : Type 0 where
  pub broker : Broker
  pub waiting : ℕ
  pub activated : ℕ

-- One critical section of one thread, or the collection of a lease that no one holds any more.
pub data Section : Threads → Threads → Type 0 where
  reserves :
      {b b' : Broker} {w a : ℕ}
      → reserve b ≡ ok b'
      → Section
          (record { broker = b; waiting = w; activated = a })
          (record { broker = b'; waiting = suc w; activated = a })
  activates :
      {b : Broker} {w a : ℕ} (l : CredentialLease)
      → Section
          (record { broker = b; waiting = suc w; activated = a })
          (record { broker = activate l b; waiting = w; activated = suc a })
  gives_up :
      {b : Broker} {w a : ℕ}
      → Section
          (record { broker = b; waiting = suc w; activated = a })
          (record { broker = release b; waiting = w; activated = a })
  finishes :
      {b : Broker} {w a : ℕ}
      → Section
          (record { broker = b; waiting = w; activated = suc a })
          (record { broker = release b; waiting = w; activated = a })
  collects :
      {b : Broker} {w a : ℕ} (xs ys : List CredentialLease) (l : CredentialLease)
      → b.active_leases ≡ xs ++ l ∷ ys
      → Section
          (record { broker = b; waiting = w; activated = a })
          (record { broker = record b { active_leases = xs ++ ys }; waiting = w; activated = a })

pub data Reachable : Threads → Type 0 where
  at_start : Reachable (record { broker = new_broker; waiting = 0; activated = 0 })
  then_section : {s t : Threads} → Reachable s → Section s t → Reachable t

-- Each reservation is a thread's, and the live leases with those still to come stay in the bound.
record IsBounded (t : Threads) : Type 0 where
  pending : t.broker.pending_issues ≡ t.waiting + t.activated
  live : length t.broker.active_leases + t.waiting ≤ max_active_credential_leases

Section-IsBounded : {s t : Threads} → Section s t → IsBounded s → IsBounded t
unfolding reserve activate release
Section-IsBounded (reserves p) i = record {
  pending = ground (arith, p, i.pending, i.live);
  live = ground (arith, p, i.pending, i.live);
}
Section-IsBounded (activates l) i = record {
  pending = ground (arith, i.pending, i.live);
  live = ground (arith, i.pending, i.live);
}
Section-IsBounded gives_up i = record {
  pending = omega (arith, i.pending);
  live = omega (arith, i.live);
}
Section-IsBounded finishes i = record {
  pending = omega (arith, i.pending);
  live = omega (arith, i.live);
}
Section-IsBounded (collects {b} {w} {a} xs ys l p) i =
    let q : length (xs ++ l ∷ ys) + w ≤ max_active_credential_leases = rw p at i.live in
    record {
      pending = i.pending;
      live = omega (arith, q, length-append xs ys, length-append xs (l ∷ ys));
    }

Reachable-IsBounded : {t : Threads} → Reachable t → IsBounded t
Reachable-IsBounded at_start = record { pending = refl; live = omega arith }
Reachable-IsBounded (then_section r s) = Section-IsBounded s (Reachable-IsBounded r)

-- However the threads interleave their critical sections, and whenever leases are collected: there
-- are at most `MAX_ACTIVE_CREDENTIAL_LEASES` live leases, and no reservation is pending once every
-- thread is done.
pub live_leases_bounded :
    (t : Threads)
    → Reachable t
    → (length t.broker.active_leases ≤ max_active_credential_leases)
      × (t.waiting ≡ 0 → t.activated ≡ 0 → t.broker.pending_issues ≡ 0)
live_leases_bounded t r =
    let i = Reachable-IsBounded r in (omega (arith, i.live), λ p q. omega (arith, p, q, i.pending))
