-- ===== src/Capabilities/Governed/Once.antt =====
-- At most one external call for each request, in any sequence of executions and compensations.
pub mod Compensated
use skifer.Prelude.{
  ℕ, ◌+◌, ◌≤◌, ◌<◌, String, ◌≡◌, refl, Bool, true, false, ◌==◌, eq_iff, Option, none, some, arith,
  if◌then◌else◌, Bool-cases, inl, inr,
}
use skifer.Outcome.{Result, ok, err}
use skifer.Json.{Value}
use skifer.Capabilities.Autonomy.{AutonomyMode, executing}
use skifer.Capabilities.Governed.Checks.{call_detail}
use skifer.Capabilities.Autonomy.Machine.{Machine}
use skifer.Capabilities.Lease.{CredentialLease}
use skifer.Capabilities.Executors.{CapabilityResult, Executor}
use skifer.Capabilities.History
use skifer.Capabilities.History.{CapabilityStateEvent}
use skifer.Capabilities.History.Rows.{has_request, latest_state-none}
use skifer.Capabilities.Governed.{Host, World}
use skifer.Capabilities.Governed.Effects.{M, ◌>>=◌, continue, lift, read_latest, attest}
use skifer.Capabilities.Governed.Execute.{
  Request, propose, attested_call, begin, refuse_irreversible, run_in_mode, run_fresh, dispatch,
  execute_as, call_and_record,
}
use skifer.Capabilities.Governed.Compensate.{Compensation, compensate, complete}
use skifer.Capabilities.Governed.Trace.{
  Issued, calls_for, no_call, one_call, Within, Quiet, Quiet-lift, Quiet-raise, Quiet-ask,
  Quiet-read_latest,
}
use skifer.Capabilities.Governed.Trace.Attest.{Attested, attest_lem, Quiet-attest}
use skifer.Capabilities.Governed.Trace.Quiet.{
  quiet, Quiet-resolve_prior, Quiet-prepare_report, Runs-call_and_record,
}

-- No request was called twice, and the journal knows each request that was called.
pub record IsSound {h : Host} (w : World h) : Type 0 where
  pub issued : Issued h.uuid w.tick w.rows
  pub once : (d : String) → calls_for d w.calls ≤ 1
  pub known : (d : String) → 0 < calls_for d w.calls → has_request d w.rows ≡ true

-- What a host's `uuid4` promises: no identity is given out twice.
abbrev pub Distinct : Host → Type 0
Distinct h = (s t : ℕ) → h.uuid s ≡ h.uuid t → s ≡ t

module _ {h : Host} where
  Within-IsSound : {w v : World h} → Within no_call w v → IsSound w → IsSound v
  Within-IsSound x s = record {
    issued = x.issued s.issued;
    once = λ d. omega (arith, x.calls d, s.once d);
    known = λ d p. x.kept d (s.known d (omega (arith, x.calls d)));
  }

  -- One call for a request that the journal knows and that was never called.
  called-IsSound :
      (d : String) {w v : World h}
      → Within (one_call d) w v
      → has_request d w.rows ≡ true
      → calls_for d w.calls ≡ 0
      → IsSound w
      → IsSound v
  called-IsSound d {w} {v} x there uncalled s = record {
    issued = x.issued s.issued;
    once = λ e. elim (Bool-cases (d == e)) [
      | inl p ↦
          let q : calls_for e w.calls ≡ 0 = rw (← (eq_iff d e).0 p) uncalled in
          let c : calls_for e v.calls ≤ calls_for e w.calls + 1 = rw p at (x.calls e) in omega arith
      | inr p ↦
          let c : calls_for e v.calls ≤ calls_for e w.calls + 0 = rw p at (x.calls e) in
          omega (arith, s.once e)
    ];
    known = λ e q. elim (Bool-cases (d == e)) [
      | inl p ↦ rw (← (eq_iff d e).0 p) (x.kept d there)
      | inr p ↦
          let c : calls_for e v.calls ≤ calls_for e w.calls + 0 = rw p at (x.calls e) in
          x.kept e (s.known e (omega arith))
    ];
  }

  -- The action keeps a world sound in which the request `d` was never called.
  record Safe {A : Type 0} (d : String) (m : M h A) : Type 0 where
    at : (w : World h) → IsSound w → calls_for d w.calls ≡ 0 → IsSound (m w).1

module _ {h : Host} {A : Type 0} (d : String) where
  Quiet-Safe : (m : M h A) → Quiet m → Safe d m
  Quiet-Safe m q = record { at = λ w s u. Within-IsSound (q.at w) s }

  Safe-if : (b : Bool) (m n : M h A) → Safe d m → Safe d n → Safe d (if b then m else n)
  Safe-if true m n p q = p
  Safe-if false m n p q = q

  Safe-bind :
      {B : Type 0} (m : M h B) (f : B → M h A)
      → Quiet m
      → ((x : B) → Safe d (f x))
      → Safe d (m >>= f)
  unfolding ◌>>=◌
  Safe-bind {B = B} m f q p = record { at = λ w s u. go w (m w).0 (m w).1 (q.at w) s u }
    where
      go :
          (w : World h) (r : Result B) (v : World h)
          → Within no_call w v
          → IsSound w
          → calls_for d w.calls ≡ 0
          → IsSound (continue r f v).1
      go w (ok x) v y s u = (p x).at v (Within-IsSound y s) (omega (arith, y.calls d))
      go w (err e) v y s u = Within-IsSound y s

module _ {h : Host} (distinct : Distinct h) where
  -- Behind the event that attests the call, whatever happens is one call at most.
  Safe-attested_call :
      (r : Request) (d : String) (copied : Value) (mode : AutonomyMode) (x : Executor) (m : Machine)
      → Safe {h = h} d (attested_call r d copied mode x m)
  unfolding attested_call ◌>>=◌
  Safe-attested_call r d copied mode x m = record {
    at = λ w s u.
        go w (attest d r.definition r.subject executing call_detail w).1
          (attest d r.definition r.subject executing call_detail w).0
          (attest_lem d r.definition r.subject executing call_detail w) s u;
  }
    where
      go :
          (w v : World h) (o : Result (Unit {0}))
          → Attested d w v o
          → IsSound w
          → calls_for d w.calls ≡ 0
          → IsSound (continue o (λ _. call_and_record r d copied mode x m) v).1
      go w v (err e) a s u = Within-IsSound a.within s
      go w v (ok _) a s u =
          called-IsSound d ((Runs-call_and_record r d copied mode x m).at v)
            (a.known distinct s.issued refl) (omega (arith, a.within.calls d))
            (Within-IsSound a.within s)

  Safe-begin :
      (r : Request) (d : String) (copied : Value) (mode : AutonomyMode)
      → Safe {h = h} d (begin r d copied mode)
  unfolding begin
  Safe-begin r d copied mode =
      search (Safe-bind, Quiet-prepare_report, Quiet-lift, Quiet-ask, Safe-attested_call) depth 14

  Safe-propose :
      (r : Request) (d : String) (l : Option CredentialLease) → Safe {h = h} d (propose r l)
  unfolding propose
  Safe-propose r d none = Quiet-Safe d _ (Quiet-lift _)
  Safe-propose r d (some l) = Quiet-Safe d _ (Quiet-raise _)

  Quiet-refuse_irreversible :
      (r : Request) (mode : AutonomyMode) → Quiet {h = h} (refuse_irreversible r mode)
  unfolding refuse_irreversible
  Quiet-refuse_irreversible r mode = Quiet-lift _

  Safe-run_in_mode :
      (r : Request) (d : String) (copied : Value) (mode : AutonomyMode)
      → Safe {h = h} d (run_in_mode r d copied mode)
  unfolding run_in_mode
  Safe-run_in_mode r d copied mode =
      Safe-if d _ _ _ (Safe-propose r d r.lease)
        (Safe-bind d _ _ (Quiet-refuse_irreversible r mode) (λ _. Safe-begin r d copied mode))

  Safe-run_fresh :
      (r : Request) (d : String) (copied : Value) → Safe {h = h} d (run_fresh r d copied)
  unfolding run_fresh
  Safe-run_fresh r d copied =
      Safe-bind d _ _ (Quiet-lift _)
        λ _. Safe-bind d _ _ (Quiet-lift _) λ effective. Safe-run_in_mode r d copied effective

  -- The last answer of the journal decides: with no history the request was never called.
  dispatch-IsSound :
      (r : Request) (d : String) (copied : Value) (w : World h)
      (prior : Option CapabilityStateEvent)
      → History.latest_state h.lib h.lower d w.rows ≡ ok prior
      → IsSound w
      → IsSound (dispatch r d copied prior w).1
  unfolding dispatch
  dispatch-IsSound r d copied w none p s =
      (Safe-run_fresh r d copied).at w s (uncalled (latest_state-none h.lib h.lower d w.rows p))
    where
      uncalled : has_request d w.rows ≡ false → calls_for d w.calls ≡ 0
      uncalled q = ground (arith, s.known d)
  dispatch-IsSound r d copied w (some prior) p s = Within-IsSound (q.at w) s
    where
      q : Quiet {h = h} (dispatch r d copied (some prior))
      q = search (quiet, Quiet-resolve_prior)

  -- A check in front of an action.
  lifted-IsSound :
      {A B : Type 0} (r : Result A) (f : A → M h B) (w : World h)
      → IsSound w
      → ((x : A) → IsSound (f x w).1)
      → IsSound ((lift r >>= f) w).1
  unfolding lift ◌>>=◌
  lifted-IsSound (ok x) f w s p = p x
  lifted-IsSound (err e) f w s p = s

  latest-IsSound :
      (r : Request) (d : String) (copied : Value) (w : World h)
      → IsSound w
      → IsSound ((read_latest d >>= dispatch r d copied) w).1
  unfolding read_latest ◌>>=◌
  latest-IsSound r d copied w s = go (History.latest_state h.lib h.lower d w.rows) refl
    where
      go :
          (o : Result (Option CapabilityStateEvent))
          → History.latest_state h.lib h.lower d w.rows ≡ o
          → IsSound (continue o (dispatch r d copied) w).1
      go (ok prior) p = dispatch-IsSound r d copied w prior p s
      go (err e) p = s

  pub execute_as-IsSound :
      (r : Request) (known : Option String) (w : World h)
      → IsSound w
      → IsSound (execute_as r known w).1
  unfolding execute_as
  execute_as-IsSound r known w s = lifted-IsSound _ _ w s λ _. lifted-IsSound _ _ w s λ _.
      lifted-IsSound _ _ w s λ d. lifted-IsSound _ _ w s λ copied. latest-IsSound r d copied w s
