-- ===== src/Capabilities/Governed/AppendOnly.antt =====
-- The journal under executions, compensations and restarts.
use skifer.Prelude.{ℕ, String, Option, none, some, List, [], ◌∷◌, arith}
use skifer.Json.{Value}
use skifer.Capabilities.Autonomy.{AutonomyMode}
use skifer.Capabilities.Lease.{CredentialLease}
use skifer.Capabilities.Executors.{CapabilityResult}
use skifer.Capabilities.History.{CapabilityStateEvent}
use skifer.Capabilities.History.Rows.{Grown, Grown-refl, Grown-trans}
use skifer.Capabilities.Governed.{Host, World}
use skifer.Capabilities.Governed.Effects.{M}
use skifer.Capabilities.Governed.Execute.{
  Request, propose, begin, run_in_mode, run_fresh, dispatch, execute_as, execute,
  refuse_irreversible,
}
use skifer.Capabilities.Governed.Compensate.{Compensation, compensate, complete}
use skifer.Capabilities.Governed.Begun.{Runs-attested_call}
use skifer.Capabilities.Governed.Session.{Operation, run, undo, restart, step, session}
use skifer.Capabilities.Governed.Trace.{
  Runs, one_call, Quiet, Runs-bind, Runs-then, Runs-if, Quiet-Runs, Quiet-lift, Quiet-raise,
  Quiet-ask, Quiet-read_latest,
}
use skifer.Capabilities.Governed.Trace.Attest.{Quiet-attest}
use skifer.Capabilities.Governed.Trace.Quiet.{quiet, Quiet-resolve_prior, Quiet-prepare_report}

module _ {h : Host} (r : Request) (d : String) (copied : Value) where
  Runs-begin : (mode : AutonomyMode) → Runs {h = h} (one_call d) (begin r d copied mode)
  unfolding begin
  Runs-begin mode =
      search (Runs-bind, Quiet-prepare_report, Quiet-lift, Quiet-ask, Runs-attested_call) depth 14

  Runs-propose : (l : Option CredentialLease) → Runs {h = h} (one_call d) (propose r l)
  unfolding propose
  Runs-propose none = Quiet-Runs d _ (Quiet-lift _)
  Runs-propose (some l) = Quiet-Runs d _ (Quiet-raise _)

  Runs-run_in_mode : (mode : AutonomyMode) → Runs {h = h} (one_call d) (run_in_mode r d copied mode)
  unfolding run_in_mode refuse_irreversible
  Runs-run_in_mode mode =
      Runs-if (one_call d) _ _ _ (Runs-propose r.lease)
        (Runs-bind (one_call d) _ _ (Quiet-lift _) (λ _. Runs-begin mode))

  Runs-run_fresh : Runs {h = h} (one_call d) (run_fresh r d copied)
  unfolding run_fresh
  Runs-run_fresh =
      Runs-bind (one_call d) _ _ (Quiet-lift _)
        λ _. Runs-bind (one_call d) _ _ (Quiet-lift _) λ mode. Runs-run_in_mode mode

  Runs-dispatch :
      (prior : Option CapabilityStateEvent) → Runs {h = h} (one_call d) (dispatch r d copied prior)
  unfolding dispatch
  Runs-dispatch none = Runs-run_fresh
  Runs-dispatch (some prior) = Quiet-Runs d _ silent
    where
      silent : Quiet {h = h} (dispatch r d copied (some prior))
      silent = search (quiet, Quiet-resolve_prior)

-- At most one call, for some request.
abbrev any_call : String → ℕ
any_call d = 1

module _ {h : Host} {A : Type 0} where
  Runs-any : (d : String) (m : M h A) → Runs (one_call d) m → Runs any_call m
  Runs-any d m p = record {
    at = λ w.
        let x = p.at w in
        record {
          calls = λ e. ground (arith, x.calls e);
          kept = x.kept;
          later = x.later;
          grown = x.grown;
          issued = x.issued;
        };
  }

module _ {h : Host} where
  Runs-execute_as :
      (r : Request) (known : Option String) → Runs {h = h} any_call (execute_as r known)
  unfolding execute_as
  Runs-execute_as r known = Runs-bind any_call _ _ (Quiet-lift _) λ _.
      Runs-bind any_call _ _ (Quiet-lift _) λ _. Runs-bind any_call _ _ (Quiet-lift _) λ d.
        Runs-bind any_call _ _ (Quiet-lift _) λ copied.
          Runs-bind any_call _ _ (Quiet-read_latest d)
            λ prior. Runs-any d _ (Runs-dispatch r d copied prior)

  Quiet-complete :
      (c : Compensation) (hash : String) (x : CapabilityResult) → Quiet {h = h} (complete c hash x)
  unfolding complete
  Quiet-complete c hash x = search (quiet, Quiet-attest)

  Runs-compensate : (c : Compensation) → Runs {h = h} any_call (compensate c)
  unfolding compensate
  Runs-compensate c = Runs-bind any_call _ _ (Quiet-lift _) λ _.
      Runs-bind any_call _ _ (Quiet-lift _) λ _. Runs-bind any_call _ _ (Quiet-read_latest _) λ _.
        Runs-bind any_call _ _ (Quiet-lift _) λ _. Runs-bind any_call _ _ (Quiet-lift _) λ _.
          Runs-bind any_call _ _ (Quiet-lift _) λ _. Runs-bind any_call _ _ (Quiet-lift _) λ hash.
            Runs-bind any_call _ _ (Quiet-attest _ _ _ _ _)
              λ _. Runs-then any_call _ _ (Runs-execute_as _ _) (λ x. Quiet-complete c hash x)

  step-Grown : (o : Operation) (w : World h) → Grown w.rows (step o w).rows
  unfolding step execute
  step-Grown (run r) w = ((Runs-execute_as r none).at w).grown
  step-Grown (undo c) w = ((Runs-compensate c).at w).grown
  step-Grown restart w = Grown-refl w.rows

-- From any journal, over any sequence of executions, compensations and restarts, and whatever was
-- raised on the way: each row that the journal had stands unchanged and in its place, and new rows
-- only follow behind.
pub session-Grown :
    (h : Host) (os : List Operation) (w : World h) → Grown w.rows (session os w).rows
unfolding session
session-Grown h [] w = Grown-refl w.rows
session-Grown h (o ∷ os) w =
    Grown-trans w.rows (step o w).rows (session os (step o w)).rows (step-Grown o w)
      (session-Grown h os (step o w))
