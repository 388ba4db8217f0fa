-- ===== src/Capabilities/Governed/Prepared.antt =====
-- What `_prepare_report` returns for a capability with preconditions.
use skifer.Prelude.{◌≡◌, refl, false, Option, none, some, All, arith}
use skifer.Outcome.{Result, ok, err}
use skifer.Time.{DateTime}
use skifer.Json.{Value}
use skifer.Capabilities.Model.{CapabilityDefinition}
use skifer.Capabilities.Preconditions.{PreconditionReport}
use skifer.Capabilities.Preconditions.Evaluator.{is_empty}
use skifer.Capabilities.Preconditions.Verdict.{Allowed, IsVerdict}
use skifer.Capabilities.Preconditions.Recheck.{assert_unchanged-IsVerdict}
use skifer.Capabilities.Governed.{Host, World, EvaluatorSetup}
use skifer.Capabilities.Governed.Effects.{M, ◌>>=◌, lift, raise, continue}
use skifer.Capabilities.Governed.Execute.Prepare.{prepare_report, recheck}

-- The report is a verdict of some moment, in which every rule allows.
abbrev pub IsFullVerdict : CapabilityDefinition → PreconditionReport → Type 0
IsFullVerdict d report = (at : DateTime) × IsVerdict d at report × All Allowed report.outcomes

module _ {h : Host} {A B : Type 0} where
  -- A chain that returned went through a value of its first action.
  continue_inv :
      (r : Result A) (f : A → M h B) (w : World h) (b : B)
      → (continue r f w).0 ≡ ok b
      → (a : A) × (r ≡ ok a) × ((f a w).0 ≡ ok b)
  continue_inv (ok a) f w b p = (a, refl, p)
  continue_inv (err e) f w b p = ground (arith, p)

  bind_inv :
      (m : M h A) (f : A → M h B) (w : World h) (b : B)
      → ((m >>= f) w).0 ≡ ok b
      → (a : A) × ((m w).0 ≡ ok a) × ((f a (m w).1).0 ≡ ok b)
  unfolding ◌>>=◌
  bind_inv m f w b p = continue_inv (m w).0 f (m w).1 b p

module _ {h : Host} where
  recheck-IsFullVerdict :
      (d : CapabilityDefinition) (arguments : Value) (report current : PreconditionReport)
      (setup : Option EvaluatorSetup) (w : World h)
      → (recheck {h = h} d arguments report setup w).0 ≡ ok current
      → IsFullVerdict d current
  unfolding recheck raise lift
  recheck-IsFullVerdict d arguments report current none w p = ground (arith, p)
  recheck-IsFullVerdict d arguments report current (some setup) w p =
      let state = bind_inv _ _ w current p in
      let now = bind_inv _ _ _ current state.2 in
      let moment = bind_inv _ _ _ current now.2 in
      let v =
        assert_unchanged-IsVerdict _ moment.0 now.0 d arguments state.0 report current moment.2 in
      (now.0, v.1, v.2)

  pub prepare_report-IsFullVerdict :
      (d : CapabilityDefinition) (arguments : Value) (given : Option PreconditionReport)
      (w : World h) (report : PreconditionReport)
      → is_empty d.preconditions ≡ false
      → (prepare_report {h = h} d arguments given w).0 ≡ ok report
      → IsFullVerdict d report
  unfolding prepare_report
  prepare_report-IsFullVerdict d arguments given w report e p =
      let first = bind_inv _ _ w report p in
      let matched = bind_inv _ _ _ report first.2 in
      recheck-IsFullVerdict d arguments first.0 report h.precondition_evaluator _
        (rw e at matched.2)
