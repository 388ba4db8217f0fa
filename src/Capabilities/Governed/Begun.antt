-- ===== src/Capabilities/Governed/Begun.antt =====
-- What stands between the resolution of the mode and a call of an executor.
use skifer.Prelude.{
  ◌+◌, ◌≤◌, ◌<◌, String, ◌≡◌, ap, sym, ◌∙◌, subst, inl, inr, true, false, ◌&&◌, ◌==◌, eq_iff, none,
  some, arith, Bool-cases, is_some, not, Option-cases, if◌then◌else◌,
}
use skifer.Outcome.{Result, ok, refuse, governed_execution_error}
use skifer.Outcome.Laws.{ok-injective}
use skifer.Time.{DateTime}
use skifer.Json.{Value}
use skifer.Capabilities.Preconditions.{PreconditionReport, is_allow, matches_allow}
use skifer.Capabilities.Preconditions.Evaluator.{is_empty}
use skifer.Capabilities.Autonomy.{AutonomyMode, supervised_mode, ApprovalRecord}
use skifer.Capabilities.Autonomy.Approvals.{Binds}
use skifer.Capabilities.Autonomy.Machine.{Machine, begin_execution}
use skifer.Capabilities.Autonomy.Gate.{begin_execution-Gate}
use skifer.Capabilities.Executors.{Executor, get_executor}
use skifer.Capabilities.Governed.{Host, World}
use skifer.Capabilities.Governed.Effects.{M, ◌>>=◌, lift, ask}
use skifer.Capabilities.Governed.Prepared.{IsFullVerdict, prepare_report-IsFullVerdict}
use skifer.Capabilities.Governed.Chains.{bind_lem}
use skifer.Capabilities.Governed.Execute.Prepare.{prepare_report}
use skifer.Capabilities.Governed.Execute.{Request, begin, attested_call, is_supervised}
use skifer.Capabilities.Governed.Trace.{
  calls_for, one_call, Runs, Runs-bind, Quiet, Quiet-ask, Quiet-lift,
}
use skifer.Capabilities.Governed.Trace.Attest.{Quiet-attest}
use skifer.Capabilities.Governed.Trace.Quiet.{Quiet-prepare_report, Runs-call_and_record}

-- The state machine let this request through in this world: the report that was prepared there is an
-- ALLOW of this capability, with an ALLOW for each precondition, and in SUPERVISED mode an approval
-- binds this request and this report at the time that the clock then showed.
pub record Begun {h : Host} (w : World h) (r : Request) (d : String) (copied : Value)
    (mode : AutonomyMode) : Type 0 where
  pub report : PreconditionReport
  pub prepared : (prepare_report {h = h} r.definition copied r.precondition_report w).0 ≡ ok report
  pub allows : is_allow report.decision ≡ true
  pub matching : matches_allow r.definition report ≡ true
  pub fresh : is_empty r.definition.preconditions ≡ false → IsFullVerdict r.definition report
  pub now : DateTime
  pub read :
      now ≡ h.clock (prepare_report {h = h} r.definition copied r.precondition_report w).1.tick
  pub approved :
      mode ≡ supervised_mode
      → (a : ApprovalRecord) × (r.approval ≡ some a)
        × Binds h.lib a r.definition r.subject copied report now (some d)
  pub executor : Executor
  pub registered : get_executor r.definition.executor h.executors ≡ ok executor

-- If there is a call for `e` more than in `w`, then `Q`.
unfoldable pub Rise :
    {h : Host} {A : Type 0} → World h → String → Type 0 → Result A × World h → Type 0
Rise w e Q x = calls_for e w.calls < calls_for e x.1.calls → Q

module _ {h : Host} {A : Type 0} (w : World h) (e : String) (Q : Type 0) where
  -- A quiet action in front of another.
  pub Rise-bind :
      {B : Type 0} (m : M h B) (f : B → M h A) (v : World h)
      → calls_for e v.calls ≤ calls_for e w.calls
      → Quiet m
      → ((b : B)
          → calls_for e (m v).1.calls ≤ calls_for e w.calls
          → (m v).0 ≡ ok b
          → Rise w e Q (f b (m v).1))
      → Rise w e Q ((m >>= f) v)
  unfolding Rise
  Rise-bind m f v le q k =
      let within = (q.at v) in
      bind_lem (Rise w e Q) m f v (λ _ _ x. absurd (omega (arith, x, le, within.calls e)))
        (λ b p. k b (omega (arith, le, within.calls e)) p)

module _ {h : Host} (r : Request) (d : String) (copied : Value) (mode : AutonomyMode) where
  pub Runs-attested_call :
      (x : Executor) (m : Machine) → Runs {h = h} (one_call d) (attested_call r d copied mode x m)
  unfolding attested_call
  Runs-attested_call x m =
      Runs-bind (one_call d) _ _ (Quiet-attest _ _ _ _ _)
        (λ _. Runs-call_and_record r d copied mode x m)

  attested_call-Rise :
      (w v : World h) (e : String) (x : Executor) (m : Machine)
      → calls_for e v.calls ≤ calls_for e w.calls
      → Rise w e (d ≡ e) (attested_call r d copied mode x m v)
  unfolding Rise
  attested_call-Rise w v e x m le q = elim (Bool-cases (d == e)) [
    | inl p ↦ (eq_iff d e).0 p
    | inr p ↦
        let c : calls_for e (attested_call r d copied mode x m v).1.calls
            ≤ calls_for e v.calls + 0 =
          rw p at (((Runs-attested_call x m).at v).calls e) in
        absurd (omega arith)
  ]

  begun_lem :
      (u : World h) (report : PreconditionReport) (now : DateTime) (x : Executor) (m : Machine)
      → (prepare_report {h = h} r.definition copied r.precondition_report u).0 ≡ ok report
      → now ≡ h.clock (prepare_report {h = h} r.definition copied r.precondition_report u).1.tick
      → refuse (is_supervised mode && not (is_some r.approval)) governed_execution_error ≡ ok tt
      → (begin_execution h.lib now r.definition r.subject copied
          (some report)
          (if is_supervised mode then r.approval else none)
          (some d)
          m).0
        ≡ ok tt
      → get_executor r.definition.executor h.executors ≡ ok x
      → (is_empty r.definition.preconditions ≡ false → IsFullVerdict r.definition report)
      → Begun u r d copied mode
  begun_lem u report now x m prepared read supervised begun registered fresh =
      let g =
        begin_execution-Gate h.lib now r.definition r.subject copied (some report)
          (if is_supervised mode then r.approval else none) (some d) m begun in
      record {
        report = g.0;
        prepared = prepared ∙ ap ok (ground (arith, g.1));
        allows = g.2;
        matching = g.3;
        fresh = λ f. subst (IsFullVerdict r.definition) (ground (arith, g.1)) (fresh f);
        now = now;
        read = read;
        approved = λ p. elim (Option-cases r.approval) [
          | inl q ↦ ground (arith, p, q, supervised)
          | inr q ↦ (q.0, q.1, g.5 q.0 (ground (arith, p, q.1)))
        ];
        executor = x;
        registered = registered;
      }

  pub begin-Rise :
      (w u : World h) (e : String)
      → calls_for e u.calls ≤ calls_for e w.calls
      → Rise w e ((d ≡ e) × Begun u r d copied mode) (begin r d copied mode u)
  unfolding begin Rise lift ask
  begin-Rise w u e le = Rise-bind w e Q _ _ u le (Quiet-prepare_report _ _ _) λ report le prepared.
      Rise-bind w e Q _ _ _ le (Quiet-lift _) λ _ le passed.
        Rise-bind w e Q _ _ _ le (Quiet-lift _) λ _ le supervised.
          Rise-bind w e Q _ _ _ le (Quiet-ask _) λ now le read.
            Rise-bind w e Q _ _ _ le (Quiet-lift _) λ _ le begun.
              Rise-bind w e Q _ _ _ le (Quiet-lift _) λ x le registered q. (
                attested_call-Rise w _ e x _ le q,
                begun_lem u report now x _ prepared (sym (ok-injective read)) supervised begun
                    registered
                    (λ f.
                      prepare_report-IsFullVerdict r.definition copied r.precondition_report u
                        report f prepared),
              )
    where
      Q : Type 0
      Q = (d ≡ e) × Begun u r d copied mode
