-- ===== src/Capabilities/Autonomy/Kept.antt =====
-- What an `AutonomyStateMachine` keeps from its creation on, whatever is called on it.
use skifer.Prelude.{
  ℕ, ◌≤◌, String, ◌≡◌, ◌≢◌, refl, sym, subst, inl, inr, Bool, true, false, Option, none, some, List,
  [], ◌∷◌, arith, length, Option-cases, length-append,
}
use skifer.Outcome.{Error, Result, ok, err}
use skifer.Time.{DateTime}
use skifer.Json.{Value, JsonLibrary}
use skifer.Capabilities.Model.{CapabilityDefinition}
use skifer.Capabilities.Preconditions.{PreconditionReport, is_allow}
use skifer.Capabilities.Autonomy.{
  ExecutionState, proposed, preconditions_passed, approved, executing, executed, failed,
  compensating, compensated, allowed, ApprovalRecord,
}
use skifer.Capabilities.Autonomy.Approvals.{Binds, validate_approval-Binds}
use skifer.Capabilities.Autonomy.Machine.{
  Machine, ApprovalContext, new_machine, commit, move, pass_preconditions, request_approval,
  check_given, write_given, record_approval, begin_execution, record_success, record_failure,
  record_compensated, begin_compensation, aware_now, require_report,
}
use skifer.Capabilities.Executors.{Registry}
use skifer.Capabilities.Autonomy.Shadow.{record_shadow, SameLife, record_shadow-SameLife}
use skifer.Capabilities.Autonomy.Lifecycle.{
  Call, pass, ask_approval, give_approval, begin, succeed, fail, undo_done, undo, shadow, invoke,
  forget, invoke_all,
}

module _ (lib : JsonLibrary) where
  -- Behind PROPOSED there is an ALLOW report; at most one approval is stored, and in APPROVED it is
  -- the one that binds the request of the approval context.
  pub record IsKept (m : Machine) : Type 0 where
    pub stored : length m.approvals ≤ 1
    pub passed :
        m.state ≢ proposed
        → (r : PreconditionReport) × (m.report ≡ some r) × (is_allow r.decision ≡ true)
    pub given :
        m.state ≡ approved
        → (now : DateTime) × (a : ApprovalRecord) × (c : ApprovalContext) × (m.approval ≡ some a)
          × (m.approval_context ≡ some c)
          × Binds lib a c.definition c.subject c.arguments c.report now none

  new_machine-IsKept : IsKept new_machine
  new_machine-IsKept = record {
    stored = omega arith;
    passed = λ p. absurd (p refl);
    given = λ p. ground arith;
  }

  outcome-IsKept :
      {A : Type 0} (m : Machine) (x : Result A × Machine)
      → ((a : A) → x.0 ≡ ok a → IsKept x.1)
      → ((e : Error) → x.0 ≡ err e → x.1 ≡ m)
      → IsKept m
      → IsKept x.1
  outcome-IsKept m (ok a, m') p q k = p a refl
  outcome-IsKept m (err e, m') p q k = subst IsKept (sym (q e refl)) k

  -- The states behind the preconditions, but for APPROVED.
  abbrev later : ExecutionState → Bool
  later proposed = false
  later preconditions_passed = false
  later approved = false
  later _ = true

  move-IsKept :
      (target : ExecutionState) (m m' : Machine)
      → later target ≡ true
      → allowed m.state target ≡ true
      → m' ≡ record m { state = target }
      → IsKept m
      → IsKept m'
  unfolding allowed
  move-IsKept target m m' l a p k =
      let moved : IsKept (record m { state = target }) = record {
        stored = k.stored;
        passed = λ q. k.passed (λ s. ground arith);
        given = λ q. ground arith;
      } in
      subst IsKept (sym p) moved

  record_success-IsKept : (m : Machine) → IsKept m → IsKept (record_success m).1
  unfolding record_success commit move
  record_success-IsKept m k =
      outcome-IsKept m (record_success m)
        (λ _ p. move-IsKept executed m _ refl (ground (arith, p)) (ground (arith, p)) k)
        (λ e p. ground (arith, p)) k

  record_failure-IsKept : (m : Machine) → IsKept m → IsKept (record_failure m).1
  unfolding record_failure commit move
  record_failure-IsKept m k =
      outcome-IsKept m (record_failure m)
        (λ _ p. move-IsKept failed m _ refl (ground (arith, p)) (ground (arith, p)) k)
        (λ e p. ground (arith, p)) k

  record_compensated-IsKept : (m : Machine) → IsKept m → IsKept (record_compensated m).1
  unfolding record_compensated commit move
  record_compensated-IsKept m k =
      outcome-IsKept m (record_compensated m)
        (λ _ p. move-IsKept compensated m _ refl (ground (arith, p)) (ground (arith, p)) k)
        (λ e p. ground (arith, p)) k

  begin_compensation-IsKept :
      (d : CapabilityDefinition) (m : Machine) → IsKept m → IsKept (begin_compensation d m).1
  unfolding begin_compensation commit move
  begin_compensation-IsKept d m k =
      outcome-IsKept m (begin_compensation d m)
        (λ _ p. move-IsKept compensating m _ refl (ground (arith, p)) (ground (arith, p)) k)
        (λ e p. ground (arith, p)) k

  pass-IsKept :
      (r : PreconditionReport) (m : Machine) → IsKept m → IsKept (pass_preconditions r m).1
  unfolding pass_preconditions commit move
  pass-IsKept r m k =
      outcome-IsKept m (pass_preconditions r m)
        (λ _ p. record {
          stored = ground (arith, p, k.stored);
          passed = λ q. (r, ground (arith, p), ground (arith, p));
          given = λ q. ground (arith, p, q);
        })
        (λ e p. ground (arith, p)) k

  request_approval-IsKept :
      (d : CapabilityDefinition) (s : String) (a : Value) (m : Machine)
      → IsKept m
      → IsKept (request_approval lib d s a m).1
  unfolding request_approval require_report move allowed
  request_approval-IsKept d s a m k =
      outcome-IsKept m (request_approval lib d s a m)
        (λ _ p. record {
          stored = ground (arith, p, k.stored);
          passed = λ q.
              (let x = k.passed (λ y. ground (arith, p, y)) in (x.0, ground (arith, p, x.1), x.2));
          given = λ q. ground (arith, p, q);
        })
        (λ e p. ground (arith, p)) k

  begin_execution-IsKept :
      (now : DateTime) (d : CapabilityDefinition) (s : String) (args : Value)
      (r : Option PreconditionReport) (a : Option ApprovalRecord) (h : Option String) (m : Machine)
      → IsKept m
      → IsKept (begin_execution lib now d s args r a h m).1
  unfolding begin_execution commit move
  begin_execution-IsKept now d s args r a h m k =
      outcome-IsKept m (begin_execution lib now d s args r a h m)
        (λ _ p. move-IsKept executing m _ refl (ground (arith, p)) (ground (arith, p)) k)
        (λ e p. ground (arith, p)) k

  record_approval-IsKept :
      (now : DateTime) (a : ApprovalRecord) (m : Machine)
      → IsKept m
      → IsKept (record_approval lib now a m).1
  unfolding record_approval check_given write_given commit move aware_now allowed
  record_approval-IsKept now a m k =
      outcome-IsKept m (record_approval lib now a m)
        (λ _ p. record {
          stored = ground (arith, p, length-append m.approvals (a ∷ []));
          passed = λ q.
              (let x = k.passed (λ y. ground (arith, p, y)) in (x.0, ground (arith, p, x.1), x.2));
          given = λ q. elim (Option-cases m.approval_context) [
            | inl c ↦ ground (arith, p, c)
            | inr c ↦ (
              now,
              a,
              c.0,
              ground (arith, p, c.1),
              ground (arith, p, c.1),
              validate_approval-Binds lib a c.0.definition c.0.subject c.0.arguments c.0.report now
                  none (ground (arith, p, c.1)),
            )
          ];
        })
        (λ e p. ground (arith, p)) k

  shadow-IsKept : (m m' : Machine) → SameLife m m' → IsKept m → IsKept m'
  unfolding SameLife
  shadow-IsKept m m' same k =
      subst IsKept (sym same) (record { stored = k.stored; passed = k.passed; given = k.given })

  record_shadow-IsKept :
      (executors : Registry) (moment : ℕ) (d : CapabilityDefinition) (s : String) (a : Value)
      (m : Machine)
      → IsKept m
      → IsKept (record_shadow lib executors moment d s a m).1
  record_shadow-IsKept executors moment d s a m k =
      elim (record_shadow-SameLife lib executors moment d s a m) [
        | inl (_, same) ↦ shadow-IsKept m _ same k
        | inr refused ↦ subst (λ x. IsKept x.1) (sym refused) k
      ]

  forget-IsKept : {A : Type 0} (x : Result A × Machine) → IsKept x.1 → IsKept (forget x).1
  forget-IsKept (ok _, m) k = k
  forget-IsKept (err e, m) k = k

  invoke-IsKept : (c : Call) (m : Machine) → IsKept m → IsKept (invoke lib c m).1
  unfolding invoke
  invoke-IsKept (pass report) m k = pass-IsKept report m k
  invoke-IsKept (ask_approval d s a) m k = forget-IsKept _ (request_approval-IsKept d s a m k)
  invoke-IsKept (give_approval now a) m k = record_approval-IsKept now a m k
  invoke-IsKept (begin now d s args r a h) m k = begin_execution-IsKept now d s args r a h m k
  invoke-IsKept succeed m k = record_success-IsKept m k
  invoke-IsKept fail m k = record_failure-IsKept m k
  invoke-IsKept undo_done m k = record_compensated-IsKept m k
  invoke-IsKept (undo d) m k = begin_compensation-IsKept d m k
  invoke-IsKept (shadow executors moment d s a) m k =
      forget-IsKept _ (record_shadow-IsKept executors moment d s a m k)

  calls-IsKept : (cs : List Call) (m : Machine) → IsKept m → IsKept (invoke_all lib cs m)
  unfolding invoke_all
  calls-IsKept [] m k = k
  calls-IsKept (c ∷ cs) m k = calls-IsKept cs (invoke lib c m).1 (invoke-IsKept c m k)

  -- Whatever methods are called on a new machine, in whatever order: at most one approval is stored,
  -- behind PROPOSED there is a report that allows, and a machine in APPROVED holds an approval that
  -- was found, at some reading of the clock, to bind exactly the request and the report for which it
  -- was asked.
  pub invoke_all-IsKept : (cs : List Call) → IsKept (invoke_all lib cs new_machine)
  invoke_all-IsKept cs = calls-IsKept cs new_machine new_machine-IsKept
