-- ===== src/Capabilities/Autonomy/Gate.antt =====
-- What lets an `AutonomyStateMachine` into EXECUTING, and what it keeps on the way there.
use skifer.Prelude.{
  String, ◌≡◌, ◌⊎◌, inl, inr, true, Option, some, arith, first_some, Option-cases, Bool-cases,
}
use skifer.Outcome.{ok}
use skifer.Time.{DateTime}
use skifer.Json.{Value, JsonLibrary}
use skifer.Capabilities.Model.{CapabilityDefinition}
use skifer.Capabilities.Preconditions.{PreconditionReport, is_allow, matches_allow}
use skifer.Capabilities.Autonomy.{
  preconditions_passed, approved, executing, allowed, ApprovalRecord,
}
use skifer.Capabilities.Autonomy.Approvals.{Binds, validate_approval-Binds}
use skifer.Capabilities.Autonomy.Machine.{
  Machine, commit, move, check_approval, begin_execution, aware_now, is_approved,
}

module _ (lib : JsonLibrary) where
  -- The way into EXECUTING: on the strength of the preconditions alone, or with an approval that
  -- binds this request and this report.
  pub Gate :
      DateTime
      → CapabilityDefinition
      → String
      → Value
      → PreconditionReport
      → Option ApprovalRecord
      → Option String
      → Machine
      → Type 0
  Gate now d subject arguments report given digest m =
      (m.state ≡ preconditions_passed)
      ⊎ ((m.state ≡ approved)
          × ((a : ApprovalRecord) × (first_some given m.approval ≡ some a)
              × Binds lib a d subject arguments report now digest))

  -- A `begin_execution` that returned found an ALLOW report of this capability and version, and the
  -- machine either had its preconditions passed or was approved; if it was approved, the
  -- approval (the given one, else the recorded one) binds exactly this request and report; an
  -- approval that was given binds them in any case. The state is then EXECUTING.
  pub begin_execution-Gate :
      (now : DateTime) (d : CapabilityDefinition) (subject : String) (arguments : Value)
      (given_report : Option PreconditionReport) (given : Option ApprovalRecord)
      (digest : Option String) (m : Machine)
      → (begin_execution lib now d subject arguments given_report given digest m).0 ≡ ok tt
      → (report : PreconditionReport) × (first_some given_report m.report ≡ some report)
        × (is_allow report.decision ≡ true)
        × (matches_allow d report ≡ true)
        × Gate now d subject arguments report given digest m
        × ((a : ApprovalRecord)
            → given ≡ some a
            → Binds lib a d subject arguments report now digest)
        × ((begin_execution lib now d subject arguments given_report given digest m).1.state
            ≡ executing)
  unfolding begin_execution Gate commit move allowed check_approval aware_now
  begin_execution-Gate now d subject arguments given_report given digest m h =
      elim (Option-cases (first_some given_report m.report)) [
        | inl p ↦ ground (arith, p)
        | inr p ↦ (
          p.0,
          p.1,
          ground (arith, p.1),
          ground (arith, p.1),
          gate p.0 p.1,
          λ a q.
              validate_approval-Binds lib a d subject arguments p.0 now digest
                (ground (arith, p.1, q)),
          ground (arith, p.1),
        )
      ]
    where
      states :
          (r : PreconditionReport)
          → first_some given_report m.report ≡ some r
          → (m.state ≡ preconditions_passed) ⊎ (m.state ≡ approved)
      states r p = elim (Bool-cases (is_approved m.state)) [
        | inl q ↦ inr (ground (arith, p, q))
        | inr q ↦ inl (ground (arith, p, q))
      ]

      gate :
          (r : PreconditionReport)
          → first_some given_report m.report ≡ some r
          → Gate now d subject arguments r given digest m
      gate r p = elim (states r p) [
        | inl q ↦ inl q
        | inr q ↦ elim (Option-cases (first_some given m.approval)) [
          | inl x ↦ ground (arith, p, q, x)
          | inr x ↦ inr (
            q,
            (
              x.0,
              x.1,
              validate_approval-Binds lib x.0 d subject arguments r now digest
                  (ground (arith, p, q, x.1)),
            ),
          )
        ]
      ]
