-- ===== src/Capabilities/Autonomy/Approvals.antt =====
-- What a validated approval is bound to.
use skifer.Prelude.{◌+◌, ◌≤◌, ◌<◌, String, ◌≡◌, inl, inr, eq_iff, Option, arith}
use skifer.Outcome.{ok}
use skifer.Outcome.Laws.{Result-cases}
use skifer.Time.{DateTime}
use skifer.Json.{Value, JsonLibrary}
use skifer.Capabilities.Model.{CapabilityDefinition}
use skifer.Capabilities.Preconditions.{PreconditionReport}
use skifer.Capabilities.Preconditions.Evaluator.{precondition_hash}
use skifer.Capabilities.Autonomy.{
  ApprovalRecord, max_approval_window, expected_hash, validate_approval,
}

-- The approval binds this decision, time, capability, request and report.
pub record Binds (lib : JsonLibrary) (a : ApprovalRecord) (d : CapabilityDefinition)
    (subject : String) (arguments : Value) (report : PreconditionReport) (now : DateTime)
    (given : Option String) : Type 0 where
  pub approved : a.decision ≡ "approved"
  pub unexpired : now.instant < a.expires_at.instant
  pub window : a.expires_at.instant ≤ a.granted_at.instant + max_approval_window
  pub same_id : a.capability_id ≡ d.id
  pub same_version : a.capability_version ≡ d.version
  pub same_request : expected_hash lib d subject arguments given ≡ ok a.request_hash
  pub same_report : precondition_hash lib report ≡ ok a.precondition_hash

-- A validated approval says "approved", is not expired, spans at most the approval window, names
-- the capability and its version, and carries the hash of exactly this request and of exactly this
-- report.
pub validate_approval-Binds :
    (lib : JsonLibrary) (a : ApprovalRecord) (d : CapabilityDefinition) (subject : String)
    (arguments : Value) (report : PreconditionReport) (now : DateTime) (given : Option String)
    → validate_approval lib a d subject arguments report now given ≡ ok tt
    → Binds lib a d subject arguments report now given
unfolding validate_approval
validate_approval-Binds lib a d subject arguments report now given h = record {
  approved = ground (arith, (eq_iff a.decision "approved").0);
  unexpired = ground arith;
  window = ground arith;
  same_id = ground (arith, (eq_iff a.capability_id d.id).0);
  same_version = ground (arith, (eq_iff a.capability_version d.version).0);
  same_request = elim (Result-cases (expected_hash lib d subject arguments given)) [
    | inl x ↦ ground (arith, x.1, (eq_iff a.request_hash x.0).0)
    | inr x ↦ ground (arith, x.1)
  ];
  same_report = elim (Result-cases (expected_hash lib d subject arguments given)) [
    | inl x ↦ elim (Result-cases (precondition_hash lib report)) [
      | inl y ↦ ground (arith, x.1, y.1, (eq_iff a.precondition_hash y.0).0)
      | inr y ↦ ground (arith, x.1, y.1)
    ]
    | inr x ↦ ground (arith, x.1)
  ];
}
