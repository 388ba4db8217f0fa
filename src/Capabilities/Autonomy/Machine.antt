-- ===== src/Capabilities/Autonomy/Machine.antt =====
-- `AutonomyStateMachine` of autonomy.py. A method returns its result beside the machine that it
-- leaves; what it wrote before it raised stays written.
use skifer.Prelude.{
  String, Bool, true, false, not, ◌==◌, Option, none, some, List, [], ◌∷◌, ◌++◌, leb, length,
  first_some, if◌then◌else◌,
}
use skifer.Outcome.{
  approval_error, transition_error, autonomy_error, type_error, Result, ok, err, require, refuse,
  ◌>>=◌, ◌>>◌,
}
use skifer.Time.{DateTime, is_aware}
use skifer.Json.{Value, JsonLibrary}
use skifer.Json.Canonical.{canonical_state}
use skifer.Capabilities.Model.{CapabilityDefinition}
use skifer.Capabilities.Preconditions.{PreconditionReport, is_allow, matches_allow}
use skifer.Capabilities.Autonomy.{
  ExecutionState, proposed, preconditions_passed, pending_approval, approved, executing, executed,
  failed, compensating, compensated, allowed, ApprovalRecord, max_stored_approvals, request_hash,
  validate_approval,
}

-- The tuple that `request_approval` keeps.
pub record ApprovalContext : Type 0 where
  pub definition : CapabilityDefinition
  pub subject : String
  pub arguments : Value
  pub report : PreconditionReport

pub record Machine : Type 0 where
  pub state : ExecutionState
  pub report : Option PreconditionReport
  pub approval_context : Option ApprovalContext
  pub approval : Option ApprovalRecord
  pub approvals : List ApprovalRecord
  pub proposal : Option Value
  pub simulated_result : Option Value

-- `AutonomyStateMachine(clock=...)`
abbrev pub new_machine : Machine
new_machine = record {
  state = proposed;
  report = none;
  approval_context = none;
  approval = none;
  approvals = [];
  proposal = none;
  simulated_result = none;
}

abbrev pub is_proposed : ExecutionState → Bool
is_proposed proposed = true
is_proposed _ = false

abbrev pub is_pending : ExecutionState → Bool
is_pending pending_approval = true
is_pending _ = false

abbrev pub is_approved : ExecutionState → Bool
is_approved approved = true
is_approved _ = false

-- `_move`
unfoldable pub move : ExecutionState → Machine → Result Machine
move target m =
    if allowed m.state target then ok (record m { state = target }) else err transition_error

-- A method whose writes all come after its last check: on an error the machine is as it was.
unfoldable pub commit : Machine → Result Machine → Result (Unit {0}) × Machine
commit m (ok m') = (ok tt, m')
commit m (err e) = (err e, m)

settle : Machine → Result (String × Machine) → Result String × Machine
settle m (ok (a, m')) = (ok a, m')
settle m (err e) = (err e, m)

-- `preconditions_passed`
unfoldable pub pass_preconditions : PreconditionReport → Machine → Result (Unit {0}) × Machine
unfolding commit
pass_preconditions report m = commit m (do
  require (is_allow report.decision) transition_error
  moved ← move preconditions_passed m
  ok (record moved { report = some report }))

-- `_require_report`, which returns the report that `self._report` then is.
unfoldable pub require_report : CapabilityDefinition → Machine → Result PreconditionReport
require_report definition m = elim m.report [
  | none ↦ err transition_error
  | some report ↦ do require (matches_allow definition report) transition_error; ok report
]

-- `_now`
unfoldable pub aware_now : DateTime → Result DateTime
aware_now now = do require (is_aware now) autonomy_error; ok now

module _ (lib : JsonLibrary) where
  -- `_copy_request`
  unfoldable pub copy_request : CapabilityDefinition → String → Value → Result (Value × String)
  copy_request definition subject arguments = do
    digest ← request_hash lib definition subject arguments
    elim (canonical_state lib arguments) [
      | ok snapshot ↦ ok (snapshot.0, digest)
      | err _ ↦ err approval_error
    ]

  -- The body of `request_approval`: the digest, and the machine with the request it keeps.
  pending_with :
      CapabilityDefinition
      → String
      → Value
      → PreconditionReport
      → Value × String
      → Machine
      → Result (String × Machine)
  pending_with definition subject arguments report copied m = do
    moved ← move pending_approval m
    let context : ApprovalContext = record {
      definition = definition;
      subject = subject;
      arguments = copied.0;
      report = report;
    }
    ok (copied.1, record moved { approval_context = some context })

  -- `request_approval`; the digest is its result.
  unfoldable pub request_approval :
      CapabilityDefinition → String → Value → Machine → Result String × Machine
  unfolding pending_with settle
  request_approval definition subject arguments m = settle m (do
    report ← require_report definition m
    copied ← copy_request definition subject arguments
    pending_with definition subject arguments report copied m)

  -- The checks of `record_approval`. The context is there in PENDING_APPROVAL, which is what `assert`
  -- says.
  unfoldable pub check_given : DateTime → ApprovalRecord → Machine → Result (Unit {0})
  unfolding aware_now
  check_given now approval m = do
    require (is_pending m.state) transition_error
    refuse (leb max_stored_approvals (length m.approvals)) approval_error
    elim m.approval_context [
      | none ↦ err type_error
      | some c ↦ do
        instant ← aware_now now
        validate_approval lib approval c.definition c.subject c.arguments c.report instant none
    ]

  -- The approval is written before `_move` is called.
  unfoldable pub write_given :
      ApprovalRecord → Machine → Result (Unit {0}) → Result (Unit {0}) × Machine
  unfolding commit
  write_given approval m (err e) = (err e, m)
  write_given approval m (ok _) =
      let written : Machine = record m {
        approvals = m.approvals ++ approval ∷ [];
        approval = some approval;
      } in
      commit written (move approved written)

  -- `record_approval`
  unfoldable pub record_approval : DateTime → ApprovalRecord → Machine → Result (Unit {0}) × Machine
  unfolding write_given
  record_approval now approval m = write_given approval m (check_given now approval m)

  -- The approval checks of `begin_execution`.
  unfoldable pub check_approval :
      DateTime
      → CapabilityDefinition
      → String
      → Value
      → PreconditionReport
      → Option ApprovalRecord
      → Option String
      → Machine
      → Result (Unit {0})
  unfolding aware_now
  check_approval now definition subject arguments report approval request_digest m =
      if is_approved m.state
      then (elim (first_some approval m.approval) [
        | none ↦ err transition_error
        | some selected ↦ do
          instant ← aware_now now
          validate_approval lib selected definition subject arguments report instant request_digest
      ])
      else (elim approval [
        | none ↦ ok tt
        | some given ↦ do
          instant ← aware_now now
          validate_approval lib given definition subject arguments report instant request_digest
      ])

  -- `begin_execution`; `now` is the reading of the clock, made only where an approval is checked.
  unfoldable pub begin_execution :
      DateTime
      → CapabilityDefinition
      → String
      → Value
      → Option PreconditionReport
      → Option ApprovalRecord
      → Option String
      → Machine
      → Result (Unit {0}) × Machine
  unfolding commit check_approval
  begin_execution now definition subject arguments report approval request_digest m =
      commit m (elim (first_some report m.report) [
        | none ↦ err transition_error
        | some current ↦ do
          require (is_allow current.decision) transition_error
          require (matches_allow definition current) transition_error
          refuse (is_pending m.state) transition_error
          check_approval now definition subject arguments current approval request_digest m
          move executing m
      ])

-- `record_success`, `record_failure` and `record_compensated`
unfoldable pub record_success : Machine → Result (Unit {0}) × Machine
unfolding commit
record_success m = commit m (move executed m)

unfoldable pub record_failure : Machine → Result (Unit {0}) × Machine
unfolding commit
record_failure m = commit m (move failed m)

unfoldable pub record_compensated : Machine → Result (Unit {0}) × Machine
unfolding commit
record_compensated m = commit m (move compensated m)

-- `if not definition.compensation`: none, or the empty text.
abbrev pub has_compensation : CapabilityDefinition → Bool
has_compensation d = elim d.compensation [ none ↦ false | some c ↦ not (c == "") ]

unfoldable pub begin_compensation : CapabilityDefinition → Machine → Result (Unit {0}) × Machine
unfolding commit
begin_compensation definition m =
    commit m (do require (has_compensation definition) transition_error; move compensating m)
