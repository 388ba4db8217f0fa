-- ===== src/Capabilities/Autonomy.antt =====
-- autonomy.py: autonomy modes, execution states and approvals.
pub mod Machine
pub mod Shadow
pub mod Mode
pub mod Approvals
pub mod Lifecycle
pub mod Gate
pub mod Kept
mod Examples
use skifer.Prelude.{
  ℕ, ◌+◌, ◌-◌, ◌≡◌, String, Bool, true, false, not, ◌&&◌, ◌||◌, ◌==◌, Option, none, some, List, [],
  ◌∷◌, ltb, leb, or_else, if◌then◌else◌,
}
use skifer.Prelude.Text.{text_length, is_hash, has_control}
use skifer.Outcome.{autonomy_error, approval_error, Result, ok, err, require, refuse, ◌>>=◌, ◌>>◌}
use skifer.Time.{DateTime, is_aware, hours}
use skifer.Json.{Value, text, dict, Fields, end, field, name, JsonLibrary}
use skifer.Capabilities.Model.{
  ApprovalMode, shadow, supervised, guarded, Reversibility, CapabilityDefinition, is_irreversible,
}
use skifer.Capabilities.Preconditions.{PreconditionReport}
use skifer.Capabilities.Preconditions.Evaluator.{bounded_hash, precondition_hash}

pub data AutonomyMode : Type 0 where
  shadow_mode supervised_mode guarded_mode : AutonomyMode

pub data ExecutionState : Type 0 where
  proposed preconditions_passed pending_approval approved executing : ExecutionState
  executed failed compensating compensated : ExecutionState

abbrev pub max_approval_window : ℕ
max_approval_window = hours 4

abbrev pub max_stored_approvals : ℕ
max_stored_approvals = 1

abbrev pub max_approval_reason_length : ℕ
max_approval_reason_length = 2_000

abbrev pub max_approval_actor_length : ℕ
max_approval_actor_length = 128

-- `target in TRANSITIONS[state]`
unfoldable pub allowed : ExecutionState → ExecutionState → Bool
allowed proposed preconditions_passed = true
allowed preconditions_passed pending_approval = true
allowed preconditions_passed executing = true
allowed pending_approval approved = true
allowed approved executing = true
allowed executing executed = true
allowed executing failed = true
allowed executed compensating = true
allowed failed compensating = true
allowed compensating compensated = true
allowed compensating failed = true
allowed _ _ = false

pub record ApprovalRecord : Type 0 where
  pub capability_id : String
  pub capability_version : String
  pub actor : String
  pub decision : String
  pub reason : String
  pub granted_at : DateTime
  pub expires_at : DateTime
  pub request_hash : String
  pub precondition_hash : String

-- `_validate_text`
unfoldable pub validate_text : String → ℕ → Result (Unit {0})
validate_text value maximum = do
  refuse (value == "" || ltb maximum (text_length value)) approval_error
  refuse (has_control value) approval_error

-- `ApprovalRecord.__post_init__`
unfoldable pub make_approval : ApprovalRecord → Result ApprovalRecord
make_approval a = do
  refuse (a.capability_id == "") approval_error
  refuse (a.capability_version == "") approval_error
  validate_text a.actor max_approval_actor_length
  require (a.decision == "approved" || a.decision == "denied") approval_error
  validate_text a.reason max_approval_reason_length
  require (is_aware a.granted_at) approval_error
  require (is_aware a.expires_at) approval_error
  refuse (leb a.expires_at.instant a.granted_at.instant) approval_error
  refuse (ltb max_approval_window (a.expires_at.instant - a.granted_at.instant)) approval_error
  require (is_hash a.request_hash) approval_error
  require (is_hash a.precondition_hash) approval_error
  ok a

-- The mapping that `request_hash` hashes.
unfoldable pub request_identity : String → String → String → Value → Value
request_identity capability_id capability_version subject arguments = dict (
    field (name "capability_id") (text capability_id) (
      field (name "capability_version") (text capability_version)
        (field (name "subject") (text subject) (field (name "arguments") arguments end))))

-- `request_hash`
unfoldable pub request_hash : JsonLibrary → CapabilityDefinition → String → Value → Result String
request_hash lib definition subject arguments =
    bounded_hash lib (request_identity definition.id definition.version subject arguments)

-- `AutonomyMode[definition.approval.name]`
unfoldable pub declared_mode : ApprovalMode → AutonomyMode
declared_mode shadow = shadow_mode
declared_mode supervised = supervised_mode
declared_mode guarded = guarded_mode

unfoldable pub rank : AutonomyMode → ℕ
rank shadow_mode = 2
rank supervised_mode = 1
rank guarded_mode = 0

abbrev pub is_guarded : AutonomyMode → Bool
is_guarded guarded_mode = true
is_guarded _ = false

-- `resolve_autonomy_mode`; of two modes with one rank `max` takes the first.
unfoldable pub resolve_autonomy_mode :
    CapabilityDefinition → Option AutonomyMode → Result AutonomyMode
unfolding declared_mode rank
resolve_autonomy_mode definition configured =
    let declared = declared_mode definition.approval in
    let environment = or_else configured shadow_mode in
    let effective = if ltb (rank declared) (rank environment) then environment else declared in
    if is_irreversible definition.reversibility && is_guarded effective
    then err autonomy_error
    else ok effective

-- `expected_request_hash or request_hash(...)`: an empty text counts as none.
unfoldable pub expected_hash :
    JsonLibrary → CapabilityDefinition → String → Value → Option String → Result String
expected_hash lib definition subject arguments none = request_hash lib definition subject arguments
expected_hash lib definition subject arguments (some h) =
    if h == "" then request_hash lib definition subject arguments else ok h

-- `validate_approval`
unfoldable pub validate_approval :
    JsonLibrary
    → ApprovalRecord
    → CapabilityDefinition
    → String
    → Value
    → PreconditionReport
    → DateTime
    → Option String
    → Result (Unit {0})
unfolding expected_hash
validate_approval lib approval definition subject arguments report now expected_request_hash = do
  require (is_aware now) approval_error
  require (is_aware approval.granted_at) approval_error
  require (is_aware approval.expires_at) approval_error
  validate_text approval.actor max_approval_actor_length
  validate_text approval.reason max_approval_reason_length
  require (approval.decision == "approved") approval_error
  refuse (leb approval.expires_at.instant now.instant) approval_error
  refuse (ltb max_approval_window (approval.expires_at.instant - approval.granted_at.instant))
      approval_error
  require (approval.capability_id == definition.id) approval_error
  require (approval.capability_version == definition.version) approval_error
  expected ← expected_hash lib definition subject arguments expected_request_hash
  require (is_hash expected) approval_error
  require (approval.request_hash == expected) approval_error
  observed ← precondition_hash lib report
  require (approval.precondition_hash == observed) approval_error
