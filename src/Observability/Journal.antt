-- ===== src/Observability/Journal.antt =====
-- certification_store.py: the runs and the check results of `SqliteCertificationStore`, as the lists of
-- their rows in the order of insertion. Every writer writes UTC, so a time is its instant in
-- microseconds, and the order of the texts is the order of the instants. An event's identity is the text
-- `{run_id}:{state}`, a check result's is `{run_id}:{check_type}:{index}`; as neither a UUID nor
-- the name of a class has a colon, two of them are equal exactly if their parts are, which is what the
-- model compares.
pub mod Latest
use skifer.Prelude.{
  ℕ, ◌+◌, String, Bool, true, false, not, ◌&&◌, ◌==◌, Option, none, some, List, [], ◌∷◌, ◌++◌, any,
  ltb, leb, if◌then◌else◌,
}
use skifer.Observability.Checks.{CheckStatus, ContractScope, is_blocking, is_critical}

-- `RunState`, and the two states that quarantine.py writes as literals.
pub data RunState : Type 0 where
  started staging staged promoting promoted quarantined check_error : RunState

unfoldable pub same_state : RunState → RunState → Bool
same_state started started = true
same_state staging staging = true
same_state staged staged = true
same_state promoting promoting = true
same_state promoted promoted = true
same_state quarantined quarantined = true
same_state check_error check_error = true
same_state _ _ = false

-- `ContractDefinition`, without the fields that the store only keeps.
pub record ContractDefinition : Type 0 where
  pub contract_id : String
  pub contract_version : String
  pub definition_hash : String

pub record RunEvent : Type 0 where
  pub run_id : String
  pub dataset : String
  pub state : RunState
  pub contract_id : String
  pub contract_version : String
  pub definition_hash : String
  pub occurred_at : ℕ
  pub target_fqn : Option String
  pub staging_fqn : Option String
  pub quarantine_fqn : Option String

-- A row with this identity.
abbrev pub is_event : String → RunState → RunEvent → Bool
is_event run state e = e.run_id == run && same_state e.state state

unfoldable pub has_event : String → RunState → List RunEvent → Bool
unfolding same_state
has_event run state rows = any (is_event run state) rows

-- `INSERT OR IGNORE`
unfoldable pub append_run_event : RunEvent → List RunEvent → List RunEvent
unfolding has_event
append_run_event e rows = if has_event e.run_id e.state rows then rows else rows ++ e ∷ []

-- `ORDER BY occurred_at DESC, rowid DESC LIMIT 1`: the best row so far, and a later one.
unfoldable pub newer_event : Option RunEvent → RunEvent → Option RunEvent
newer_event none e = some e
newer_event (some best) e = if leb best.occurred_at e.occurred_at then some e else some best

unfoldable pub newest_event : (RunEvent → Bool) → Option RunEvent → List RunEvent → Option RunEvent
unfolding newer_event
newest_event test best [] = best
newest_event test best (e ∷ rows) =
    let with_e = newest_event test (newer_event best e) rows in
    let without_e = newest_event test best rows in if test e then with_e else without_e

unfoldable pub get_run : String → List RunEvent → Option RunEvent
unfolding newest_event
get_run run rows = newest_event (λ e. e.run_id == run) none rows

unfoldable pub get_latest_promoted : String → List RunEvent → Option RunEvent
unfolding newest_event same_state
get_latest_promoted dataset rows =
    newest_event (λ e. e.dataset == dataset && same_state e.state promoted) none rows

-- `max(now, occurred_at + timedelta(microseconds=1))`
abbrev after_previous : ℕ → Option RunEvent → ℕ
after_previous now none = now
after_previous now (some previous) =
    if ltb now (previous.occurred_at + 1) then previous.occurred_at + 1 else now

unfoldable pub next_run_event_time : List RunEvent → String → ℕ → ℕ
unfolding get_run
next_run_event_time rows run now = after_previous now (get_run run rows)

pub record StoredCheckResult : Type 0 where
  pub run_id : String
  pub index : ℕ
  pub check_type : String
  pub scope : ContractScope
  pub severity : String
  pub status : CheckStatus
  pub message : String

same_result : StoredCheckResult → StoredCheckResult → Bool
same_result r s =
    r.run_id == s.run_id
    && r.check_type == s.check_type
    && leb r.index s.index
    && leb s.index r.index

unfoldable pub append_check_results :
    List StoredCheckResult → List StoredCheckResult → List StoredCheckResult
unfolding same_result
append_check_results [] rows = rows
append_check_results (r ∷ rs) rows =
    append_check_results rs (if any (same_result r) rows then rows else rows ++ r ∷ [])

unfoldable pub get_check_results : String → List StoredCheckResult → List StoredCheckResult
get_check_results run [] = []
get_check_results run (r ∷ rows) =
    let rest = get_check_results run rows in if r.run_id == run then r ∷ rest else rest

-- A critical check is recorded as FAIL or ERROR.
unfoldable pub blocks : List StoredCheckResult → Bool
blocks results = any (λ r. is_blocking r.status && is_critical r.severity) results

pub record Certification : Type 0 where
  pub dataset : String
  pub consumer_class : String
  pub certified : Bool
  pub contract_version : Option String
  pub definition_hash : Option String
  pub certified_at : Option ℕ
  pub checks_passed : Bool

certification_of : String → String → List StoredCheckResult → Option RunEvent → Certification
certification_of dataset consumer_class checks none = record {
  dataset = dataset;
  consumer_class = consumer_class;
  certified = false;
  contract_version = none;
  definition_hash = none;
  certified_at = none;
  checks_passed = true;
}
certification_of dataset consumer_class checks (some e) = record {
  dataset = dataset;
  consumer_class = consumer_class;
  certified = true;
  contract_version = some e.contract_version;
  definition_hash = some e.definition_hash;
  certified_at = some e.occurred_at;
  checks_passed = not (blocks (get_check_results e.run_id checks));
}

unfoldable pub get_certification :
    String → String → List RunEvent → List StoredCheckResult → Certification
unfolding certification_of
get_certification dataset consumer_class rows checks =
    certification_of dataset consumer_class checks (get_latest_promoted dataset rows)
