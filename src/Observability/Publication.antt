-- ===== src/Observability/Publication.antt =====
-- publication.py and quarantine.py: a certified publication. Host is what the coordinator is
-- constructed from and the clocks that it reads, World the state that it works on. The backend is a
-- parameter: its tables are of any type, and each of its operations answers by the moment at which it is
-- called, so it may fail at any time; so may the store's writes. `calls` keeps what the backend was
-- asked to write and to drop, in the order of the calls.
pub mod Names
pub mod Effects
pub mod Stage
pub mod Promote
pub mod Quarantine
pub mod Publish
pub mod Kept
pub mod Guarded
pub mod Cleared
pub mod Ready
pub mod Retried
pub mod Blocked
pub mod Stuck
pub mod Skipped
pub mod Session
mod Examples
use skifer.Prelude.{ℕ, String, Option, List}
use skifer.Outcome.{Error, Result}
use skifer.Time.{DateTime}
use skifer.Observability.Checks.{CheckResult}
use skifer.Observability.Incidents.{Incident}
use skifer.Observability.Journal.{ContractDefinition, RunState, RunEvent, StoredCheckResult}

-- `SqliteCertificationStore`: its tables.
pub record Store : Type 0 where
  pub contracts : List ContractDefinition
  pub runs : List RunEvent
  pub checks : List StoredCheckResult
  pub incidents : List Incident

pub record Host : Type 1 where
  -- the backend's tables, and what is written to them
  pub Tables : Type 0
  pub Data : Type 0
  pub write_staging : ℕ → Data → String → Tables → Result (Unit {0}) × Tables
  pub write_table : ℕ → Data → String → Tables → Result (Unit {0}) × Tables
  pub drop_staging : ℕ → String → Tables → Result (Unit {0}) × Tables
  pub read_staging : ℕ → String → Tables → Result Data
  pub list_columns : ℕ → Data → String → Tables → Result (List String)
  pub tag_row_violations :
      ℕ → Data → List ((String × ℕ) × String) → String → String → Tables → Result Data
  -- `check_from_schema` of the monitor
  pub check : ℕ → String → Tables → Result (List CheckResult)
  -- whether a write of the store raises at this moment
  pub fault : ℕ → Option Error
  pub clock : ℕ → DateTime
  pub uuid4 : ℕ → String
  -- `str(UUID(text))`
  pub uuid : String → Option String
  -- the alerts of the router, if there is one
  pub alert_incident : ℕ → String → List Incident → Result (Unit {0})
  pub alert_change : ℕ → Option RunEvent → ContractDefinition → Result (Unit {0})

pub data Call : Type 0 where
  wrote_staging : String → Call
  -- by a run, to its target
  wrote_table : String → String → Call
  dropped_staging : String → Call

pub record World (h : Host) : Type 0 where
  pub store : Store
  pub tables : h.Tables
  pub calls : List Call
  pub tick : ℕ

pub record PublicationRun : Type 0 where
  pub run_id : String
  pub target_fqn : String
  pub staging_fqn : String
  pub state : RunState
