-- ===== src/Lib.antt =====
-- Skifer: the governed execution of agent capabilities (src/skifer/capabilities), the certified
-- publication of tables (src/skifer/observability), and the policy that lets consumers read them
-- (src/skifer/semantic/access_policy.py).
--
-- A capability is a declared operation that an agent may ask for. The boundary copies and checks its
-- arguments, resolves how much autonomy it has, evaluates its preconditions, demands an approval
-- where one is needed, issues a short credential, calls the registered executor, and writes every
-- state to an append-only journal, which decides what a repeated request may do.
--
-- A certified publication stages a table, checks it, and then promotes it to its target or sets it aside
-- in quarantine. A store keeps the events of each run, the results of its checks and the incidents
-- that they opened, of which the owners downstream are told.
--
-- The parts, and the code that each file models:
--   Prelude, Outcome, Time   what the parts share: text tests, exceptions as values, datetimes.
--   Json                     the values that cross the boundary. Json/Copy is `_copy_json_safe` of
--     executors.py, Json/Redaction is `_redact_credential_echo` of executor.py, Json/Canonical is
--     `_canonical_state` of preconditions.py.
--   Capabilities/Model       models.py: `CapabilityDefinition`.
--   Capabilities/Preconditions   preconditions.py: outcomes, reports, the registry of rules. Its
--     child Evaluator is `PreconditionEvaluator`, and Reason the reason code of an exception.
--   Capabilities/Autonomy    autonomy.py: modes, approvals, request hashes. Its child Machine is
--     `AutonomyStateMachine`, whose fields are the record Machine and whose methods are functions
--     that return a result beside the machine they leave. Shadow is its `record_shadow`.
--   Capabilities/Lease, Capabilities/Credentials   credentials.py: `CredentialLease` and
--     `CredentialBroker`; `issue_for` is the composition of its three locked sections.
--   Capabilities/Executors   executors.py: `CapabilityResult` and `CapabilityExecutorRegistry`.
--   Capabilities/Arguments   invoker.py: `validate_arguments`.
--   Capabilities/History     history.py: events and the SQLite journal, as the list of its rows.
--   Capabilities/Governed    executor.py: `GovernedExecutor`. Host is what it is constructed from,
--     World the state it works on; Effects has the actions on a world, Checks the parts that touch no
--     state, Execute is `_execute` with Execute/Prior and Execute/Prepare for the methods it calls,
--     Compensate is `compensate`.
--   Observability/Checks     checks.py and monitor.py: what the other parts read of a report.
--   Observability/Incidents  incidents.py: the states of an incident and the incidents of a report.
--   Observability/Downstream, Observability/Recipients   incidents.py: the relaxation over lineage
--     edges, and who is told of an incident. Downstream/Walks has the walks that specify it.
--   Observability/IncidentTable, Observability/Journal   certification_store.py: the tables of
--     `SqliteCertificationStore`, as lists of rows.
--   Observability/Certification   certification.py: `diff_contracts`. Certification/Fields, Compatible
--     and Same are about what it finds.
--   Observability/Publication   publication.py and quarantine.py. Host is what the coordinator is
--     constructed from, World the state; Names has the names of tables, Effects the single writes,
--     Stage, Promote, Quarantine and Publish the functions of the source. Kept says, for any relation
--     that the single writes keep, that the functions keep it; Guarded, Stuck and Cleared use it.
--   Semantic/AccessPolicy   semantic/access_policy.py: overrides, lifecycles, and whether a consumer may
--     read what is certified, or not. Justified and Granted are about `evaluate`, Timely about
--     `evaluate_lifecycle`.
--
-- How they interact: Publication/Publish runs Stage, asks the monitor, appends to the Journal, and
-- either runs Quarantine and opens rows of the IncidentTable for the incidents of the report, or runs
-- Promote and resolves them. Governed/Execute runs the checks of Arguments, the mode of Autonomy, the
-- evaluator of Preconditions, one new Machine per request, the broker of Credentials, the executor of
-- Executors, and reads and appends to the journal of History. What the application registers (rules,
-- executors, lookups, the credential provider, the state reader), clocks and `uuid4` are fields of
-- Host that answer by the moment at which they are asked, so they may answer differently each time.
--
-- Libraries: `json` and `hashlib` are the record JsonLibrary, `str.lower` and the comparison of
-- Python values are fields of Host. No law is assumed of them. Where a theorem says so, what is not
-- under src/ is supposed to behave: `uuid4` gives no identity twice, and, for the retries of a
-- publication, the store and the backend do not fail from the last attempt on. Dates, durations and
-- `str.strip` are the record PolicyLibrary in the access policy, of which nothing is assumed.
--
-- The backend's tables, its operations and the monitor are fields of the Host of a publication; each
-- answers by the moment at which it is asked, and may fail there. `str.strip` is a parameter of
-- Recipients, and so is the search for an owner in the application's governance object.
--
-- Bounds: the copies of `_canonical_state` and `_copy_bounded_detail` recurse on the levels left,
-- from the depth bound plus one; at no level left the code raises, and so does the model, so no run
-- ends for want of fuel. The relaxation runs at most one round more than there are edges, as the
-- source does; a longest shortest walk has no more edges than there are, so that is enough. Counters
-- and sizes are natural numbers, as Python's integers do not wrap.
--
-- Not modelled: tests of a Python type that the model's types make true; the messages of exceptions
-- (an exception is its class); cycles in values; the executor's lock, since one process runs one
-- request at a time under it; the catalogue and its validator, the invoker's read and dry-run paths; of
-- a publication, the spans, which may raise where tracing is required, and the lineage events, catalog
-- tags and metadata index, which are written at best effort; failures of a read of its store (a write
-- is made, or fails as a whole); an overflow of a delay in `diff_contracts`; the Delta store; and the
-- rest of src/skifer.
pub mod Prelude
pub mod Outcome
pub mod Time
pub mod Json
pub mod Capabilities
pub mod Observability
pub mod Semantic
