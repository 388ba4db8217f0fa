-- ===== src/Observability/Publication/Examples.antt =====
-- A concrete host whose backend fails once, and a staged run.
use skifer.Prelude.{
  ℕ, String, ◌≡◌, inl, refl, sym, subst, none, some, List, [], ◌∷◌, ltb, arith, if◌then◌else◌,
}
use skifer.Outcome.Action.{◌>>=◌, read}
use skifer.Observability.Publication.Effects.{record_state, ask}
use skifer.Outcome.{ok, err, raised, value_error}
use skifer.Time.{utc}
use skifer.Observability.Checks.{CheckResult, dataset_scope, skipped, has_critical_failures}
use skifer.Observability.Publication.Publish.{stored_results}
use skifer.Prelude.{true, false}
use skifer.Observability.Journal.{
  ContractDefinition, RunState, RunEvent, started, staging, staged, promoted, quarantined, get_run,
  has_event, blocks, get_check_results, same_state,
}
use skifer.Observability.Publication.{Host, World, PublicationRun}
use skifer.Observability.Publication.Promote.{promote_staging}
use skifer.Observability.Publication.Publish.{publish}
use skifer.Observability.Publication.Guarded.{Guarded, promote_staging-Guarded}
use skifer.Observability.Publication.Cleared.{Cleared, IsReady, publish-Cleared}
use skifer.Observability.Publication.Blocked.{IsBlocked}
use skifer.Observability.Publication.Stuck.{Stuck}
use skifer.Observability.Publication.Session.{
  Request, publishes, resumes, handle_all, handle_all-Stuck,
}
use skifer.Observability.Publication.Ready.{Done, Ready}
use skifer.Observability.Publication.Retried.{IsCalm, attempts, attempts_promote}

abbrev run_id : String
run_id = "0b8e"

-- Its tables are the names of those that were written; the store's first
-- write fails, and so do the backend's reads before moment 3.
abbrev host : Host
host = record {
  Tables = List String;
  Data = String;
  write_staging = λ n d fqn t. (ok tt, fqn ∷ t);
  write_table = λ n d fqn t. (ok tt, fqn ∷ t);
  drop_staging = λ n fqn t. (ok tt, t);
  read_staging = λ n fqn t. if ltb n 3 then err (raised "AnalysisException") else ok "rows";
  list_columns = λ n d fqn t. ok [];
  tag_row_violations = λ n d ps run version t. ok d;
  check = λ n fqn t. ok [];
  fault = λ n. if ltb n 1 then some (raised "OperationalError") else none;
  clock = λ n. record { instant = n; zone = utc };
  uuid4 = λ n. run_id;
  uuid = λ s. some s;
  alert_incident = λ n target is. ok tt;
  alert_change = λ n previous definition. ok tt;
}

abbrev definition : ContractDefinition
definition = record { contract_id = "orders"; contract_version = "1.0.0"; definition_hash = "d1" }

abbrev run : PublicationRun
run = record {
  run_id = run_id;
  target_fqn = "sales.orders";
  staging_fqn = "_skifer_staging.orders_0b8e";
  state = staged;
}

abbrev event : RunState → ℕ → RunEvent
event state time = record {
  run_id = run_id;
  dataset = "sales.orders";
  state = state;
  contract_id = "orders";
  contract_version = "1.0.0";
  definition_hash = "d1";
  occurred_at = time;
  target_fqn = some "sales.orders";
  staging_fqn = some "_skifer_staging.orders_0b8e";
  quarantine_fqn = none;
}

abbrev staged_rows : List RunEvent
staged_rows = event started 0 ∷ event staging 1 ∷ event staged 2 ∷ []

abbrev blocked_rows : List RunEvent
blocked_rows = event started 0 ∷ event staging 1 ∷ event staged 2 ∷ event quarantined 3 ∷ []

abbrev world : List RunEvent → World host
world rows = record {
  store = record { contracts = []; runs = rows; checks = []; incidents = [] };
  tables = [];
  calls = [];
  tick = 0;
}

promote_staging-Guarded_example :
    Guarded run (world staged_rows) (promote_staging run definition (world staged_rows)).1
promote_staging-Guarded_example = promote_staging-Guarded run definition (world staged_rows)

publish-Cleared_example :
    Cleared
      (IsReady (world []) "rows" "sales.orders" definition (some run_id))
      (world [])
      (publish {h = host} "rows" "sales.orders" definition (some run_id) (world [])).1
publish-Cleared_example =
    publish-Cleared {h = host} (world []) "rows" "sales.orders" definition (some run_id)

blocked_rows-IsBlocked : IsBlocked run_id blocked_rows
unfolding get_run has_event same_state
blocked_rows-IsBlocked = record {
  latest = event quarantined 3;
  is_latest = refl;
  halted = inl refl;
  was_started = refl;
  was_staging = refl;
  was_staged = refl;
}

abbrev requests : List (Request host)
requests = publishes "rows" "sales.orders" definition (some run_id) ∷ resumes run definition ∷ []

handle_all-Stuck_example :
    Stuck run_id (world blocked_rows) (handle_all requests (world blocked_rows))
    × (promote_staging run definition (handle_all requests (world blocked_rows))
        ≡ (err value_error, handle_all requests (world blocked_rows)))
handle_all-Stuck_example =
    handle_all-Stuck run_id requests (world blocked_rows) run definition blocked_rows-IsBlocked refl

staged_rows-Ready : Ready run definition (world staged_rows)
unfolding get_run has_event same_state blocks get_check_results
staged_rows-Ready = inl (record {
  latest = event staged 2;
  is_latest = refl;
  in_progress = inl refl;
  not_done = refl;
  unblocked = refl;
})

-- One attempt fails at the store's first write, the next behind PROMOTING; from moment 3 on, none fails.
attempts-tick : (attempts run definition 2 (world staged_rows)).tick ≡ 3
unfolding attempts promote_staging ◌>>=◌ read get_run blocks get_check_results record_state ask
attempts-tick = refl

IsCalm-from_three : IsCalm host run 3
IsCalm-from_three = record {
  stores = λ n late. ground (arith, late);
  reads = λ n t late. ("rows", ground (arith, late));
  writes = λ n d t late. refl;
  drops = λ n t late. refl;
}

attempts_promote_example :
    ((promote_staging run definition (attempts run definition 2 (world staged_rows))).0
      ≡ ok (record run { state = promoted }))
    × Done run definition
        (promote_staging run definition (attempts run definition 2 (world staged_rows))).1
attempts_promote_example =
    attempts_promote run definition 2 (world staged_rows) staged_rows-Ready
      (subst (IsCalm host run) (sym attempts-tick) IsCalm-from_three)

abbrev skipped_only : List CheckResult
skipped_only =
    record {
      contract = record {
        class_name = "UniqueCheck";
        column = some "id";
        scope = dataset_scope;
        violation_predicate = none;
      };
      status = skipped;
      severity = "critical";
      message = "";
    }
    ∷ []

skipped_only_test :
    (has_critical_failures skipped_only ≡ true)
    × (blocks (stored_results run_id 0 skipped_only) ≡ false)
unfolding has_critical_failures blocks stored_results
skipped_only_test = (refl, refl)
